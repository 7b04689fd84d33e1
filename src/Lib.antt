-- ===== src/Lib.antt =====
-- Verification of the C library code of "UNIX Systems Programming".
--
-- The repository has one folder per chapter; the same file often stands in several of them. The
-- development models the library code, each file once, and leaves out the small programs that only
-- call it. C functions keep their names here.
--
-- The parts:
-- - Os.antt: the system calls that the code makes, as a record `Os` over a state `World` of the
--   outside. A reply is a value or an `errno`. Os has no laws; a proof that relies on what POSIX
--   documents takes those laws as a record (`Source` and `Sink` of Restart/Laws.antt, `Apart` of
--   Restart/Copy.antt), which Restart/Demo.antt gives for a concrete machine.
-- - Restart.antt, Restart/Time.antt: appendixB/restart.c. The restarted calls r_close, r_dup2,
--   r_open2, r_open3, r_read, r_wait, r_waitpid and r_write; readblock, readline, readwrite,
--   readwriteblock and copyfile; the times add2currenttime and gettimeout, and the waits
--   waitfdtimed and readtimed.
-- - Buffer.antt: chapter16/buffer.c, the bounded buffer of `BUFSIZE` items. Buffer/Monitor.antt:
--   chapter16/bufferconddone.c, its version with condition variables and a done flag, as a relation
--   on the states of any number of threads. Buffer/Semaphores.antt: chapter16/bufferseminit.c, its
--   version with semaphores, as a relation in which every call may fail.
-- - History.antt: chapter02/listlib.c, a linked list with traversal keys, and `showhistory` of
--   chapter02/keeploglib.c, its client. History/Keeplog.antt: the program chapter02/keeplog.c without
--   its argument. History/Locked.antt: chapter13/listlib_r.c, the same list under a mutex.
--   History/ReadWrite.antt: chapter13/listlibrw_r.c, the list under a read-write lock.
-- - AtomicLog.antt: appendixD/atomic_logger.c, which gathers log entries into one write.
-- - Shared.antt: chapter13/counter.c, chapter13/globalerror.c, chapter13/sharedsum.c (which reports
--   to globalerror.c), chapter13/testandsetonce.c, chapter13/printinitmutex.c,
--   chapter16/bufferinitmutex.c and chapter13/tbarrier.c.
-- - Bubblesort.antt: chapter02/bubblesort.c.
-- - Text.antt: the C library's strspn and strtok, as the code uses them, and decimal numbers.
--   Makeargv.antt: chapter02/makeargv.c. Wordaverage.antt: chapter02/wordaverage.c, which counts
--   words with the loop of Makeargv.antt.
-- - Net.antt: the socket calls, as a record `Net` over an `Os`. Uici.antt: appendixC/uici.c, with the
--   version of appendixC/uiciname.c that is compiled without REENTRANCY; what POSIX documents of the
--   calls is `Sockets` of Uici/Laws.antt. Udp.antt: appendixC/uiciudp.c and its clients
--   chapter20/request_reply.c, chapter20/request_reply_timeout.c and
--   chapter20/request_reply_timeout_retry.c, with `Datagrams` of Udp/Laws.antt as their laws.
-- - Packet.antt: chapter17/putpacket.c and chapter17/getpacket.c, over r_write and readblock.
-- - Rlogging.antt, Rlogging/Connection.antt: appendixD/rlogging.c, over u_connect, r_read and
--   r_write. Rlogging/Message.antt has the way a receiver cuts its messages apart,
--   Rlogging/Generator.antt the formats of generators.
-- - Shell.antt: the lines of the shells of chapter11, over makeargv: chapter11/parseandredirect.c,
--   chapter11/executeredirect.c, chapter11/executecmdpipe.c, and the simpler `executecmd` of
--   chapter11/executecmdredirect.c and chapter11/executecmdsimple.c. What POSIX documents of the
--   descriptors of a process is `Tables` of Shell/Laws.antt.
-- - Watch.antt: chapter04/monitorselect.c, over r_read and r_close. What POSIX documents of `select`
--   and of the calls is `Endings` of Watch/Endings.antt.
-- - Sembarrier.antt: chapter14/sbarrierold.c, a barrier on two semaphores, and
--   chapter14/destroynamed.c, as a relation on the states of any number of threads of one process.
-- - Io.antt: chains of calls that may fail. Base.antt: what all of them share.
--
-- State is passed explicitly: the static variables of a C file are a record, memory is a function
-- from addresses to nodes where pointers matter, and the outside is a `World`. Bytes are numbers. The
-- error numbers that the code tests or sets have constructors in `Errno`; the others are `other n`.
--
-- A loop whose end depends on the outside takes fuel, and gives `none` when that runs out. Enough is
-- more than the bytes to move plus the `patience` of the outside, the number of interruptions by a
-- signal that are still to come: each round of a loop moves a byte or is interrupted. `showhistory`
-- needs more fuel than the list has entries, `makeargv` and `wordaverage` more than the string has
-- bytes, the UDP clients more than the datagrams that are in the queue, and `monitorselect` more than
-- its descriptors and what is left for them to read. The theorems have these
-- bounds as hypotheses.
--
-- The results of pthread_mutex_lock, pthread_mutex_unlock and the condition variables are given to
-- the functions, so every error path of theirs is run. Code under a mutex runs without another
-- thread between its statements.
--
-- Not modelled: overflow of `int` counters and of `time_t`; the 0 that ends a C string, since a
-- string is the list of its bytes; floating point, where a sum of doubles is an abstract operation
-- and the split of a double into seconds and microseconds is given; the formatting of printf. The
-- versions of uiciname.c and rlogging.c for threads, monitorpoll.c, copy2files.c and whichisready.c of
-- chapter04, the main loops of the shells, the names of the semaphores of chapter14, the branch of
-- keeplog.c for its argument, and the signals, timers, System V IPC and terminal programs of the other
-- chapters are not modelled.
pub mod Base
pub mod Os
pub mod Restart
pub mod Buffer
pub mod History
pub mod AtomicLog
pub mod Shared
pub mod Bubblesort
pub mod Text
pub mod Io
pub mod Makeargv
pub mod Wordaverage
pub mod Net
pub mod Uici
pub mod Udp
pub mod Packet
pub mod Rlogging
pub mod Shell
pub mod Watch
pub mod Sembarrier
