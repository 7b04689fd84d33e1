-- ===== src/Restart/Tests.antt =====
-- The theorems on the restart library at concrete inputs, and runs of its functions.
use usp.Base.{ℕ, ◌≡◌, refl, some, List, [], ◌∷◌, arith}
use usp.Base.Int.{pos, ◌+ℤ◌}
use usp.Os.{Reply, ok, Timeval}
use usp.Restart.{restart, r_read, r_write, readblock, readline, readwrite, copyfile}
use usp.Restart.Time.{gettimeout}
use usp.Restart.Retry.{FirstReply, restart-FirstReply}
use usp.Restart.Write.{Wrote, r_write_lem}
use usp.Restart.Readblock.{Block, readblock-Block}
use usp.Restart.Readline.{Line, readline-Line}
use usp.Restart.Copy.{Copied, copyfile-Copied}
use usp.Restart.Timing.{IsNormal, TimeLeft, gettimeout-TimeLeft}
use usp.Restart.Demo.{Machine, machine, source, sink, apart, noon}

-- Two interruptions, and the input "hi\n" before "you".
abbrev start : Machine
start = record { input = b'h' ∷ b'i' ∷ b'\n' ∷ b'y' ∷ b'o' ∷ b'u' ∷ []; output = []; signals = 2 }

restart-FirstReply_example :
    (r : Reply Machine (List ℕ)) × (restart 3 (machine.read (pos 0) 1) start ≡ some r)
    × FirstReply (machine.read (pos 0) 1) start r
restart-FirstReply_example =
    restart-FirstReply (machine.read (pos 0) 1) (λ w. w.signals) ((source (pos 0)).read_eintr 1) 3
      start (omega arith)

r_write_lem_example :
    Wrote (sink (pos 1)) start (7 ∷ 8 ∷ 9 ∷ []) 0 (r_write machine 6 (pos 1) (7 ∷ 8 ∷ 9 ∷ []) start)
r_write_lem_example = r_write_lem (sink (pos 1)) 6 (7 ∷ 8 ∷ 9 ∷ []) start (omega arith)

readblock-Block_example : Block (source (pos 0)) start 4 (readblock machine 7 (pos 0) 4 start)
readblock-Block_example = readblock-Block (source (pos 0)) 7 4 start (omega arith)

readline-Line_example : Line (source (pos 0)) start 80 (readline machine 83 (pos 0) 80 start)
readline-Line_example = readline-Line (source (pos 0)) 83 80 start (omega arith)

copyfile-Copied_example :
    Copied
      (source (pos 0))
      (sink (pos 1))
      apart
      0
      start
      (copyfile machine 7 21 (pos 0) (pos 1) start)
copyfile-Copied_example =
    copyfile-Copied (source (pos 0)) (sink (pos 1)) apart 7 21 start (omega arith) (omega arith)
      (omega arith)

noon-IsNormal : IsNormal noon
unfolding ◌+ℤ◌
noon-IsNormal = record { low = omega arith; high = omega arith }

abbrev later : Timeval
later = record { tv_sec = pos 43202; tv_usec = pos 250000 }

later-IsNormal : IsNormal later
unfolding ◌+ℤ◌
later-IsNormal = record { low = omega arith; high = omega arith }

gettimeout-TimeLeft_example : TimeLeft later noon (gettimeout machine later start)
gettimeout-TimeLeft_example = gettimeout-TimeLeft machine later start later-IsNormal noon-IsNormal

readline_run :
    readline machine 10 (pos 0) 80 start
    ≡ some (
        ok
          (3, b'h' ∷ b'i' ∷ b'\n' ∷ [])
          (record { input = b'y' ∷ b'o' ∷ b'u' ∷ []; output = []; signals = 0 }))
unfolding readline
readline_run = refl

copyfile_run :
    copyfile machine 20 20 (pos 0) (pos 1) start
    ≡ some (6, record { input = []; output = start.input; signals = 0 })
unfolding copyfile readwrite r_read r_write restart
copyfile_run = refl
