-- ===== src/Buffer/Monitor.antt =====
-- chapter16/bufferconddone.c: a bounded buffer with condition variables and a done flag, used by
-- any number of threads. A step is what one thread does between two points at which another may
-- run: the mutex makes the statements between them one step. A condition variable may wake a thread
-- at any time, as POSIX allows, so a signal changes no state.
mod Defs
mod Safety
unfoldable pub use Defs.*
pub use Safety.*
