-- ===== src/Shared.antt =====
-- The shared objects of chapter13 and chapter16 that a mutex protects. What the mutex calls return
-- is given to each function, `none` for 0; the statements between them run without interleaving.
pub mod Counter
pub mod GlobalError
pub mod SharedSum
pub mod Once
pub mod Barrier
mod Tests
