-- ===== src/Os.antt =====
-- What the programs ask of the operating system: `errno`, the outcome of a system call, and the
-- calls themselves, which are parameters of the models that use them.
use usp.Base.{ℕ, Bool, true, false, Option, none, some, List}
use usp.Base.Int.{ℤ}

-- The values of `errno` that the sources name, and any other.
pub data Errno : Type 0 where
  eintr einval etime eagain ecanceled erange eexist ealready enomem : Errno
  other : ℕ → Errno

unfoldable pub is_eintr : Errno → Bool
is_eintr Errno.eintr = true
is_eintr _ = false

-- A call on a system in state `W`: it succeeds with a value, or returns -1 and sets `errno`.
pub data Reply (W A : Type 0) : Type 0 where
  ok : A → W → Reply W A
  fail : Errno → W → Reply W A

-- A pthread call returns an error number, and 0 (here `none`) on success.
abbrev pub Code : Type 0
Code = Option Errno

-- The code of a function that reports the error of its unlock in place of its own.
abbrev pub or_code : Code → Code → Code
or_code none error = error
or_code (some e) error = some e

-- `struct timeval`
pub record Timeval : Type 0 where
  pub tv_sec : ℤ
  pub tv_usec : ℤ

-- A successful `read` gives the bytes that it stored, `write` the number that it took, `select`
-- the members of its read set that are ready, and `wait` the process and its status.
pub record Os : Type 1 where
  pub World : Type 0
  pub pipe_buf : ℕ
  pub fd_setsize : ℕ
  pub read : ℤ → ℕ → World → Reply World (List ℕ)
  pub write : ℤ → List ℕ → World → Reply World ℕ
  pub close : ℤ → World → Reply World (Unit {0})
  pub dup2 : ℤ → ℤ → World → Reply World ℤ
  pub open2 : List ℕ → ℕ → World → Reply World ℤ
  pub open3 : List ℕ → ℕ → ℕ → World → Reply World ℤ
  pub wait : World → Reply World (ℤ × ℕ)
  pub waitpid : ℤ → ℕ → World → Reply World (ℤ × ℕ)
  pub gettimeofday : World → Timeval × World
  pub select : List ℤ → Option Timeval → World → Reply World (List ℤ)
