-- ===== src/Shell/Laws.antt =====
-- What POSIX documents of descriptors, as hypotheses: what the table of a process holds after a call
-- that succeeded.
use usp.Base.{ℕ, ◌≡◌, ◌≢◌, ◌&&◌, false, Option, none, some, List}
use usp.Base.Int.{ℤ}
use usp.Os.{Errno, ok, fail, Os}
use usp.Shell.{Processes}

-- What a descriptor stands for. The two ends of a pipe have the same number.
pub data File : Type 0 where
  reader : ℕ → File
  writer : ℕ → File
  input : List ℕ → File
  output : List ℕ → File
  other : ℕ → File

abbrev pub Table : Type 0
Table = ℤ → Option File

-- `u` is `t` with `x` for `fd`.
abbrev pub Sets : Table → Table → ℤ → Option File → Type 0
Sets t u fd x = (u fd ≡ x) × ((d : ℤ) → d ≢ fd → u d ≡ t d)

abbrev pub Adds : Table → Table → ℤ → File → Type 0
Adds t u fd x = (t fd ≡ none) × Sets t u fd (some x)

abbrev pub Same : Table → Table → Type 0
Same t u = (d : ℤ) → u d ≡ t d

abbrev pub Piped : Table → Table → ℤ → ℤ → ℕ → Type 0
Piped t u a b n =
    (t a ≡ none)
    × (t b ≡ none)
    × (u a ≡ some (File.reader n))
    × (u b ≡ some (File.writer n))
    × ((d : ℤ) → d ≢ a → d ≢ b → u d ≡ t d)

pub record Tables {os : Os} (sys : Processes os) : Type 1 where
  pub table : os.World → Table
  pub open_in_law :
      (path : List ℕ) (fd : ℤ) (w v : os.World)
      → os.open2 path sys.o_rdonly w ≡ ok fd v
      → Adds (table w) (table v) fd (File.input path)
  pub open_out_law :
      (path : List ℕ) (fd : ℤ) (w v : os.World)
      → os.open3 path sys.fflag sys.fmode w ≡ ok fd v
      → Adds (table w) (table v) fd (File.output path)
  pub dup2_law :
      (a b r : ℤ) (w v : os.World) → os.dup2 a b w ≡ ok r v → Sets (table w) (table v) b (table w a)
  pub close_law :
      (a : ℤ) (w v : os.World) → os.close a w ≡ ok tt v → Sets (table w) (table v) a none
  pub pipe_law :
      (a b : ℤ) (w v : os.World)
      → sys.pipe w ≡ ok (a, b) v
      → (n : ℕ) × Piped (table w) (table v) a b n
  pub fork_law :
      (w child parent : os.World)
      → sys.fork w ≡ ok child parent
      → Same (table w) (table child) × Same (table w) (table parent)

-- `e` is the error of a call.
pub data Refused {os : Os} (sys : Processes os) (e : Errno) : Type 0 where
  by_open2 : (p : List ℕ) (f : ℕ) (w v : os.World) → os.open2 p f w ≡ fail e v → Refused sys e
  by_open3 : (p : List ℕ) (f m : ℕ) (w v : os.World) → os.open3 p f m w ≡ fail e v → Refused sys e
  by_dup2 : (a b : ℤ) (w v : os.World) → os.dup2 a b w ≡ fail e v → Refused sys e
  by_close : (a : ℤ) (w v : os.World) → os.close a w ≡ fail e v → Refused sys e
  by_pipe : (w v : os.World) → sys.pipe w ≡ fail e v → Refused sys e
  by_fork : (w v : os.World) → sys.fork w ≡ fail e v → Refused sys e
  by_malloc :
      (s : List ℕ)
      → e ≡ Errno.enomem
      → sys.copy_granted s && sys.array_granted s ≡ false
      → Refused sys e
