-- ===== src/Restart/Laws.antt =====
-- What POSIX documents of the calls that the restart library makes, as hypotheses: an interrupted
-- call has no effect, a signal comes only finitely often, `read` and `write` may be short, and
-- `write` makes progress.
use usp.Base.{
  ℕ, ◌≤◌, ◌<◌, ◌≡◌, refl, ◌⊎◌, inl, inr, ◌≢◌, true, false, List, [], ◌++◌, length, take, arith,
}
use usp.Base.Int.{ℤ}
use usp.Os.{Errno, is_eintr, Reply, ok, fail, Os}

-- Each interruption of the call uses up some of the signals that are still to come.
abbrev pub Patient {κ} : {W : Type κ} → (W → ℕ) → (W → W → Type 0) → Type κ
Patient {W} patience interrupts = (w w' : W) → interrupts w w' → patience w' < patience w

-- `fd` is open for reading: `input w` are the bytes that are still to be read from it.
pub record Source (os : Os) (fd : ℤ) : Type 0 where
  pub input : os.World → List ℕ
  pub patience : os.World → ℕ
  pub read_ok :
      (n : ℕ) (w w' : os.World) (bs : List ℕ)
      → os.read fd n w ≡ ok bs w'
      → (length bs ≤ n) × (input w ≡ bs ++ input w') × (patience w' ≤ patience w)
  pub read_end : (n : ℕ) (w w' : os.World) → os.read fd n w ≡ ok [] w' → 0 < n → input w ≡ []
  pub read_fail :
      (n : ℕ) (w w' : os.World) (e : Errno) → os.read fd n w ≡ fail e w' → input w ≡ input w'
  pub read_eintr :
      (n : ℕ) (w w' : os.World) → os.read fd n w ≡ fail Errno.eintr w' → patience w' < patience w

-- `fd` is open for writing: `output w` are the bytes that it has taken so far.
pub record Sink (os : Os) (fd : ℤ) : Type 0 where
  pub output : os.World → List ℕ
  pub patience : os.World → ℕ
  pub write_ok :
      (bs : List ℕ) (w w' : os.World) (k : ℕ)
      → os.write fd bs w ≡ ok k w'
      → 0 < length bs
      → (0 < k) × (k ≤ length bs) × (output w' ≡ output w ++ take k bs) × (patience w' ≤ patience w)
  pub write_fail :
      (bs : List ℕ) (w w' : os.World) (e : Errno)
      → os.write fd bs w ≡ fail e w'
      → output w' ≡ output w
  pub write_eintr :
      (bs : List ℕ) (w w' : os.World)
      → os.write fd bs w ≡ fail Errno.eintr w'
      → patience w' < patience w

pub is_eintr-eq : (e : Errno) → is_eintr e ≡ true → e ≡ Errno.eintr
unfolding is_eintr
is_eintr-eq e h = ground arith

pub is_eintr-ne : (e : Errno) → is_eintr e ≡ false → e ≢ Errno.eintr
unfolding is_eintr
is_eintr-ne e h = ground arith

pub Reply-cases :
    {W A : Type 0} (r : Reply W A)
    → ((a : A) × (w : W) × (r ≡ ok a w)) ⊎ ((e : Errno) × (w : W) × (r ≡ fail e w))
Reply-cases (ok a w) = inl (a, w, refl)
Reply-cases (fail e w) = inr (e, w, refl)

-- The error `e` is one that `read` gave in its last call, which left `w`.
abbrev pub ReadFailed : (os : Os) → ℤ → Errno → os.World → Type 0
ReadFailed os fd e w = (e ≢ Errno.eintr) × ((u : os.World) × (n : ℕ) × (os.read fd n u ≡ fail e w))

abbrev pub WriteFailed : (os : Os) → ℤ → Errno → os.World → Type 0
WriteFailed os fd e w =
    (e ≢ Errno.eintr) × ((u : os.World) × (bs : List ℕ) × (os.write fd bs u ≡ fail e w))
