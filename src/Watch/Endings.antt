-- ===== src/Watch/Endings.antt =====
-- What `monitorselect` of chapter04 relies on: the calls end.
use usp.Base.{
  ℕ, ◌+◌, ◌≤◌, ◌<◌, ◌≡◌, refl, ap, Bool, true, false, Option, none, some, List, [], ◌∷◌, length,
  if◌then◌else◌, arith,
}
use usp.Base.Int.{ℤ, pos, negsuc}
use usp.Os.{Errno, Reply, ok, fail, Os}
use usp.Restart.{r_close, r_read}
use usp.Io.{Result, returned, failed, restart-Result}
use usp.Watch.{fd_isset, live, after_call}

-- A live descriptor of the array is ready.
abbrev pub hits : List ℤ → List ℤ → Bool
hits readset [] = false
hits readset (negsuc n ∷ fds) = hits readset fds
hits readset (pos n ∷ fds) = if fd_isset n readset then true else hits readset fds

-- What the system documents of the calls, with `left w` for what is still to come in the state `w`:
-- bytes to be read and interruptions. `select` waits until one of its descriptors is ready.
pub record Endings (os : Os) (docommand : List ℕ → os.World → os.World) : Type 0 where
  pub left : os.World → ℕ
  pub read_ok :
      (fd : ℤ) (n : ℕ) (w v : os.World) (bs : List ℕ)
      → os.read fd n w ≡ ok bs v
      → left v + length bs ≤ left w
  pub read_fail :
      (fd : ℤ) (n : ℕ) (w v : os.World) (e : Errno) → os.read fd n w ≡ fail e v → left v ≤ left w
  pub read_eintr :
      (fd : ℤ) (n : ℕ) (w v : os.World) → os.read fd n w ≡ fail Errno.eintr v → left v < left w
  pub close_ok : (fd : ℤ) (w v : os.World) → os.close fd w ≡ ok tt v → left v ≤ left w
  pub close_fail :
      (fd : ℤ) (w v : os.World) (e : Errno) → os.close fd w ≡ fail e v → left v ≤ left w
  pub close_eintr : (fd : ℤ) (w v : os.World) → os.close fd w ≡ fail Errno.eintr v → left v < left w
  pub select_ok :
      (fds readset : List ℤ) (w v : os.World)
      → os.select fds none w ≡ ok readset v
      → (left v ≤ left w) × (0 < length readset) × (hits readset fds ≡ true)
  pub select_fail :
      (fds : List ℤ) (w v : os.World) (e : Errno)
      → os.select fds none w ≡ fail e v
      → left v ≤ left w
  pub select_eintr :
      (fds : List ℤ) (w v : os.World) → os.select fds none w ≡ fail Errno.eintr v → left v < left w
  pub docommand_law : (bs : List ℕ) (w : os.World) → left (docommand bs w) ≤ left w

pub hits-live : (readset fds : List ℤ) → hits readset (live fds) ≡ hits readset fds
unfolding live
hits-live readset [] = refl
hits-live readset (pos n ∷ fds) =
    ap (λ h. if fd_isset n readset then true else h) (hits-live readset fds)
hits-live readset (negsuc n ∷ fds) = hits-live readset fds

-- The call came back, with `Q`.
abbrev pub Ends : {A : Type 0} → (A → Type 0) → Option A → Type 0
Ends Q none = ⊥
Ends Q (some a) = Q a

module _ {os : Os} {docommand : List ℕ → os.World → os.World} (t : Endings os docommand)
    (fuel : ℕ) where
  open os use {World}
  open t use {left}

  pub r_read_bounded :
      (fd : ℤ) (n m : ℕ) (w : World)
      → left w ≤ m
      → m < fuel
      → Result (λ bs v. left v + length bs ≤ m) (λ e v. left v ≤ m) (r_read os fuel fd n w)
  unfolding r_read
  r_read_bounded fd n m w h enough =
      restart-Result (λ v. left v ≤ m) left (os.read fd n)
        (λ u v i e. (omega (arith, t.read_fail fd n u v Errno.eintr e), t.read_eintr fd n u v e))
        (λ u v bs i e. omega (arith, t.read_ok fd n u v bs e))
        (λ u v e i ne eq. omega (arith, t.read_fail fd n u v e eq)) fuel w h (omega arith)

  pub r_close-Ends :
      (fd : ℤ) (m : ℕ) (w : World)
      → left w ≤ m
      → m < fuel
      → Ends (λ v. left v ≤ m) (after_call (r_close os fuel fd w))
  unfolding r_close
  r_close-Ends fd m w h enough = go (r_close os fuel fd w) (
      restart-Result (λ v. left v ≤ m) left (os.close fd)
        (λ u v i e. (omega (arith, t.close_fail fd u v Errno.eintr e), t.close_eintr fd u v e))
        (λ u v a i e. omega (arith, t.close_ok fd u v e))
        (λ u v e i ne eq. omega (arith, t.close_fail fd u v e eq)) fuel w h (omega arith))
    where
      go :
          (r : Option (Reply World (Unit {0})))
          → Result (λ a v. left v ≤ m) (λ e v. left v ≤ m) r
          → Ends (λ v. left v ≤ m) (after_call r)
      go r (returned h) = h
      go r (failed h) = h
