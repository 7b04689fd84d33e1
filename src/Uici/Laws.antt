-- ===== src/Uici/Laws.antt =====
-- What the system documents of its sockets, as hypotheses: which descriptors are open after each
-- call, that signals interrupt only finitely often, and that a descriptor is closed when `close`
-- fails for another reason than a signal.
use usp.Base.{ℕ, ◌≤◌, ◌<◌, ◌≡◌, ◌≢◌, List, ◌∷◌}
use usp.Base.Int.{ℤ}
use usp.Os.{Errno, Reply, ok, fail, Os}
use usp.Net.{Addr, Kind, Net}

module _ {W : Type 0} (fds : W → List ℤ) (patience : W → ℕ) where
  abbrev pub Keeps : W → W → Type 0
  Keeps w v = (fds v ≡ fds w) × (patience v ≤ patience w)

  -- The call opens and closes nothing.
  abbrev pub Quiet : {A : Type 0} → W → Reply W A → Type 0
  Quiet w (ok a v) = Keeps w v
  Quiet w (fail e v) = Keeps w v

  -- The same, and an interruption uses up some patience.
  abbrev pub QuietWait : {A : Type 0} → W → Reply W A → Type 0
  QuietWait w (ok a v) = Keeps w v
  QuietWait w (fail e v) = Keeps w v × (e ≡ Errno.eintr → patience v < patience w)

  -- The call opens the descriptor that it returns.
  abbrev pub Opens : W → Reply W ℤ → Type 0
  Opens w (ok fd v) = (fds v ≡ fd ∷ fds w) × (patience v ≤ patience w)
  Opens w (fail e v) = Keeps w v

  abbrev pub Accepts : W → Reply W (ℤ × Addr) → Type 0
  Accepts w (ok (fd, a) v) = (fds v ≡ fd ∷ fds w) × (patience v ≤ patience w)
  Accepts w (fail e v) = Keeps w v × (e ≡ Errno.eintr → patience v < patience w)

  -- The call closes the descriptor opened last, unless it is interrupted.
  abbrev pub Closes : W → List ℤ → Reply W (Unit {0}) → Type 0
  Closes w rest (ok _ v) = (fds v ≡ rest) × (patience v ≤ patience w)
  Closes w rest (fail e v) =
      (e ≡ Errno.eintr → Keeps w v × (patience v < patience w))
      × (e ≢ Errno.eintr → (fds v ≡ rest) × (patience v ≤ patience w))

pub record Sockets {os : Os} (net : Net os) : Type 1 where
  pub fds : os.World → List ℤ
  pub patience : os.World → ℕ
  pub bound : os.World → ℤ → ℕ → Type 0
  pub listening : os.World → ℤ → ℕ → Type 0
  pub default_sigpipe_law : (w : os.World) → Quiet fds patience w (net.default_sigpipe w)
  pub ignore_sigpipe_law : (w : os.World) → Quiet fds patience w (net.ignore_sigpipe w)
  pub socket_law : (k : Kind) (w : os.World) → Opens fds patience w (net.socket k w)
  pub reuse_addr_law : (fd : ℤ) (w : os.World) → Quiet fds patience w (net.reuse_addr fd w)
  pub bind_law : (fd : ℤ) (a : Addr) (w : os.World) → Quiet fds patience w (net.bind fd a w)
  pub bind_ok :
      (fd : ℤ) (a : Addr) (w v : os.World) → net.bind fd a w ≡ ok tt v → bound v fd a.sin_port
  pub listen_law : (fd : ℤ) (n : ℕ) (w : os.World) → Quiet fds patience w (net.listen fd n w)
  pub listen_ok :
      (fd : ℤ) (n port : ℕ) (w v : os.World)
      → bound w fd port
      → net.listen fd n w ≡ ok tt v
      → listening v fd port
  pub accept_law : (fd : ℤ) (w : os.World) → Accepts fds patience w (net.accept fd w)
  pub connect_law : (fd : ℤ) (a : Addr) (w : os.World) → Quiet fds patience w (net.connect fd a w)
  pub select_write_law : (fd : ℤ) (w : os.World) → QuietWait fds patience w (net.select_write fd w)
  pub gethostbyname_law :
      (name : List ℕ) (w : os.World) → Keeps fds patience w (net.gethostbyname name w).1
  pub gethostbyaddr_law : (a : ℕ) (w : os.World) → Keeps fds patience w (net.gethostbyaddr a w).1
  pub close_law :
      (fd : ℤ) (rest : List ℤ) (w : os.World)
      → fds w ≡ fd ∷ rest
      → Closes fds patience w rest (os.close fd w)
