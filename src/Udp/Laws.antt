-- ===== src/Udp/Laws.antt =====
-- What the system documents of datagrams, as hypotheses: `sent` counts those that were sent, and
-- only finitely many interruptions and datagrams are still to come, which `patience` counts.
use usp.Base.{ℕ, suc, ◌≤◌, ◌<◌, ◌≡◌, Option, List}
use usp.Base.Int.{ℤ}
use usp.Os.{Errno, Reply, ok, fail, Os, Timeval}
use usp.Net.{Addr, Net}

module _ {W : Type 0} (sent patience : W → ℕ) where
  abbrev pub Silent : W → W → Type 0
  Silent w v = (sent v ≡ sent w) × (patience v ≤ patience w)

  abbrev pub SilentWait : {A : Type 0} → W → Reply W A → Type 0
  SilentWait w (ok a v) = Silent w v
  SilentWait w (fail e v) = Silent w v × (e ≡ Errno.eintr → patience v < patience w)

  -- A datagram was taken in.
  abbrev pub Receives : {A : Type 0} → W → Reply W A → Type 0
  Receives w (ok a v) = (sent v ≡ sent w) × (patience v < patience w)
  Receives w (fail e v) = Silent w v × (e ≡ Errno.eintr → patience v < patience w)

  -- A datagram was sent, or none on an error.
  abbrev pub Sends : W → Reply W ℕ → Type 0
  Sends w (ok n v) = (sent v ≡ suc (sent w)) × (patience v ≤ patience w)
  Sends w (fail e v) = Silent w v × (e ≡ Errno.eintr → patience v < patience w)

pub record Datagrams {os : Os} (net : Net os) : Type 1 where
  pub sent : os.World → ℕ
  pub patience : os.World → ℕ
  pub recvfrom_law :
      (fd : ℤ) (n : ℕ) (w : os.World) → Receives sent patience w (net.recvfrom fd n w)
  pub sendto_law :
      (fd : ℤ) (bs : List ℕ) (a : Addr) (w : os.World)
      → Sends sent patience w (net.sendto fd bs a w)
  pub gethostbyname_law :
      (name : List ℕ) (w : os.World) → Silent sent patience w (net.gethostbyname name w).1
  pub gettimeofday_law : (w : os.World) → Silent sent patience w (os.gettimeofday w).1
  pub select_law :
      (fds : List ℤ) (t : Option Timeval) (w : os.World)
      → SilentWait sent patience w (os.select fds t w)
