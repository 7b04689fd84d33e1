-- ===== src/Uici/Tests.antt =====
-- The theorems on appendixC/uici.c in a small system, where a signal comes once.
use usp.Base.{ℕ, ◌≡◌, true, List, [], ◌∷◌, arith}
use usp.Base.Int.{pos}
use usp.Io.{Result}
use usp.Uici.{u_open, u_accept, u_connect}
use usp.Uici.Leaks.{u_open-Opened, Connected, u_connect-Connected}
use usp.Uici.Accepted.{Fits, u_accept-Accepted}
use usp.Uici.Demo.{Box, wires, sockets}

abbrev quiet_box : Box
quiet_box = record { fds = pos 0 ∷ []; port = 0; signals = 1; sent = 0; inbox = [] }

u_open-Opened_example :
    Result
      (λ fd (v : Box). (v.fds ≡ fd ∷ pos 0 ∷ []) × (v.port ≡ 8623))
      (λ e v. v.fds ≡ pos 0 ∷ [])
      (u_open wires 2 8623 quiet_box)
u_open-Opened_example = u_open-Opened sockets 2 8623 quiet_box (omega arith)

-- "host"
abbrev host : List ℕ
host = b'h' ∷ b'o' ∷ b's' ∷ b't' ∷ []

u_connect-Connected_example :
    Result
      (λ fd (v : Box). (v.fds ≡ fd ∷ pos 0 ∷ []) × Connected sockets 2 8623 host quiet_box fd v)
      (λ e v. v.fds ≡ pos 0 ∷ [])
      (u_connect wires 2 8623 host quiet_box)
u_connect-Connected_example = u_connect-Connected sockets 2 8623 host quiet_box (omega arith)

u_accept-Accepted_example :
    Result
      (λ r (v : Box). (v.fds ≡ r.0 ∷ pos 0 ∷ []) × Fits true (pos 3) r.1)
      (λ e v. v.fds ≡ pos 0 ∷ [])
      (u_accept wires 2 (pos 0) true (pos 3) quiet_box)
u_accept-Accepted_example = u_accept-Accepted sockets 2 (pos 0) true (pos 3) quiet_box (omega arith)
