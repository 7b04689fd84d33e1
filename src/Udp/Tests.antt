-- ===== src/Udp/Tests.antt =====
-- The theorems on requests and replies in a small system, where a signal comes once and a datagram
-- from a stranger arrives before the reply; and runs of the functions.
use usp.Base.{ℕ, ◌+◌, ◌≤◌, ◌≡◌, refl, some, List, [], ◌∷◌, arith}
use usp.Base.Int.{pos}
use usp.Os.{ok}
use usp.Io.{Result}
use usp.Text.{codes, decimal}
use usp.Restart.{restart}
use usp.Uici.{name2addr, starts_with_digit}
use usp.Udp.{u_comparehost, request_reply, request_reply_timeout_retry}
use usp.Udp.Replies.{Matched}
use usp.Udp.Retries.{request_reply_timeout_retry-Matched}
use usp.Uici.Demo.{Box, wires, datagrams}

-- "host"
abbrev host : List ℕ
host = b'h' ∷ b'o' ∷ b's' ∷ b't' ∷ []

abbrev two_arrive : Box
two_arrive = record {
  fds = pos 3 ∷ [];
  port = 0;
  signals = 1;
  sent = 0;
  inbox =
      (7 ∷ [], record { sin_addr = 5; sin_port = 20100 })
      ∷ (8 ∷ 9 ∷ [], record { sin_addr = 99; sin_port = 20100 })
      ∷ [];
}

second_taken :
    request_reply wires 4 (pos 3) (1 ∷ []) host 20100 80 two_arrive
    ≡ some (ok (8 ∷ 9 ∷ []) (record two_arrive { signals = 0; sent = 1; inbox = [] }))
unfolding request_reply name2addr starts_with_digit restart u_comparehost
second_taken = refl

request_reply_timeout_retry-Matched_example :
    Result
      (λ bytes (v : Box).
        (v.sent ≤ 0 + 3) × Matched datagrams (wires.recvfrom (pos 3) 80) host 20100 bytes v)
      (λ e v. v.sent ≤ 0 + 3)
      (request_reply_timeout_retry wires pos pos 4 (pos 3) (1 ∷ []) host 20100 80 2 3 two_arrive)
request_reply_timeout_retry-Matched_example =
    request_reply_timeout_retry-Matched datagrams pos pos 4 (pos 3) (1 ∷ []) host 20100 80 2 3
      two_arrive (omega arith)

port_text : decimal 20100 ≡ codes "20100"
unfolding decimal
port_text = refl
