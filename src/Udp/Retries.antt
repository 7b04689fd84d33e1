-- ===== src/Udp/Retries.antt =====
-- The time-outs and tries of chapter20/request_reply_timeout.c and
-- chapter20/request_reply_timeout_retry.c.
use usp.Base.{
  ℕ, zero, suc, ◌+◌, ◌-◌, ◌≤◌, ◌<◌, ◌≡◌, ◌⊎◌, ◌∙◌, refl, Bool-cases, ◌||◌, not, inl, inr, Option,
  some, List, [], ◌∷◌, arith,
}
use usp.Base.Int.{ℤ, pos, ltb_ℤ}
use usp.Os.{Errno, is_eintr, Reply, ok, fail, Os, Timeval}
use usp.Restart.Laws.{is_eintr-eq}
use usp.Restart.Time.{
  remaining, expired, gettimeout, add2currenttime, waitfdtimed, waitfdtimed_loop,
}
use usp.Io.{Result, returned, failed, Result-then, Result-weaken, Result-or_else}
use usp.Net.{Net}
use usp.Udp.{u_recvfromtimed, request_reply_timeout, retry_loop, request_reply_timeout_retry}
use usp.Udp.Laws.{SilentWait, Datagrams}
use usp.Udp.Replies.{
  At, Waits, Silent-At, Matched, restart_recv-At, match_loop-Matched, u_sendtohost-At,
}

gettimeout-cases :
    (os : Os) (end : Timeval) (w : os.World)
    → ((t : Timeval) × (gettimeout os end w ≡ ok t (os.gettimeofday w).1))
      ⊎ ((e : Errno) × (gettimeout os end w ≡ fail e (os.gettimeofday w).1))
unfolding gettimeout
gettimeout-cases os end w = elim (Bool-cases (expired (remaining end (os.gettimeofday w).0))) [
  | inl over ↦ inr (Errno.etime, rw (over, gettimeout) refl)
  | inr left ↦ inl (remaining end (os.gettimeofday w).0, rw (left, gettimeout) refl)
]

module _ {os : Os} {net : Net os} (d : Datagrams net) where
  open os use {World}
  open d use {sent, patience}

  waitfdtimed_loop-At :
      (fuel n b : ℕ) (fd : ℤ) (end timeout : Timeval) (w : World)
      → b ≤ fuel
      → At d n b w
      → Result (λ x v. At d n b v) (λ e v. At d n b v) (waitfdtimed_loop os fuel fd end timeout w)
  unfolding waitfdtimed_loop
  waitfdtimed_loop-At zero n b fd end timeout w le p = absurd (omega (arith, p.1))
  waitfdtimed_loop-At (suc fuel) n b fd end timeout w le p =
      go (λ t v q. waitfdtimed_loop-At fuel n (b - 1) fd end t v (omega arith) q)
        (os.select (fd ∷ []) (some timeout) w) refl (d.select_law (fd ∷ []) (some timeout) w)
    where
      Here : Option (Reply World (Unit {0})) → Type 0
      Here = Result (λ x v. At d n b v) (λ e v. At d n b v)

      go :
          ((t : Timeval) (v : World)
            → At d n (b - 1) v
            → Result
                (λ x v. At d n (b - 1) v)
                (λ e v. At d n (b - 1) v)
                (waitfdtimed_loop os fuel fd end t v))
          → (r : Reply World (List ℤ)) → os.select (fd ∷ []) (some timeout) w ≡ r
          → SilentWait sent patience w r
          → Result
              (λ x v. At d n b v)
              (λ e v. At d n b v)
              (waitfdtimed_loop os (suc fuel) fd end timeout w)
      go ih (ok [] v) e q = rw (e, waitfdtimed_loop) (failed (Silent-At d p q))
      go ih (ok (x ∷ xs) v) e q = rw (e, waitfdtimed_loop) (returned (Silent-At d p q))
      go ih (fail er v) e (q, int) = elim (Bool-cases (is_eintr er)) [
        | inr real ↦
            rw (e, waitfdtimed_loop) (rw (real, waitfdtimed_loop) (failed (Silent-At d p q)))
        | inl again ↦
            let less = int (is_eintr-eq er again) in
            let v' : At d n (b - 1) v = (q.0 ∙ p.0, omega (arith, p.1)) in
            let after = Silent-At d v' (d.gettimeofday_law v) in
            rw (e, waitfdtimed_loop)
              (rw (again, waitfdtimed_loop)
                (elim (gettimeout-cases os end v) [
                  | inl (t, left) ↦
                      rw (left, waitfdtimed_loop)
                        (Result-weaken (ih t _ after) (λ x z k. (k.0, omega (arith, k.1)))
                          (λ er z k. (k.0, omega (arith, k.1))))
                  | inr (er', over) ↦
                      rw (over, waitfdtimed_loop) (failed (after.0, omega (arith, after.1)))
                ]))
      ]

  waitfdtimed-At :
      (fuel n b : ℕ) (fd : ℤ) (end : Timeval) (w : World)
      → b ≤ fuel
      → At d n b w
      → Result (λ x v. At d n b v) (λ e v. At d n b v) (waitfdtimed os fuel fd end w)
  unfolding waitfdtimed
  waitfdtimed-At fuel n b fd end w le p =
      elim (Bool-cases (ltb_ℤ fd (pos 0) || not (ltb_ℤ fd (pos os.fd_setsize)))) [
        | inl bad ↦ rw (bad, waitfdtimed) (failed p)
        | inr good ↦
            let after = Silent-At d p (d.gettimeofday_law w) in
            rw (good, waitfdtimed)
              (elim (gettimeout-cases os end w) [
                | inl (t, left) ↦
                    rw (left, waitfdtimed) (waitfdtimed_loop-At fuel n b fd end t _ le after)
                | inr (er, over) ↦ rw (over, waitfdtimed) (failed after)
              ])
      ]

  module _ {Double : Type 0} (whole micros : Double → ℤ) where
    u_recvfromtimed-At :
        (fuel : ℕ) (fd : ℤ) (replen : ℕ) (seconds : Double)
        → Waits d fuel
            (net.recvfrom fd replen)
            (u_recvfromtimed net whole micros fuel fd replen seconds)
    unfolding u_recvfromtimed add2currenttime
    u_recvfromtimed-At fuel fd replen seconds n b w le p =
        Result-then (waitfdtimed-At fuel n b fd _ _ le (Silent-At d p (d.gettimeofday_law w)))
          λ x v q. restart_recv-At d fuel fd replen le q

    -- A request with a time-out: what comes back is from the server, and one request was sent.
    pub request_reply_timeout-Matched :
        (fuel : ℕ) (fd : ℤ) (request server : List ℕ) (port replen : ℕ) (timeout : Double)
        (w : World)
        → patience w < fuel
        → Result
            (λ bytes v.
              (sent v ≡ suc (sent w)) × Matched d (net.recvfrom fd replen) server port bytes v)
            (λ e v. sent v ≤ suc (sent w))
            (request_reply_timeout net whole micros fuel fd request server port replen timeout w)
    unfolding request_reply_timeout
    request_reply_timeout-Matched fuel fd request server port replen timeout w h =
        Result-then
          (Result-weaken (u_sendtohost-At d fuel fd request server port (sent w) w (refl, h))
            (λ k v q. q) (λ e v q. omega (arith, q.0)))
          λ k v q.
            Result-weaken
              (match_loop-Matched d (net.recvfrom fd replen) _ fuel fuel
                (u_recvfromtimed-At fuel fd replen timeout) server port (suc (sent w)) fuel v
                (omega arith) (omega arith) q)
              (λ bytes z x. (x.0.0, x.1)) (λ e z x. omega (arith, x.0))

    retry_loop-Matched :
        (tries fuel : ℕ) (fd : ℤ) (request server : List ℕ) (port replen : ℕ) (timeout : Double)
        (n : ℕ) (w : World)
        → At d n fuel w
        → Result
            (λ bytes v.
              (sent v ≤ n + tries) × Matched d (net.recvfrom fd replen) server port bytes v)
            (λ e v. sent v ≤ n + tries)
            (retry_loop net whole micros fuel tries fd request server port replen timeout w)
    unfolding retry_loop
    retry_loop-Matched zero fuel fd request server port replen timeout n w p =
        failed (omega (arith, p.0))
    retry_loop-Matched (suc tries) fuel fd request server port replen timeout n w p =
        Result-then
          (Result-weaken (u_sendtohost-At d fuel fd request server port n w p) (λ k v q. q)
            (λ e v q. omega (arith, q.0)))
          λ k v q.
            Result-or_else
              (Result-weaken
                (match_loop-Matched d (net.recvfrom fd replen) _ fuel fuel
                  (u_recvfromtimed-At fuel fd replen timeout) server port (suc n) fuel v
                  (omega arith) (omega arith) q)
                (λ bytes z x. (omega (arith, x.0.0), x.1)) (λ e z x. x))
              (λ e z x.
                Result-weaken
                  (retry_loop-Matched tries fuel fd request server port replen timeout (suc n) z x)
                  (λ bytes u y. (omega (arith, y.0), y.1)) (λ er u y. omega arith))

    -- With more fuel than interruptions and datagrams that are still to come,
    -- `request_reply_timeout_retry` ends after sending the request at most `maxretries` times, and
    -- what it returns came in a datagram from the server, at the address of its name and from its
    -- port.
    pub request_reply_timeout_retry-Matched :
        (fuel : ℕ) (fd : ℤ) (request server : List ℕ) (port replen : ℕ) (timeout : Double)
        (maxretries : ℕ) (w : World)
        → patience w < fuel
        → Result
            (λ bytes v.
              (sent v ≤ sent w + maxretries)
              × Matched d (net.recvfrom fd replen) server port bytes v)
            (λ e v. sent v ≤ sent w + maxretries)
            (request_reply_timeout_retry net whole micros fuel fd request server port replen timeout
              maxretries w)
    unfolding request_reply_timeout_retry
    request_reply_timeout_retry-Matched fuel fd request server port replen timeout maxretries w h =
        retry_loop-Matched maxretries fuel fd request server port replen timeout (sent w) w
          (refl, h)
