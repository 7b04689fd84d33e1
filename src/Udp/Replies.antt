-- ===== src/Udp/Replies.antt =====
-- Requests and replies of chapter20: whose reply is taken, and how often a request is sent.
use usp.Base.{
  ℕ, zero, suc, ◌-◌, ◌≤◌, ◌<◌, ◌≡◌, ◌∙◌, refl, sym, ap, subst, true, false, Bool-cases, inl, inr,
  Option, none, some, List, ◌==◌, ==_iff, arith,
}
use usp.Base.Int.{ℤ}
use usp.Os.{Reply, ok, fail, Os}
use usp.Restart.{restart}
use usp.Io.{Run, Result, returned, failed, Result-then, Result-weaken, restart-Result}
use usp.Net.{Addr, short, Net}
use usp.Uici.{name2addr, starts_with_digit}
use usp.Udp.{
  same_addr, u_comparehost, u_recvfrom, u_sendto, u_sendtohost, match_loop, request_reply,
}
use usp.Udp.Laws.{Silent, Receives, Sends, Datagrams}

module _ {os : Os} {net : Net os} (d : Datagrams net) where
  open os use {World}
  open d use {sent, patience}

  -- `n` datagrams were sent, and less than `bound` events are still to come.
  abbrev pub At : ℕ → ℕ → World → Type 0
  At n bound v = (sent v ≡ n) × (patience v < bound)

  pub Silent-At : {n b : ℕ} {w v : World} → At n b w → Silent sent patience w v → At n b v
  Silent-At p q = (q.0 ∙ p.0, omega (arith, q.1, p.1))

  name2addr-At : {n b : ℕ} {w : World} (name : List ℕ) → At n b w → At n b (name2addr net name w).1
  unfolding name2addr
  name2addr-At {w} name p = elim (Bool-cases (starts_with_digit name)) [
    | inl digit ↦ rw (digit, name2addr) p
    | inr other ↦ rw (other, name2addr) (Silent-At p (d.gethostbyname_law name w))
  ]

  comparehost-At :
      {n b : ℕ} {w : World} (from : Addr) (server : List ℕ) (port : ℕ)
      → At n b w
      → At n b (u_comparehost net from server port w).1
  unfolding u_comparehost
  comparehost-At from server port p = elim (Bool-cases (port == from.sin_port)) [
    | inr other ↦ rw (other, u_comparehost) p
    | inl same ↦ rw (same, u_comparehost) (name2addr-At server p)
  ]

  same_addr-eq : (from : Addr) (a : Option ℕ) → same_addr from a ≡ true → a ≡ some from.sin_addr
  unfolding same_addr
  same_addr-eq from none h = absurd (cc h)
  same_addr-eq from (some x) h = ap some (sym ((==_iff _ _).0 h))

  -- The reply came from the server: the address of its name, and its port.
  abbrev pub From : Addr → List ℕ → ℕ → World → Type 0
  From from server port u =
      (from.sin_port ≡ port) × ((name2addr net server u).0 ≡ some from.sin_addr)

  comparehost-From :
      (from : Addr) (server : List ℕ) (port : ℕ) (u : World)
      → (u_comparehost net from server port u).0 ≡ true
      → From from server port u
  unfolding u_comparehost
  comparehost-From from server port u h = elim (Bool-cases (port == from.sin_port)) [
    | inr other ↦ absurd (let no_match : false ≡ true = rw (other, u_comparehost) at h in cc)
    | inl same ↦ (
      sym ((==_iff _ _).0 same),
      same_addr-eq from (name2addr net server u).0 (rw (same, u_comparehost) at h),
    )
  ]

  pub restart_recv-At :
      {n b : ℕ} {w : World} (fuel : ℕ) (fd : ℤ) (k : ℕ)
      → b ≤ fuel
      → At n b w
      → Result
          (λ r v.
            (sent v ≡ n) × (suc (patience v) < b) × ((u : World) × (net.recvfrom fd k u ≡ ok r v)))
          (λ e v. At n b v)
          (restart fuel (net.recvfrom fd k) w)
  restart_recv-At {n} {b} {w} fuel fd k le p =
      restart-Result (At n b) patience (net.recvfrom fd k)
        (λ u v i e.
          let q = subst (Receives sent patience u) e (d.recvfrom_law fd k u) in
          (Silent-At i q.0, q.1 refl))
        (λ u v a i e.
          let q = subst (Receives sent patience u) e (d.recvfrom_law fd k u) in
          (q.0 ∙ i.0, omega (arith, q.1, i.1), (u, e)))
        (λ u v er i ne e.
          let q = subst (Receives sent patience u) e (d.recvfrom_law fd k u) in Silent-At i q.0)
        fuel w p (omega (arith, p.1))

  -- The bytes came in a datagram from the server, the last one that was taken in.
  abbrev pub Matched : (World → Reply World (List ℕ × Addr)) → List ℕ → ℕ → List ℕ → World → Type 0
  Matched recv server port bytes v =
      (u : World) × (u' : World) × (from : Addr) × (recv u ≡ ok (bytes, from) u')
      × From from server port u'
      × ((u_comparehost net from server port u').1 ≡ v)

  -- What a call that waits for a datagram does: `recv` is `recvfrom`.
  abbrev pub Waits : ℕ → (World → Reply World (List ℕ × Addr)) → Run World (List ℕ × Addr) → Type 0
  Waits fuel recv wait =
      (n b : ℕ) (w : World)
      → b ≤ fuel
      → At n b w
      → Result (λ r v. (sent v ≡ n) × (suc (patience v) < b) × ((u : World) × (recv u ≡ ok r v)))
          (λ e v. At n b v) (wait w)

  pub match_loop-Matched :
      (recv : World → Reply World (List ℕ × Addr)) (wait : Run World (List ℕ × Addr))
      (fuel loops : ℕ)
      → Waits fuel recv wait
      → (server : List ℕ) (port n b : ℕ) (w : World) → b ≤ fuel
      → b ≤ loops
      → At n b w
      → Result
          (λ bytes v. At n b v × Matched recv server port bytes v)
          (λ e v. At n b v)
          (match_loop net loops wait server port w)
  unfolding match_loop
  match_loop-Matched recv wait fuel zero waits server port n b w le le' p =
      absurd (omega (arith, p.1))
  match_loop-Matched recv wait fuel (suc loops) waits server port n b w le le' p =
      go
        (λ w' q.
          match_loop-Matched recv wait fuel loops waits server port n (b - 1) w' (omega arith)
            (omega arith) q)
        (wait w) refl (waits n b w le p)
    where
      go :
          ((w' : World)
            → At n (b - 1) w'
            → Result
                (λ bytes v. At n (b - 1) v × Matched recv server port bytes v)
                (λ e v. At n (b - 1) v)
                (match_loop net loops wait server port w'))
          → (r : Option (Reply World (List ℕ × Addr))) → wait w ≡ r
          → Result
              (λ r v. (sent v ≡ n) × (suc (patience v) < b) × ((u : World) × (recv u ≡ ok r v)))
              (λ e v. At n b v)
              r
          → Result
              (λ bytes v. At n b v × Matched recv server port bytes v)
              (λ e v. At n b v)
              (match_loop net (suc loops) wait server port w)
      go ih none e x = elim x [ ]
      go ih (some (fail er v)) e (failed q) = rw (e, match_loop) (failed q)
      go ih (some (ok r v)) e (returned (same, lt, (u, call))) =
          let q : At n (b - 1) v = (same, omega arith) in
          let after = comparehost-At r.1 server port q in
          elim (Bool-cases (u_comparehost net r.1 server port v).0) [
            | inl match ↦
                rw (e, match_loop)
                  (rw (match, match_loop)
                    (returned (
                      (after.0, omega (arith, after.1)),
                      (u, v, r.1, call, comparehost-From r.1 server port v match, refl),
                    )))
            | inr stray ↦
                rw (e, match_loop)
                  (rw (stray, match_loop)
                    (Result-weaken (ih _ after) (λ bytes z k. ((k.0.0, omega (arith, k.0.1)), k.1))
                      (λ er z k. (k.0, omega (arith, k.1)))))
          ]

  -- The request was sent once, or not at all.
  pub u_sendtohost-At :
      (fuel : ℕ) (fd : ℤ) (buf server : List ℕ) (port n : ℕ) (w : World)
      → At n fuel w
      → Result
          (λ k v. At (suc n) fuel v)
          (λ e v. At n fuel v)
          (u_sendtohost net fuel fd buf server port w)
  unfolding u_sendtohost u_sendto
  u_sendtohost-At fuel fd buf server port n w p =
      go (name2addr net server w).0 refl (name2addr-At server p)
    where
      go :
          (a : Option ℕ)
          → (name2addr net server w).0 ≡ a
          → At n fuel (name2addr net server w).1
          → Result
              (λ k v. At (suc n) fuel v)
              (λ e v. At n fuel v)
              (u_sendtohost net fuel fd buf server port w)
      go none e q = rw (e, u_sendtohost) (failed q)
      go (some a) e q =
          rw (e, u_sendtohost)
            (restart-Result (At n fuel) patience
              (net.sendto fd buf (record { sin_addr = a; sin_port = short port }))
              (λ u v i e.
                let k = subst (Sends sent patience u) e (d.sendto_law fd buf _ u) in
                (Silent-At i k.0, k.1 refl))
              (λ u v x i e.
                let k = subst (Sends sent patience u) e (d.sendto_law fd buf _ u) in
                (k.0 ∙ ap suc i.0, omega (arith, k.1, i.1)))
              (λ u v er i ne e.
                let k = subst (Sends sent patience u) e (d.sendto_law fd buf _ u) in
                Silent-At i k.0)
              fuel _ q q.1)

  -- With more fuel than interruptions and datagrams that are still to come, `request_reply` sends
  -- the request at most once and ends. Its reply came after that in a datagram from the server, at
  -- the address of its name and from its port.
  pub request_reply-Matched :
      (fuel : ℕ) (fd : ℤ) (request server : List ℕ) (port replen : ℕ) (w : World)
      → patience w < fuel
      → Result
          (λ bytes v.
            (sent v ≡ suc (sent w)) × Matched (net.recvfrom fd replen) server port bytes v)
          (λ e v. sent v ≤ suc (sent w))
          (request_reply net fuel fd request server port replen w)
  unfolding request_reply u_recvfrom
  request_reply-Matched fuel fd request server port replen w h =
      Result-then
        (Result-weaken (u_sendtohost-At fuel fd request server port (sent w) w (refl, h))
          (λ k v q. q) (λ e v q. omega (arith, q.0)))
        λ k v q.
          Result-weaken
            (match_loop-Matched (net.recvfrom fd replen) (restart fuel (net.recvfrom fd replen))
              fuel fuel (λ n b u le i. restart_recv-At fuel fd replen le i) server port
              (suc (sent w)) fuel v (omega arith) (omega arith) q)
            (λ bytes z x. (x.0.0, x.1)) (λ e z x. omega (arith, x.0))
