-- ===== src/Uici/Leaks.antt =====
-- The descriptors that are open after a call of appendixC/uici.c, whatever fails inside it.
use usp.Base.{
  ℕ, ◌<◌, ◌≡◌, ◌∙◌, refl, ap, subst, Bool, true, false, Bool-cases, inl, inr, Option, none, some,
  List, ◌∷◌, ◌⊎◌, if◌then◌else◌, arith,
}
use usp.Base.Int.{ℤ}
use usp.Os.{Reply, ok, fail, Os}
use usp.Io.{
  then_do, call, done, Result, returned, failed, Result-then, Result-clean, Result-weaken,
  call-Result, restart-Result,
}
use usp.Net.{Addr, short, stream, Net}
use usp.Uici.Laws.{Quiet, QuietWait, Opens, Closes, Sockets}
use usp.Uici.{
  name2addr, u_ignore_sigpipe, close_all, u_open, connect_or_wait, u_connect_to, u_connect,
  in_progress, starts_with_digit,
}

module _ {os : Os} {net : Net os} (s : Sockets net) (fuel : ℕ) where
  open os use {World}
  open s use {fds, patience, bound, listening}

  -- The open descriptors are `l`, and the fuel is enough from here on.
  abbrev pub At : List ℤ → World → Type 0
  At l v = (fds v ≡ l) × (patience v < fuel)

  pub Quiet-At :
      {A : Type 0} {l : List ℤ} {w : World} (r : Reply World A)
      → At l w
      → Quiet fds patience w r
      → Result (λ a v. At l v) (λ e v. At l v) (some r)
  Quiet-At (ok a v) p q = returned (q.0 ∙ p.0, omega (arith, q.1, p.1))
  Quiet-At (fail e v) p q = failed (q.0 ∙ p.0, omega (arith, q.1, p.1))

  pub Opens-At :
      {l : List ℤ} {w : World} (r : Reply World ℤ)
      → At l w
      → Opens fds patience w r
      → Result (λ fd v. At (fd ∷ l) v) (λ e v. At l v) (some r)
  Opens-At (ok fd v) p q = returned (q.0 ∙ ap (λ m. fd ∷ m) p.0, omega (arith, q.1, p.1))
  Opens-At (fail e v) p q = failed (q.0 ∙ p.0, omega (arith, q.1, p.1))

  pub close_all-At :
      {l : List ℤ} {w : World} (sock : ℤ)
      → At (sock ∷ l) w
      → Result (λ b v. At l v) (λ e v. At l v) (close_all net fuel sock w)
  unfolding close_all
  close_all-At {l} {w} sock p =
      restart-Result (At (sock ∷ l)) patience (os.close sock)
        (λ u v i e.
          let q = (subst (Closes fds patience u l) e (s.close_law sock l u i.0)).0 refl in
          ((q.0.0 ∙ i.0, omega (arith, q.1, i.1)), q.1))
        (λ u v a i e.
          let q = subst (Closes fds patience u l) e (s.close_law sock l u i.0) in
          (q.0, omega (arith, q.1, i.1)))
        (λ u v er i ne e.
          let q = (subst (Closes fds patience u l) e (s.close_law sock l u i.0)).1 ne in
          (q.0, omega (arith, q.1, i.1)))
        fuel w p p.1

  pub u_ignore_sigpipe-At :
      {l : List ℤ} {w : World}
      → At l w
      → Result (λ a v. At l v) (λ e v. At l v) (u_ignore_sigpipe net w)
  unfolding u_ignore_sigpipe
  u_ignore_sigpipe-At {l} {w} p =
      Result-then (Quiet-At (net.default_sigpipe w) p (s.default_sigpipe_law w))
        λ default v q. choose default v q
    where
      choose :
          (default : Bool) (v : World)
          → At l v
          → Result
              (λ a v. At l v)
              (λ e v. At l v)
              ((if default then call net.ignore_sigpipe else done tt) v)
      choose true v q = Quiet-At (net.ignore_sigpipe v) q (s.ignore_sigpipe_law v)
      choose false v q = returned q

  -- The two calls that make a socket listen.
  bind_listen-At :
      {l : List ℤ} {w : World} (sock : ℤ) (a : Addr) (n : ℕ)
      → At l w
      → Result
          (λ x v. At l v × listening v sock a.sin_port)
          (λ e v. At l v)
          (then_do (some (net.bind sock a w)) (λ _. call (net.listen sock n)))
  bind_listen-At {l} {w} sock a n p =
      Result-then
        (call-Result {Q = λ x v. At l v × bound v sock a.sin_port} {F = λ e v. At l v}
          (net.bind sock a w)
          (λ x v e.
            let q = subst (Quiet fds patience w) e (s.bind_law sock a w) in
            ((q.0 ∙ p.0, omega (arith, q.1, p.1)), s.bind_ok sock a w v e))
          (λ er v e.
            let q = subst (Quiet fds patience w) e (s.bind_law sock a w) in
            (q.0 ∙ p.0, omega (arith, q.1, p.1))))
        λ x u b.
          call-Result (net.listen sock n u)
            (λ y v e.
              let q = subst (Quiet fds patience u) e (s.listen_law sock n u) in
              ((q.0 ∙ b.0.0, omega (arith, q.1, b.0.1)), s.listen_ok sock n a.sin_port u v b.1 e))
            (λ er v e.
              let q = subst (Quiet fds patience u) e (s.listen_law sock n u) in
              (q.0 ∙ b.0.0, omega (arith, q.1, b.0.1)))

  u_open-At :
      (port : ℕ) (l : List ℤ) (w : World)
      → At l w
      → Result
          (λ fd v. At (fd ∷ l) v × listening v fd (short port))
          (λ e v. At l v)
          (u_open net fuel port w)
  unfolding u_open
  u_open-At port l w p = Result-then (u_ignore_sigpipe-At p) λ _ u1 p1.
      Result-then (Opens-At (net.socket stream u1) p1 (s.socket_law stream u1)) λ sock u2 p2.
        Result-then
          (Result-clean (Quiet-At (net.reuse_addr sock u2) p2 (s.reuse_addr_law sock u2))
            (λ e v q. close_all-At sock q))
          λ _ u3 p3.
            Result-then
              (Result-clean
                (bind_listen-At sock (record { sin_addr = 0; sin_port = short port }) 50 p3)
                (λ e v q. close_all-At sock q))
              λ _ u4 p4. returned p4

  -- With fuel for every interruption, `u_open` returns a new descriptor, the only one that it has
  -- opened, which listens on the port, or fails with the same descriptors open as before.
  pub u_open-Opened :
      (port : ℕ) (w : World)
      → patience w < fuel
      → Result
          (λ fd v. (fds v ≡ fd ∷ fds w) × listening v fd (short port))
          (λ e v. fds v ≡ fds w)
          (u_open net fuel port w)
  u_open-Opened port w h =
      Result-weaken (u_open-At port (fds w) w (refl, h)) (λ fd v q. (q.0.0, q.1)) (λ e v q. q.0)

  -- `connect` succeeded, or the wait for an interrupted one, and left `v`.
  abbrev pub Reached : ℤ → Addr → World → Type 0
  Reached sock server v =
      (u : World) × ((net.connect sock server u ≡ ok tt v) ⊎ (net.select_write sock u ≡ ok tt v))

  connect_or_wait-At :
      {l : List ℤ} {w : World} (sock : ℤ) (server : Addr)
      → At l w
      → Result
          (λ x v. At l v × Reached sock server v)
          (λ e v. At l v)
          (connect_or_wait net fuel sock server w)
  unfolding connect_or_wait
  connect_or_wait-At {l} {w} sock server p =
      go (net.connect sock server w) refl (s.connect_law sock server w)
    where
      go :
          (r : Reply World (Unit {0}))
          → net.connect sock server w ≡ r
          → Quiet fds patience w r
          → Result
              (λ x v. At l v × Reached sock server v)
              (λ e v. At l v)
              (connect_or_wait net fuel sock server w)
      go (ok tt v) e q =
          rw (e, connect_or_wait) (returned ((q.0 ∙ p.0, omega (arith, q.1, p.1)), (w, inl e)))
      go (fail er v) e q = elim (Bool-cases (in_progress er)) [
        | inr real ↦
            rw (e, connect_or_wait)
              (rw (real, connect_or_wait) (failed (q.0 ∙ p.0, omega (arith, q.1, p.1))))
        | inl waits ↦
            rw (e, connect_or_wait)
              (rw (waits, connect_or_wait)
                (restart-Result (At l) patience (net.select_write sock)
                  (λ u v i e.
                    let k = subst (QuietWait fds patience u) e (s.select_write_law sock u) in
                    ((k.0.0 ∙ i.0, omega (arith, k.0.1, i.1)), k.1 refl))
                  (λ u v a i e.
                    let k = subst (QuietWait fds patience u) e (s.select_write_law sock u) in
                    ((k.0 ∙ i.0, omega (arith, k.1, i.1)), (u, inr e)))
                  (λ u v er i ne e.
                    let k = subst (QuietWait fds patience u) e (s.select_write_law sock u) in
                    (k.0.0 ∙ i.0, omega (arith, k.0.1, i.1)))
                  fuel v (q.0 ∙ p.0, omega (arith, q.1, p.1)) (omega (arith, q.1, p.1))))
      ]

  u_connect_to-At :
      (server : Addr) (l : List ℤ) (w : World)
      → At l w
      → Result
          (λ fd v. At (fd ∷ l) v × Reached fd server v)
          (λ e v. At l v)
          (u_connect_to net fuel server w)
  unfolding u_connect_to
  u_connect_to-At server l w p = Result-then (u_ignore_sigpipe-At p) λ _ u1 p1.
      Result-then (Opens-At (net.socket stream u1) p1 (s.socket_law stream u1)) λ sock u2 p2.
        Result-then
          (Result-clean (connect_or_wait-At sock server p2) (λ e v q. close_all-At sock q))
          λ _ u3 p3. returned p3

  -- The address of a name, with the descriptors as before.
  pub name2addr-At :
      {l : List ℤ} {w : World} (name : List ℕ) → At l w → At l (name2addr net name w).1
  unfolding name2addr
  name2addr-At {w} name p = elim (Bool-cases (starts_with_digit name)) [
    | inl digit ↦ rw (digit, name2addr) p
    | inr other ↦
        let k = s.gethostbyname_law name w in
        rw (other, name2addr) (k.0 ∙ p.0, omega (arith, k.1, p.1))
  ]

  -- The address that `u_connect` connects to: that of the name, and the port.
  abbrev pub Connected : ℕ → List ℕ → World → ℤ → World → Type 0
  Connected port hostn w fd v =
      (addr : ℕ) × ((name2addr net hostn w).0 ≡ some addr)
      × Reached fd (record { sin_addr = addr; sin_port = short port }) v

  -- With fuel for every interruption, `u_connect` returns a new descriptor, the only one that it has
  -- opened, on which `connect` to the port at the address of the host name, or the wait for it,
  -- succeeded; or it fails with the same descriptors open as before.
  pub u_connect-Connected :
      (port : ℕ) (hostn : List ℕ) (w : World)
      → patience w < fuel
      → Result
          (λ fd v. (fds v ≡ fd ∷ fds w) × Connected port hostn w fd v)
          (λ e v. fds v ≡ fds w)
          (u_connect net fuel port hostn w)
  unfolding u_connect
  u_connect-Connected port hostn w h =
      go (name2addr net hostn w).0 refl (name2addr-At hostn (refl, h))
    where
      go :
          (a : Option ℕ)
          → (name2addr net hostn w).0 ≡ a
          → At (fds w) (name2addr net hostn w).1
          → Result
              (λ fd v. (fds v ≡ fd ∷ fds w) × Connected port hostn w fd v)
              (λ e v. fds v ≡ fds w)
              (u_connect net fuel port hostn w)
      go none e p = rw (e, u_connect) (failed p.0)
      go (some addr) e p =
          rw (e, u_connect)
            (Result-weaken
              (u_connect_to-At (record { sin_addr = addr; sin_port = short port }) (fds w) _ p)
              (λ fd v q. (q.0.0, (addr, refl, q.1))) (λ er v q. q.0))
