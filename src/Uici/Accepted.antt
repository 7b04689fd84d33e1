-- ===== src/Uici/Accepted.antt =====
-- `u_accept` of appendixC/uici.c, whatever fails inside it.
use usp.Base.{
  ℕ, ◌<◌, ◌≡◌, ◌∙◌, refl, ap, subst, Bool, true, false, Bool-cases, inl, inr, Option, none, some,
  List, ◌∷◌, not, ◌||◌, leb, length, ◌-◌, length-take, if◌then◌else◌, arith,
}
use usp.Base.Int.{ℤ, pos, negsuc}
use usp.Os.{ok, Os}
use usp.Restart.{restart}
use usp.Io.{Result, returned, Result-then, Result-weaken, restart-Result}
use usp.Net.{Net}
use usp.Uici.Laws.{Keeps, Accepts, Sockets}
use usp.Uici.{addr2name, u_accept}
use usp.Uici.Leaks.{At}

-- A name that was put into a buffer of this size.
abbrev pub Fits : Bool → ℤ → Option (List ℕ) → Type 0
Fits hostn hostnsize none = Unit
Fits hostn (negsuc n) (some name) = ⊥
Fits hostn (pos n) (some name) = (hostn ≡ true) × (length name < n)

module _ {os : Os} {net : Net os} (s : Sockets net) (fuel : ℕ) where
  open os use {World}
  open s use {fds, patience}

  accept-At :
      (fd : ℤ) (w : World)
      → patience w < fuel
      → Result
          (λ r v. At s fuel (r.0 ∷ fds w) v)
          (λ e v. At s fuel (fds w) v)
          (restart fuel (net.accept fd) w)
  accept-At fd w h =
      restart-Result (At s fuel (fds w)) patience (net.accept fd)
        (λ u v i e.
          let k = subst (Accepts fds patience u) e (s.accept_law fd u) in
          ((k.0.0 ∙ i.0, omega (arith, k.0.1, i.1)), k.1 refl))
        (λ u v a i e.
          let k = subst (Accepts fds patience u) e (s.accept_law fd u) in
          (k.0 ∙ ap (λ l. a.0 ∷ l) i.0, omega (arith, k.1, i.1)))
        (λ u v er i ne e.
          let k = subst (Accepts fds patience u) e (s.accept_law fd u) in
          (k.0.0 ∙ i.0, omega (arith, k.0.1, i.1)))
        fuel w (refl, h) h

  addr2name-At :
      {l : List ℤ} {v : World} (a n : ℕ)
      → 0 < n
      → At s fuel l v
      → At s fuel l (addr2name net a n v).1 × (length (addr2name net a n v).0 < n)
  unfolding addr2name
  addr2name-At {l} {v} a n some_room p = go (net.gethostbyaddr a v).0 refl
    where
      k : Keeps fds patience v (net.gethostbyaddr a v).1
      k = s.gethostbyaddr_law a v

      go :
          (h : Option (List ℕ))
          → (net.gethostbyaddr a v).0 ≡ h
          → At s fuel l (addr2name net a n v).1 × (length (addr2name net a n v).0 < n)
      go none e =
          rw (e, addr2name)
            (
              (k.0 ∙ p.0, omega (arith, k.1, p.1)),
              omega (arith, length-take (n - 1) (net.inet_ntoa a)),
            )
      go (some name) e =
          rw (e, addr2name)
            ((k.0 ∙ p.0, omega (arith, k.1, p.1)), omega (arith, length-take (n - 1) name))

  named :
      {l : List ℤ} {v : World} (hostn : Bool) (fd : ℤ) (a n : ℕ)
      → At s fuel (fd ∷ l) v
      → Result
          (λ (r : ℤ × Option (List ℕ)) u. (fds u ≡ r.0 ∷ l) × Fits hostn (pos n) r.1)
          (λ e u. fds u ≡ l)
          (if not hostn || leb n 0
            then some (ok (fd, none) v)
            else some (ok (fd, some (addr2name net a n v).0) (addr2name net a n v).1))
  named false fd a n p = returned (p.0, tt)
  named true fd a n p = elim (Bool-cases (leb n 0)) [
    | inl empty ↦ rw empty (returned (p.0, tt))
    | inr room ↦
        let (q, lt) = addr2name-At a n (ground arith) p in rw room (returned (q.0, (refl, lt)))
  ]

  -- With fuel for every interruption, `u_accept` returns a new descriptor, the only one that it has
  -- opened, or fails with the same descriptors open as before. It puts a name into the buffer only
  -- where there is one, and the name with its 0 fits.
  pub u_accept-Accepted :
      (fd : ℤ) (hostn : Bool) (hostnsize : ℤ) (w : World)
      → patience w < fuel
      → Result
          (λ r v. (fds v ≡ r.0 ∷ fds w) × Fits hostn hostnsize r.1)
          (λ e v. fds v ≡ fds w)
          (u_accept net fuel fd hostn hostnsize w)
  unfolding u_accept
  u_accept-Accepted fd hostn (negsuc n) w h =
      Result-then (Result-weaken (accept-At fd w h) (λ r v q. q) (λ e v q. q.0))
        λ r v q. returned (q.0, tt)
  u_accept-Accepted fd hostn (pos hostnsize) w h =
      Result-then (Result-weaken (accept-At fd w h) (λ r v q. q) (λ e v q. q.0))
        λ r v q. named hostn r.0 r.1.sin_addr hostnsize q
