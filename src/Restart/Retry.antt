-- ===== src/Restart/Retry.antt =====
-- The restarted calls of appendixB/restart.c: `r_close`, `r_dup2`, `r_open2`, `r_open3`, `r_read`,
-- `r_wait` and `r_waitpid` share one loop.
use usp.Base.{
  ℕ, zero, suc, ◌≤◌, ◌<◌, ◌≡◌, ◌≢◌, ◌∙◌, ap, refl, sym, subst, Option, none, some, List, inl, inr,
  Bool-cases, ◌++◌, [], length, arith,
}
use usp.Base.Int.{ℤ}
use usp.Os.{Errno, is_eintr, Reply, ok, fail, Os}
use usp.Restart.{restart, r_read}
use usp.Restart.Laws.{ReadFailed, Source, Reply-cases, is_eintr-eq, is_eintr-ne}

module _ {W A : Type 0} (call : W → Reply W A) where
  -- The reply of the first call from `w` on that is not interrupted.
  pub data FirstReply : W → Reply W A → Type 0 where
    returned :
        {w : W} {r : Reply W A} {a : A} {w' : W} → call w ≡ ok a w' → r ≡ ok a w' → FirstReply w r
    failed :
        {w : W} {r : Reply W A} {e : Errno} {w' : W}
        → call w ≡ fail e w'
        → e ≢ Errno.eintr
        → r ≡ fail e w'
        → FirstReply w r
    interrupted :
        {w : W} {r : Reply W A} {w' : W}
        → call w ≡ fail Errno.eintr w'
        → FirstReply w' r
        → FirstReply w r

  -- A restarted call ends with the first reply that is no interruption, if each interruption uses
  -- up some patience and the fuel exceeds the patience.
  pub restart-FirstReply :
      (patience : W → ℕ)
      → ((w w' : W) → call w ≡ fail Errno.eintr w' → patience w' < patience w)
      → (fuel : ℕ) (w : W) → patience w < fuel
      → (r : Reply W A) × (restart fuel call w ≡ some r) × FirstReply w r
  unfolding restart
  restart-FirstReply patience law zero w h = absurd (omega arith)
  restart-FirstReply patience law (suc fuel) w h = elim (Reply-cases (call w)) [
    | inl (a, w', e) ↦ (ok a w', rw (e, restart) refl, returned e refl)
    | inr (er, w', e) ↦ elim (Bool-cases (is_eintr er)) [
      | inr real ↦ (
        fail er w',
        rw (e, restart) (rw (real, restart) refl),
        failed e (is_eintr-ne er real) refl,
      )
      | inl int ↦
          let stop : call w ≡ fail Errno.eintr w' = e ∙ ap (λ x. fail x w') (is_eintr-eq er int) in
          let (r, run, first) =
            restart-FirstReply patience law fuel w' (omega (arith, law w w' stop)) in
          (r, rw (e, restart) (rw (int, restart) run), interrupted stop first)
    ]
  ]

module _ {os : Os} {fd : ℤ} (s : Source os fd) where
  open os use {World}
  open s use {input, patience}

  -- What `r_read` of at most `n` bytes has done.
  abbrev pub DidRead : World → ℕ → Option (Reply World (List ℕ)) → Type 0
  DidRead w n none = ⊥
  DidRead w n (some (ok bs w')) =
      (length bs ≤ n)
      × (input w ≡ bs ++ input w')
      × (bs ≡ [] → 0 < n → input w ≡ [])
      × (patience w' ≤ patience w)
  DidRead w n (some (fail e w')) = ReadFailed os fd e w' × (input w ≡ input w')

  FirstReply-DidRead :
      (n : ℕ) {w : World} {r : Reply World (List ℕ)}
      → FirstReply (os.read fd n) w r
      → DidRead w n (some r)
  FirstReply-DidRead n {w} (returned {a} {w'} e same) =
      let got = s.read_ok n w w' a e in
      subst (λ r. DidRead w n (some r)) (sym same)
        (got.0, got.1, (λ z. s.read_end n w w' (e ∙ ap (λ x. ok x w') z)), got.2)
  FirstReply-DidRead n {w} (failed {e = er} {w'} e ne same) =
      subst (λ r. DidRead w n (some r)) (sym same) ((ne, (w, n, e)), s.read_fail n w w' er e)
  FirstReply-DidRead n {w} {r} (interrupted {w'} e first) = later r (FirstReply-DidRead n first)
    where
      less : patience w' < patience w
      less = s.read_eintr n w w' e

      same : input w ≡ input w'
      same = s.read_fail n w w' Errno.eintr e

      later : (r : Reply World (List ℕ)) → DidRead w' n (some r) → DidRead w n (some r)
      later (ok bs v) (le, split, end, down) =
          (le, same ∙ split, (λ z p. same ∙ end z p), omega (arith, less))
      later (fail er v) (ne, rest) = (ne, same ∙ rest)

  pub r_read_lem :
      (fuel n : ℕ) (w : World) → patience w < fuel → DidRead w n (r_read os fuel fd n w)
  unfolding r_read
  r_read_lem fuel n w h =
      let (r, run, first) = restart-FirstReply (os.read fd n) patience (s.read_eintr n) fuel w h in
      rw run (FirstReply-DidRead n first)
