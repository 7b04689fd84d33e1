-- ===== src/Watch/Select.antt =====
-- `monitorselect` of chapter04: the loop around `select`, and the descriptors that it closes.
use mathlib.Core.List.{Perm}
use mathlib.Core.List.Perm
use usp.Base.{
  ℕ, zero, suc, ◌+◌, ◌≤◌, ◌<◌, ◌≡◌, ◌⊎◌, ◌∙◌, inl, inr, refl, sym, ap, subst, Bool, true, false,
  ◌&&◌, Bool-cases, Option, none, some, List, [], ◌∷◌, length, ltb, lt→ltb, leb, All, arith,
}
use usp.Base.Int.{ℤ, pos, negsuc}
use usp.Os.{is_eintr, fail, Os}
use usp.Restart.Laws.{is_eintr-eq, Reply-cases}
use usp.Watch.{live, in_range, Watched, serve, close_rest, and_closed, watch, monitorselect}
use usp.Watch.Endings.{hits, hits-live, Endings, Ends}
use usp.Watch.Closing.{Served, serve-Served, close_rest-live}

module _ {os : Os} {docommand : List ℕ → os.World → os.World} (t : Endings os docommand)
    (calls : ℕ) where
  open os use {World, select}
  open t use {left}

  -- The loop ended and the descriptors of the array are closed, each once.
  abbrev pub Shut : List ℤ → Option (List ℤ × World) → Type 0
  Shut fds r = Ends (λ p. Perm p.0 (live fds)) r

  Shut-rest :
      (fds : List ℤ) (w : World) → left w < calls → Shut fds (close_rest os docommand calls fds w)
  Shut-rest fds w h =
      go (close_rest os docommand calls fds w)
        (close_rest-live t calls fds (left w) w (omega arith) h)
    where
      go : (r : Option (List ℤ × World)) → Ends (λ p. p.0 ≡ live fds) r → Shut fds r
      go none x = x
      go (some p) e = subst (λ l. Perm l (live fds)) (sym e) (Perm.refl (live fds))

  and_closed-Shut :
      (fds : List ℤ) (numnow m : ℕ) (p : Bool) (s : Watched World) (r : Option (List ℤ × World))
      → Served t calls fds numnow m p s
      → Shut s.fds r
      → Shut fds (and_closed os docommand s.closed r)
  and_closed-Shut fds numnow m p s none x y = y
  and_closed-Shut fds numnow m p s (some q) x y = Perm.trans (Perm.append_left s.closed y) x.kept

  module _ (fuel : ℕ) (fds : List ℤ) (numnow m : ℕ) (low : m < calls)
      (le : length (live fds) ≤ numnow)
      (ih : (rest : List ℤ) (k : ℕ) (v : World)
        → left v ≤ m
        → length (live rest) ≤ k
        → left v + k < m + numnow
        → Shut rest (watch os docommand fuel calls rest k v)) where
    -- `select` gave descriptors.
    Shut-ready :
        (readset : List ℤ) (v : World)
        → left v ≤ m
        → 0 < length readset
        → hits readset fds ≡ true
        → Shut fds
            (elim (serve os docommand calls readset fds (length readset) numnow v)
              as (λ _. Option (List ℤ × World)) [
                | none ↦ none
                | some s ↦
                    and_closed os docommand s.closed
                      (watch os docommand fuel calls s.fds s.numnow s.world)
              ])
    Shut-ready readset v at some_ready hit =
        go (serve os docommand calls readset fds (length readset) numnow v)
          (serve-Served t calls readset fds (length readset) numnow m v at low le)
      where
        go :
            (r : Option (Watched World))
            → Ends (Served t calls fds numnow m (ltb 0 (length readset) && hits readset fds)) r
            → Shut fds (elim r as (λ _. Option (List ℤ × World)) [
              | none ↦ none
              | some s ↦
                  and_closed os docommand s.closed
                    (watch os docommand fuel calls s.fds s.numnow s.world)
            ])
        go none x = x
        go (some s) x = and_closed-Shut fds numnow m _ s _ x (
            ih s.fds s.numnow s.world x.bounded (omega (arith, x.sized, x.counted))
              (x.smaller (ground (arith, some_ready, hit))))

  watch-Shut :
      (fuel : ℕ) (fds : List ℤ) (numnow : ℕ) (w : World)
      → left w < calls
      → length (live fds) ≤ numnow
      → left w + numnow < fuel
      → Shut fds (watch os docommand fuel calls fds numnow w)
  unfolding watch
  watch-Shut zero fds numnow w a b c = absurd (omega arith)
  watch-Shut (suc fuel) fds zero w a b c = Shut-rest fds w a
  watch-Shut (suc fuel) fds (suc k) w a b c = elim (Reply-cases (select (live fds) none w)) [
    | inl (readset, v, e) ↦
        let (less, some_ready, hit) = t.select_ok (live fds) readset w v e in
        rw (lt→ltb 0 (suc k) (omega arith), watch) rw (e, watch)
          (Shut-ready fuel fds (suc k) (left w) a b
            (λ rest j u at len small. watch-Shut fuel rest j u (omega arith) len (omega arith))
            readset v less some_ready (sym (hits-live readset fds) ∙ hit))
    | inr (er, v, e) ↦
        rw (lt→ltb 0 (suc k) (omega arith), watch) rw (e, watch)
          (elim (Bool-cases (is_eintr er)) [
            | inl again ↦
                let less =
                  t.select_eintr (live fds) w v (e ∙ ap (λ x. fail x v) (is_eintr-eq er again)) in
                rw (again, watch) (watch-Shut fuel fds (suc k) v (omega arith) b (omega arith))
            | inr real ↦
                rw (real, watch)
                  (Shut-rest fds v (omega (arith, t.select_fail (live fds) w v er e)))
          ])
  ]

-- The descriptor can be a member of an `fd_set`.
abbrev pub InRange : ℕ → ℤ → Type 0
InRange fd_setsize fd = (n : ℕ) × (fd ≡ pos n) × (n < fd_setsize)

live-InRange : (size : ℕ) (fds : List ℤ) → All (InRange size) fds → live fds ≡ fds
unfolding live
live-InRange size [] h = refl
live-InRange size (pos n ∷ fds) h = ap (λ l. pos n ∷ l) (live-InRange size fds h.1)
live-InRange size (negsuc n ∷ fds) ((m, e, less), h) = absurd (ground arith)

in_range-cases :
    (size : ℕ) (fds : List ℤ)
    → (All (InRange size) fds × (in_range size fds ≡ true))
      ⊎ ((¬ All (InRange size) fds) × (in_range size fds ≡ false))
unfolding in_range
in_range-cases size [] = inl (tt, refl)
in_range-cases size (negsuc n ∷ fds) = inr (λ h. ground arith, refl)
in_range-cases size (pos n ∷ fds) = elim (Bool-cases (leb size n)) [
  | inl out ↦ rw (out, in_range) (inr (λ ((m, e, less), h). ground arith, refl))
  | inr within ↦
      rw (within, in_range)
        (elim (in_range-cases size fds) [
          | inl (h, e) ↦ inl (((n, refl, ground arith), h), e)
          | inr (h, e) ↦ inr (λ p. h p.1, e)
        ])
]

-- What `monitorselect` has done: an array of descriptors that are in range is all closed, each once;
-- with any other nothing is done.
abbrev pub Monitored : (W : Type 0) → ℕ → List ℤ → W → Option (List ℤ × W) → Type 0
Monitored W size fds w r =
    (All (InRange size) fds
      × ((closed : List ℤ) × (v : W) × (r ≡ some (closed, v)) × Perm closed fds))
    ⊎ ((¬ All (InRange size) fds) × (r ≡ some ([], w)))

-- For a system whose calls end: with fuel for the calls that are still to come, `monitorselect` ends.
-- When it does, it has closed every descriptor of an array that was in range, each once, and it has
-- done nothing where the array had a descriptor out of range.
pub monitorselect-Monitored :
    {os : Os} {docommand : List ℕ → os.World → os.World} (t : Endings os docommand) (fuel calls : ℕ)
    (fds : List ℤ) (w : os.World)
    → t.left w < calls
    → t.left w + length fds < fuel
    → Monitored os.World os.fd_setsize fds w (monitorselect os docommand fuel calls fds w)
unfolding monitorselect
monitorselect-Monitored {os} {docommand} t fuel calls fds w enough more =
    elim (in_range-cases os.fd_setsize fds) [
      | inr (out, e) ↦ rw (e, monitorselect) (inr (out, refl))
      | inl (within, e) ↦
          let same = live-InRange os.fd_setsize fds within in
          rw (e, monitorselect)
            (inl (
              within,
              go (watch os docommand fuel calls fds (length fds) w) same
                  (watch-Shut t calls fuel fds (length fds) w enough (rw same omega arith) more),
            ))
    ]
  where
    go :
        (r : Option (List ℤ × os.World))
        → live fds ≡ fds
        → Ends (λ p. Perm p.0 (live fds)) r
        → (closed : List ℤ) × (v : os.World) × (r ≡ some (closed, v)) × Perm closed fds
    go none same x = elim x [ ]
    go (some (closed, v)) same x = (closed, v, refl, subst (λ l. Perm closed l) same x)
