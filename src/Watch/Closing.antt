-- ===== src/Watch/Closing.antt =====
-- What the loops of `monitorselect` over the descriptors do: they lose none, and close each once.
use mathlib.Core.List.{Perm, perm_middle}
use mathlib.Core.List.Perm
use usp.Base.{
  ℕ, zero, suc, ◌+◌, ◌-◌, ◌≤◌, ◌<◌, ◌≡◌, inl, inr, refl, ap, Bool, true, ◌&&◌, Bool-cases, Option,
  none, some, List, [], ◌∷◌, ◌++◌, length, ltb, arith,
}
use usp.Base.Int.{ℤ, pos, negsuc}
use usp.Os.{Reply, ok, fail, Os}
use usp.Restart.{r_close, r_read}
use usp.Io.{Result, returned, failed}
use usp.Watch.{
  bufsize, fd_isset, live, Watched, with_fd, with_closed, map_watched, after_call, serve,
  close_rest,
}
use usp.Watch.Endings.{hits, Endings, Ends, r_read_bounded, r_close-Ends}

module _ {os : Os} {docommand : List ℕ → os.World → os.World} (t : Endings os docommand)
    (fuel : ℕ) where
  open os use {World}
  open t use {left}

  -- What the loop over the descriptors has done, of `numnow` live ones and with `m` to come: none is
  -- lost, and where one was ready there is less to come.
  pub record Served (fds : List ℤ) (numnow m : ℕ) (progress : Bool) (s : Watched World)
      : Type 0 where
    pub kept : Perm (s.closed ++ live s.fds) (live fds)
    pub sized : length s.closed + length (live s.fds) ≡ length (live fds)
    pub counted : s.numnow + length s.closed ≡ numnow
    pub bounded : left s.world ≤ m
    pub smaller : progress ≡ true → left s.world + s.numnow < m + numnow

  Served-skip :
      (n : ℕ) (fds : List ℤ) (numnow m : ℕ) (p q : Bool) (r : Option (Watched World))
      → (p ≡ true → q ≡ true)
      → Ends (Served fds numnow m q) r
      → Ends (Served (pos n ∷ fds) numnow m p) (map_watched (with_fd (pos n)) r)
  unfolding live
  Served-skip n fds numnow m p q none h x = x
  Served-skip n fds numnow m p q (some s) h x = record {
    kept = Perm.trans (perm_middle s.closed (live s.fds)) (Perm.cons (pos n) x.kept);
    sized = omega (arith, x.sized);
    counted = x.counted;
    bounded = x.bounded;
    smaller = λ e. x.smaller (h e);
  }

  Served-closed :
      (n : ℕ) (fds : List ℤ) (numnow m : ℕ) (p q : Bool) (r : Option (Watched World))
      → 0 < numnow
      → Ends (Served fds (numnow - 1) m q) r
      → Ends (Served (pos n ∷ fds) numnow m p) (map_watched (with_closed (pos n)) r)
  unfolding live
  Served-closed n fds numnow m p q none h x = x
  Served-closed n fds numnow m p q (some s) h x = record {
    kept = Perm.cons (pos n) x.kept;
    sized = omega (arith, x.sized);
    counted = omega (arith, x.counted);
    bounded = x.bounded;
    smaller = λ e. omega (arith, x.counted, x.bounded);
  }

  -- The descriptor was read and stays.
  Served-read :
      (n : ℕ) (fds : List ℤ) (numnow m k : ℕ) (p q : Bool) (r : Option (Watched World))
      → k < m
      → Ends (Served fds numnow k q) r
      → Ends (Served (pos n ∷ fds) numnow m p) (map_watched (with_fd (pos n)) r)
  unfolding live
  Served-read n fds numnow m k p q none h x = x
  Served-read n fds numnow m k p q (some s) h x = record {
    kept = Perm.trans (perm_middle s.closed (live s.fds)) (Perm.cons (pos n) x.kept);
    sized = omega (arith, x.sized);
    counted = x.counted;
    bounded = omega (arith, x.bounded);
    smaller = λ e. omega (arith, x.counted, x.bounded);
  }

  Served-negative :
      (n : ℕ) (fds : List ℤ) (numnow m : ℕ) (p : Bool) (r : Option (Watched World))
      → Ends (Served fds numnow m p) r
      → Ends (Served (negsuc n ∷ fds) numnow m p) (map_watched (with_fd (negsuc n)) r)
  unfolding live
  Served-negative n fds numnow m p none x = x
  Served-negative n fds numnow m p (some s) x = record {
    kept = x.kept;
    sized = x.sized;
    counted = x.counted;
    bounded = x.bounded;
    smaller = x.smaller;
  }

  -- What follows the call of `r_read` on a ready descriptor.
  abbrev served_by :
      ℕ → List ℤ → List ℤ → ℕ → ℕ → Option (Reply World (List ℕ)) → Option (Watched World)
  served_by n readset fds numready numnow none = none
  served_by n readset fds numready numnow (some (ok [] w')) =
      elim (after_call (r_close os fuel (pos n) w')) [
        | none ↦ none
        | some w'' ↦
            map_watched (with_closed (pos n))
              (serve os docommand fuel readset fds numready (numnow - 1) w'')
      ]
  served_by n readset fds numready numnow (some (ok (b ∷ bs) w')) =
      map_watched (with_fd (pos n))
        (serve os docommand fuel readset fds numready numnow (docommand (b ∷ bs) w'))
  served_by n readset fds numready numnow (some (fail e w')) =
      elim (after_call (r_close os fuel (pos n) w')) [
        | none ↦ none
        | some w'' ↦
            map_watched (with_closed (pos n))
              (serve os docommand fuel readset fds numready (numnow - 1) w'')
      ]

  module _ (readset fds : List ℤ) (numready numnow m n : ℕ) (p : Bool) (enough : m < fuel)
      (some_live : length (live fds) < numnow)
      (rest : (k i : ℕ) (w : World)
        → left w ≤ i
        → i < fuel
        → length (live fds) ≤ k
        → Ends
            (Served fds k i (ltb 0 numready && hits readset fds))
            (serve os docommand fuel readset fds numready k w)) where
    shut-Served :
        (w : World)
        → left w ≤ m
        → Ends
            (Served (pos n ∷ fds) numnow m p)
            (elim (after_call (r_close os fuel (pos n) w)) as (λ _. Option (Watched World)) [
              | none ↦ none
              | some w'' ↦
                  map_watched
                    (with_closed (pos n))
                    (serve os docommand fuel readset fds numready (numnow - 1) w'')
            ])
    shut-Served w h =
        go (after_call (r_close os fuel (pos n) w)) (r_close-Ends t fuel (pos n) m w h enough)
      where
        go :
            (r : Option World)
            → Ends (λ v. left v ≤ m) r
            → Ends (Served (pos n ∷ fds) numnow m p) (elim r as (λ _. Option (Watched World)) [
              | none ↦ none
              | some w'' ↦
                  map_watched
                    (with_closed (pos n))
                    (serve os docommand fuel readset fds numready (numnow - 1) w'')
            ])
        go none x = x
        go (some v) at =
            Served-closed n fds numnow m p _ _ (omega arith)
              (rest (numnow - 1) m v at enough (omega arith))

    served_by-Served :
        (r : Option (Reply World (List ℕ)))
        → Result (λ bs v. left v + length bs ≤ m) (λ e v. left v ≤ m) r
        → Ends (Served (pos n ∷ fds) numnow m p) (served_by n readset fds numready numnow r)
    served_by-Served none x = elim x [ ]
    served_by-Served (some (ok [] w)) (returned h) = shut-Served w (omega arith)
    served_by-Served (some (ok (b ∷ bs) w)) (returned h) =
        Served-read n fds numnow m (m - 1) p _ _ (omega arith) (
          rest numnow (m - 1) (docommand (b ∷ bs) w) (omega (arith, t.docommand_law (b ∷ bs) w))
            (omega arith) (omega arith))
    served_by-Served (some (fail e w)) (failed h) = shut-Served w h

  pub serve-Served :
      (readset fds : List ℤ) (numready numnow m : ℕ) (w : World)
      → left w ≤ m
      → m < fuel
      → length (live fds) ≤ numnow
      → Ends
          (Served fds numnow m (ltb 0 numready && hits readset fds))
          (serve os docommand fuel readset fds numready numnow w)
  unfolding serve live
  serve-Served readset [] k numnow m w h enough le = record {
    kept = Perm.refl [];
    sized = omega arith;
    counted = omega arith;
    bounded = h;
    smaller = λ e. absurd (ground arith);
  }
  serve-Served readset (fd ∷ fds) zero numnow m w h enough le = record {
    kept = Perm.refl (live (fd ∷ fds));
    sized = omega arith;
    counted = omega arith;
    bounded = h;
    smaller = λ e. absurd (ground arith);
  }
  serve-Served readset (negsuc n ∷ fds) (suc k) numnow m w h enough le =
      Served-negative n fds numnow m _ _ (serve-Served readset fds (suc k) numnow m w h enough le)
  serve-Served readset (pos n ∷ fds) (suc k) numnow m w h enough le =
      elim (Bool-cases (fd_isset n readset)) [
        | inr quiet ↦
            rw (quiet, serve)
              (Served-skip n fds numnow m _ _ _ (λ e. e)
                (serve-Served readset fds (suc k) numnow m w h enough (omega arith)))
        | inl ready ↦
            rw (ready, serve)
              (served_by-Served readset fds k numnow m n _ enough (omega arith)
                (λ j i v at less len. serve-Served readset fds k j i v at less len)
                (r_read os fuel (pos n) bufsize w)
                (r_read_bounded t fuel (pos n) bufsize m w h enough))
      ]

  pub close_rest-live :
      (fds : List ℤ) (m : ℕ) (w : World)
      → left w ≤ m
      → m < fuel
      → Ends (λ p. p.0 ≡ live fds) (close_rest os docommand fuel fds w)
  unfolding close_rest live
  close_rest-live [] m w h enough = refl
  close_rest-live (negsuc n ∷ fds) m w h enough = close_rest-live fds m w h enough
  close_rest-live (pos n ∷ fds) m w h enough =
      go (after_call (r_close os fuel (pos n) w)) (r_close-Ends t fuel (pos n) m w h enough)
        (λ v at. close_rest-live fds m v at enough)
    where
      add :
          (r : Option (List ℤ × World))
          → Ends (λ p. p.0 ≡ live fds) r
          → Ends
              (λ p. p.0 ≡ pos n ∷ live fds)
              (elim r as (λ _. Option (List ℤ × World)) [
                | none ↦ none
                | some p ↦ some (pos n ∷ p.0, p.1)
              ])
      add none x = x
      add (some p) x = ap (λ l. pos n ∷ l) x

      go :
          (r : Option World)
          → Ends (λ v. left v ≤ m) r
          → ((v : World)
              → left v ≤ m
              → Ends (λ p. p.0 ≡ live fds) (close_rest os docommand fuel fds v))
          → Ends
              (λ p. p.0 ≡ pos n ∷ live fds)
              (elim r as (λ _. Option (List ℤ × World)) [
                | none ↦ none
                | some w' ↦
                    elim (close_rest os docommand fuel fds w') as (λ _. Option (List ℤ × World)) [
                      | none ↦ none
                      | some p ↦ some (pos n ∷ p.0, p.1)
                    ]
              ])
      go none x ih = x
      go (some v) at ih = add (close_rest os docommand fuel fds v) (ih v at)
