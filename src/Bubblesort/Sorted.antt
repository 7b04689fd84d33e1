-- ===== src/Bubblesort/Sorted.antt =====
-- `bubblesort` of chapter02/bubblesort.c: the array and the count that all its passes leave.
use usp.Base.{
  ℕ, zero, suc, ◌+◌, ◌-◌, ◌≤◌, ◌≡◌, ◌∙◌, refl, sym, subst, false, Bool-cases, List, [], ◌∷◌, ◌++◌,
  length, All, All-append, append-nil, inl, inr, arith,
}
use usp.Base.Int.{ℤ, ◌≤ℤ◌}
use mathlib.Core.List.{Perm}
use mathlib.Core.List.Perm
use usp.Bubblesort.{Swept, onepass, sort_loop, bubblesort}
use usp.Bubblesort.Pass.{
  Ascending, AtMost, inversions, inversions-Ascending, Pass, onepass-Pass, onepass-still,
}

-- Every item of `p` is at most every item of `rest`.
abbrev Below : List ℤ → List ℤ → Type 0
Below p rest = All (λ z. AtMost z p) rest

-- What a sort has done to `a` with `count` interchanges before.
pub record Done (a : List ℤ) (count : ℕ) (r : List ℤ × ℕ) : Type 0 where
  pub ascending : Ascending r.0
  pub same_items : Perm a r.0
  pub counted : r.1 + inversions r.0 ≡ count + inversions a

above : (x : ℤ) (p rest : List ℤ) → Below (x ∷ p) rest → All (λ z. x ≤ℤ z) rest × Below p rest
above x p [] b = (tt, tt)
above x p (z ∷ rest) (b, bs) = let (h, k) = above x p rest bs in ((b.0, h), (b.1, k))

Ascending-append :
    (p rest : List ℤ) → Ascending p → Ascending rest → Below p rest → Ascending (p ++ rest)
Ascending-append [] rest up up' b = up'
Ascending-append (x ∷ p) rest (least, up) up' b =
    let (h, k) = above x p rest b in (All-append _ p rest least h, Ascending-append p rest up up' k)

-- After a pass the items before the greatest are below it and the rest.
Below-pass :
    (x : ℤ) (p rest front : List ℤ) (top : ℤ)
    → ((z : ℤ) → AtMost z (x ∷ p) → AtMost z front × (top ≤ℤ z))
    → Below (x ∷ p) rest
    → Below front rest × All (λ z. top ≤ℤ z) rest
Below-pass x p [] front top bound b = (tt, tt)
Below-pass x p (z ∷ rest) front top bound (h, b) =
    let (k, l) = Below-pass x p rest front top bound b in let (m, n) = bound z h in ((m, k), (n, l))

-- Sorting the front that a pass leaves sorts what the pass was over.
after-Pass :
    (rounds n : ℕ) (x : ℤ) (p rest : List ℤ) (count : ℕ) (s : Swept) (pass : Pass x p rest count s)
    → n ≡ length p
    → Done
        (pass.front ++ (pass.top ∷ rest))
        s.count
        (sort_loop rounds (length pass.front) (pass.front ++ (pass.top ∷ rest)) s.count)
    → Done (x ∷ (p ++ rest)) count (sort_loop rounds n s.a s.count)
after-Pass rounds n x p rest count s pass e ih =
    let m = pass.size ∙ sym e in
    let a =
      subst (λ l. Done l s.count (sort_loop rounds (length pass.front) l s.count)) (sym pass.shape)
        ih in
    let d = subst (λ k. Done s.a s.count (sort_loop rounds k s.a s.count)) m a in
    record {
      ascending = d.ascending;
      same_items = Perm.trans pass.same d.same_items;
      counted = d.counted ∙ pass.counted;
    }

sort_loop-Done :
    (rounds : ℕ) (p rest : List ℤ) (count : ℕ)
    → length p ≤ rounds + 1
    → Ascending rest
    → Below p rest
    → Done (p ++ rest) count (sort_loop rounds (length p) (p ++ rest) count)
unfolding sort_loop
sort_loop-Done zero [] rest count h up b = record {
  ascending = up;
  same_items = Perm.refl _;
  counted = refl;
}
sort_loop-Done zero (x ∷ []) rest count h up b = record {
  ascending = Ascending-append (x ∷ []) rest (tt, tt) up b;
  same_items = Perm.refl _;
  counted = refl;
}
sort_loop-Done zero (x ∷ y ∷ p) rest count h up b = absurd (omega arith)
sort_loop-Done (suc rounds) [] rest count h up b = record {
  ascending = up;
  same_items = Perm.refl _;
  counted = refl;
}
sort_loop-Done (suc rounds) (x ∷ p) rest count h up b =
    elim (Bool-cases (onepass (suc (length p)) (x ∷ (p ++ rest)) false count).interchanges) [
      | inr still ↦
          let (up', same) = onepass-still x p rest count still in
          rw (still, sort_loop)
            (subst (λ s. Done (x ∷ (p ++ rest)) count (s.a, s.count)) (sym same)
              (record {
                ascending = Ascending-append (x ∷ p) rest up' up b;
                same_items = Perm.refl _;
                counted = refl;
              }))
      | inl moved ↦
          let pass = onepass-Pass x p rest false count in
          let (low, up') = Below-pass x p rest pass.front pass.top pass.bound b in
          let ih =
            sort_loop-Done rounds pass.front (pass.top ∷ rest)
              (onepass (suc (length p)) (x ∷ (p ++ rest)) false count).count
              (omega (arith, pass.size)) (up', up) (pass.greatest, low) in
          rw (moved, sort_loop) (after-Pass rounds _ x p rest count _ pass (omega arith) ih)
    ]

-- `bubblesort` leaves the items of `a` in ascending order, each as often as before, and adds to the
-- static `count` exactly the number of pairs that stood in the wrong order.
pub bubblesort-Ascending :
    (a : List ℤ) (count : ℕ)
    → Ascending (bubblesort a count).0
      × Perm a (bubblesort a count).0
      × ((bubblesort a count).1 ≡ count + inversions a)
unfolding bubblesort
bubblesort-Ascending a count =
    let d =
      subst (λ l. Done l count (sort_loop (length a - 1) (length a) l count)) (append-nil a)
        (sort_loop-Done (length a - 1) a [] count (omega arith) tt tt) in
    (d.ascending, d.same_items, omega (arith, d.counted, inversions-Ascending _ d.ascending))
