-- ===== src/Bubblesort/Pass.antt =====
-- One pass, `onepass` of chapter02/bubblesort.c: the order and the inversions of the array after it.
use usp.Base.{
  ℕ, zero, suc, ◌+◌, ◌≡◌, ap, refl, Bool, true, false, Bool-cases, List, [], ◌∷◌, ◌++◌, length, All,
  inl, inr, if◌then◌else◌, arith,
}
use usp.Base.Int.{ℤ, ◌≤ℤ◌, ltb_ℤ}
use mathlib.Core.List.{Perm}
use mathlib.Core.List.Perm
use usp.Bubblesort.{Swept, behind, onepass}

le-of-not-lt : (x y : ℤ) → ltb_ℤ y x ≡ false → x ≤ℤ y
le-of-not-lt x y h = ground arith

le-of-lt : (x y : ℤ) → ltb_ℤ y x ≡ true → y ≤ℤ x
le-of-lt x y h = ground arith

-- The items are in ascending order.
abbrev pub Ascending : List ℤ → Type 0
Ascending [] = Unit
Ascending (x ∷ xs) = All (λ y. x ≤ℤ y) xs × Ascending xs

abbrev pub AtMost : ℤ → List ℤ → Type 0
AtMost m = All (λ y. y ≤ℤ m)

-- The items of a list that are less than `z`.
pub below : ℤ → List ℤ → ℕ
below z [] = 0
below z (y ∷ ys) = (if ltb_ℤ y z then 1 else 0) + below z ys

-- The pairs of items that stand in the wrong order.
pub inversions : List ℤ → ℕ
unfolding below
inversions [] = 0
inversions (x ∷ xs) = below x xs + inversions xs

-- A pass over the part `x ∷ p` of an array that goes on with `rest`.
pub record Pass (x : ℤ) (p rest : List ℤ) (count : ℕ) (s : Swept) : Type 0 where
  pub top : ℤ
  pub front : List ℤ
  pub shape : s.a ≡ front ++ (top ∷ rest)
  pub size : length front ≡ length p
  pub greatest : AtMost top front
  pub first : x ≤ℤ top
  pub bound : (z : ℤ) → AtMost z (x ∷ p) → AtMost z front × (top ≤ℤ z)
  pub same : Perm (x ∷ (p ++ rest)) s.a
  pub as_many_below : (z : ℤ) → below z s.a ≡ below z (x ∷ (p ++ rest))
  pub counted : s.count + inversions s.a ≡ count + inversions (x ∷ (p ++ rest))

-- Putting `y` back in front of a pass over `x ∷ p`, where `x ∷ y` or `y ∷ x` stood.
Pass-swap :
    (x y : ℤ) (p rest : List ℤ) (count : ℕ) (s : Swept)
    → ltb_ℤ y x ≡ true
    → Pass x p rest (count + 1) s
    → Pass x (y ∷ p) rest count (behind y s)
unfolding inversions
Pass-swap x y p rest count s swap ih = record {
  top = ih.top;
  front = y ∷ ih.front;
  shape = ap (λ l. y ∷ l) ih.shape;
  size = ap suc ih.size;
  greatest = (let le = le-of-lt x y swap in omega (arith, ih.first), ih.greatest);
  first = ih.first;
  bound = λ z b. ((b.1.0, (ih.bound z (b.0, b.1.1)).0), (ih.bound z (b.0, b.1.1)).1);
  same = Perm.trans (Perm.swap _ _ _) (Perm.cons _ ih.same);
  as_many_below = λ z. omega (arith, ih.as_many_below z);
  counted = ground (arith, ih.counted, ih.as_many_below y);
}

Pass-keep :
    (x y : ℤ) (p rest : List ℤ) (count : ℕ) (s : Swept)
    → ltb_ℤ y x ≡ false
    → Pass y p rest count s
    → Pass x (y ∷ p) rest count (behind x s)
unfolding inversions
Pass-keep x y p rest count s fine ih = record {
  top = ih.top;
  front = x ∷ ih.front;
  shape = ap (λ l. x ∷ l) ih.shape;
  size = ap suc ih.size;
  greatest = (let le = le-of-not-lt x y fine in omega (arith, ih.first), ih.greatest);
  first = (let le = le-of-not-lt x y fine in omega (arith, ih.first));
  bound = λ z b. ((b.0, (ih.bound z b.1).0), (ih.bound z b.1).1);
  same = Perm.cons _ ih.same;
  as_many_below = λ z. omega (arith, ih.as_many_below z);
  counted = omega (arith, ih.counted, ih.as_many_below x);
}

pub onepass-Pass :
    (x : ℤ) (p rest : List ℤ) (swapped : Bool) (count : ℕ)
    → Pass x p rest count (onepass (suc (length p)) (x ∷ (p ++ rest)) swapped count)
unfolding onepass
onepass-Pass x [] rest swapped count = record {
  top = x;
  front = [];
  shape = refl;
  size = refl;
  greatest = tt;
  first = omega arith;
  bound = λ z b. (tt, b.0);
  same = Perm.refl _;
  as_many_below = λ z. refl;
  counted = refl;
}
onepass-Pass x (y ∷ p) rest swapped count = elim (Bool-cases (ltb_ℤ y x)) [
  | inl swap ↦
      rw (swap, onepass)
        (Pass-swap x y p rest count _ swap (onepass-Pass x p rest true (count + 1)))
  | inr fine ↦
      rw (fine, onepass) (Pass-keep x y p rest count _ fine (onepass-Pass y p rest swapped count))
]

-- A pass that swapped before it reports it.
pub onepass-swapped :
    (n : ℕ) (a : List ℤ) (count : ℕ) → (onepass n a true count).interchanges ≡ true
unfolding onepass
onepass-swapped zero a count = refl
onepass-swapped (suc zero) a count = refl
onepass-swapped (suc (suc n)) [] count = refl
onepass-swapped (suc (suc n)) (x ∷ []) count = refl
onepass-swapped (suc (suc n)) (x ∷ y ∷ r) count = elim (Bool-cases (ltb_ℤ y x)) [
  | inl swap ↦ rw (swap, onepass) (onepass-swapped (suc n) (x ∷ r) (count + 1))
  | inr fine ↦ rw (fine, onepass) (onepass-swapped (suc n) (y ∷ r) count)
]

at_least : (x y : ℤ) (p : List ℤ) → x ≤ℤ y → All (λ z. y ≤ℤ z) p → All (λ z. x ≤ℤ z) p
at_least x y [] le all = tt
at_least x y (z ∷ p) le (h, all) = (omega arith, at_least x y p le all)

-- A pass that reports no interchange has changed nothing, and its part is in order.
pub onepass-still :
    (x : ℤ) (p rest : List ℤ) (count : ℕ)
    → (onepass (suc (length p)) (x ∷ (p ++ rest)) false count).interchanges ≡ false
    → Ascending (x ∷ p)
      × (onepass (suc (length p)) (x ∷ (p ++ rest)) false count
          ≡ record { a = x ∷ (p ++ rest); interchanges = false; count = count })
unfolding onepass
onepass-still x [] rest count h = ((tt, tt), refl)
onepass-still x (y ∷ p) rest count h = elim (Bool-cases (ltb_ℤ y x)) [
  | inl swap ↦
      let now : (onepass (suc (length p)) (x ∷ (p ++ rest)) true (count + 1)).interchanges ≡ false =
        rw (swap, onepass) at h in
      let was = onepass-swapped (suc (length p)) (x ∷ (p ++ rest)) (count + 1) in cc
  | inr fine ↦
      let now : (onepass (suc (length p)) (y ∷ (p ++ rest)) false count).interchanges ≡ false =
        rw (fine, onepass) at h in
      let (up, same) = onepass-still y p rest count now in
      let le = le-of-not-lt x y fine in
      (((le, at_least x y p le up.0), up), rw (fine, onepass) (ap (behind x) same))
]

none_below : (x : ℤ) (a : List ℤ) → All (λ y. x ≤ℤ y) a → below x a ≡ 0
unfolding below
none_below x [] least = refl
none_below x (y ∷ a) (h, least) = ground (arith, none_below x a least)

pub inversions-Ascending : (a : List ℤ) → Ascending a → inversions a ≡ 0
unfolding inversions
inversions-Ascending [] up = refl
inversions-Ascending (x ∷ a) (least, up) =
    omega (arith, none_below x a least, inversions-Ascending a up)
