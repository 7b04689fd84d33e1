-- ===== src/Base/Totals.antt =====
-- Sums over the threads of a system, which are a list of what each of them does.
use Prim.Native.Nat.{ℕ, zero, suc, ◌+◌, ◌<◌, ◌≤◌}
use mathlib.Core.Path.{◌≡◌, refl}
use mathlib.Core.Logic.{◌⊎◌, inl, inr}
use mathlib.Core.List.{List, [], ◌∷◌}
use mathlib.Core.Option.{some}
use native.Mathlib.Omega.{arith}
use usp.Base.Lists.{get_elem?, set, replicate}

-- The sum of a weight over the threads.
abbrev pub total : {A : Type 0} → (A → ℕ) → List A → ℕ
total f [] = 0
total f (x ∷ l) = f x + total f l

module _ {A : Type 0} where
  pub total-set :
      (f : A → ℕ) (l : List A) (i : ℕ) (p q : A)
      → get_elem? l i ≡ some p
      → total f (set l i q) + f p ≡ total f l + f q
  total-set f [] i p q e = absurd (ground arith)
  total-set f (x ∷ l) zero p q e = let same : x ≡ p = ground arith in rw same (omega arith)
  total-set f (x ∷ l) (suc i) p q e = omega (arith, total-set f l i p q e)

  pub total-replicate : (f : A → ℕ) (n : ℕ) (p : A) → f p ≡ 0 → total f (replicate n p) ≡ 0
  total-replicate f zero p z = refl
  total-replicate f (suc n) p z = omega (arith, total-replicate f n p z)

  -- A thread has no more than its share.
  pub total-get_elem? :
      (f : A → ℕ) (l : List A) (i : ℕ) (p : A) → get_elem? l i ≡ some p → f p ≤ total f l
  total-get_elem? f [] i p e = absurd (ground arith)
  total-get_elem? f (x ∷ l) zero p e = let same : x ≡ p = ground arith in rw same (omega arith)
  total-get_elem? f (x ∷ l) (suc i) p e = omega (arith, total-get_elem? f l i p e)

  -- Some thread has a share of what is not 0.
  pub total-positive :
      (f : A → ℕ) (l : List A)
      → 0 < total f l
      → (i : ℕ) × (p : A) × (get_elem? l i ≡ some p) × (0 < f p)
  total-positive f [] h = absurd (omega arith)
  total-positive f (x ∷ l) h = split (f x) refl (λ more. total-positive f l more)
    where
      Found : List A → Type 0
      Found m = (i : ℕ) × (p : A) × (get_elem? m i ≡ some p) × (0 < f p)

      split : (k : ℕ) → f x ≡ k → (0 < total f l → Found l) → Found (x ∷ l)
      split (suc k) e rest = (0, x, refl, omega arith)
      split zero e rest = let (i, p, at, less) = rest (omega arith) in (suc i, p, at, less)

  pub get_elem?-set :
      (l : List A) (i j : ℕ) (p q : A)
      → get_elem? (set l i q) j ≡ some p
      → (p ≡ q) ⊎ (get_elem? l j ≡ some p)
  get_elem?-set [] i j p q e = inr e
  get_elem?-set (x ∷ l) zero zero p q e = inl (ground arith)
  get_elem?-set (x ∷ l) zero (suc j) p q e = inr e
  get_elem?-set (x ∷ l) (suc i) zero p q e = inr e
  get_elem?-set (x ∷ l) (suc i) (suc j) p q e = get_elem?-set l i j p q e
