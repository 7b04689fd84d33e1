-- ===== src/Bubblesort.antt =====
-- chapter02/bubblesort.c: the sort and its count of interchanges. The array is the list of its
-- items, walked from the front.
pub mod Pass
pub mod Sorted
mod Tests
use usp.Base.{ℕ, zero, suc, ◌+◌, ◌-◌, Bool, true, false, List, [], ◌∷◌, length}
use usp.Base.Int.{ℤ, ltb_ℤ}

-- What a pass leaves: the array, `interchanges`, and `count`.
pub record Swept : Type 0 where
  pub a : List ℤ
  pub interchanges : Bool
  pub count : ℕ

abbrev pub behind : ℤ → Swept → Swept
behind x s = record s { a = x ∷ s.a }

-- `onepass` over the first `n` items; `swapped` and `count` are the interchanges so far.
unfoldable pub onepass : ℕ → List ℤ → Bool → ℕ → Swept
onepass (suc (suc n)) (x ∷ y ∷ r) swapped count = elim (ltb_ℤ y x) [
  | true ↦ behind y (onepass (suc n) (x ∷ r) true (count + 1))
  | false ↦ behind x (onepass (suc n) (y ∷ r) swapped count)
]
onepass n a swapped count = record { a = a; interchanges = swapped; count = count }

-- The loop of `bubblesort` with `rounds` passes left, the next one over the first `n` items.
unfoldable pub sort_loop : ℕ → ℕ → List ℤ → ℕ → List ℤ × ℕ
unfolding onepass
sort_loop zero n a count = (a, count)
sort_loop (suc rounds) n a count =
    let s = onepass n a false count in
    elim s.interchanges [ true ↦ sort_loop rounds (n - 1) s.a s.count | false ↦ (s.a, s.count) ]

-- `bubblesort` of all of `a`, and the static `count` after it.
unfoldable pub bubblesort : List ℤ → ℕ → List ℤ × ℕ
unfolding sort_loop
bubblesort a count = sort_loop (length a - 1) (length a) a count

unfoldable clearcount : ℕ → ℕ
clearcount count = 0

unfoldable getcount : ℕ → ℕ
getcount count = count
