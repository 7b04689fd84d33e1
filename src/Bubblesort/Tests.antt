-- ===== src/Bubblesort/Tests.antt =====
-- The theorem on `bubblesort` at concrete inputs, and a run of it.
use usp.Base.{◌+◌, ◌≡◌, refl, List, [], ◌∷◌}
use usp.Base.Int.{ℤ, pos, negsuc}
use mathlib.Core.List.{Perm}
use usp.Bubblesort.{bubblesort}
use usp.Bubblesort.Pass.{Ascending, inversions}
use usp.Bubblesort.Sorted.{bubblesort-Ascending}

abbrev mixed : List ℤ
mixed = pos 3 ∷ negsuc 4 ∷ pos 8 ∷ pos 0 ∷ []

mixed_sorted : bubblesort mixed 2 ≡ (negsuc 4 ∷ pos 0 ∷ pos 3 ∷ pos 8 ∷ [], 5)
unfolding bubblesort
mixed_sorted = refl

bubblesort-Ascending_example :
    Ascending (bubblesort mixed 2).0
    × Perm mixed (bubblesort mixed 2).0
    × ((bubblesort mixed 2).1 ≡ 2 + inversions mixed)
bubblesort-Ascending_example = bubblesort-Ascending mixed 2
