-- ===== src/Shared/Counter.antt =====
-- chapter13/counter.c: a counter under a mutex. The count stays in the range of `int`.
use usp.Base.{ℕ, suc, ◌≡◌, ◌∙◌, Option, none, some, List, [], ◌∷◌, arith}
use usp.Base.Int.{ℤ, pos, ◌+ℤ◌, ◌-ℤ◌, +ℤ_parts, -ℤ_parts, eq_of_parts}
use usp.Os.{Code}

unfoldable pub increment : Code → Code → ℤ → Code × ℤ
increment (some e) unlocked count = (some e, count)
increment none unlocked count = (unlocked, count +ℤ pos 1)

unfoldable pub decrement : Code → Code → ℤ → Code × ℤ
decrement (some e) unlocked count = (some e, count)
decrement none unlocked count = (unlocked, count -ℤ pos 1)

-- The second part is what `*countp` is set to, if it is set.
unfoldable pub getcount : Code → Code → ℤ → Code × Option ℤ
getcount (some e) unlocked count = (some e, none)
getcount none unlocked count = (unlocked, some count)

-- A call by some thread, with what its mutex calls return.
pub data Call : Type 0 where
  inc dec get : Code → Code → Call

-- The calls in the order in which the threads get the mutex.
unfoldable pub run : List Call → ℤ → ℤ
unfolding increment decrement
run [] count = count
run (inc l u ∷ cs) count = run cs (increment l u count).1
run (dec l u ∷ cs) count = run cs (decrement l u count).1
run (get l u ∷ cs) count = run cs count

-- The increments, and the decrements, whose lock succeeded.
abbrev pub incs : List Call → ℕ
incs [] = 0
incs (inc none u ∷ cs) = suc (incs cs)
incs (inc (some e) u ∷ cs) = incs cs
incs (dec l u ∷ cs) = incs cs
incs (get l u ∷ cs) = incs cs

abbrev pub decs : List Call → ℕ
decs [] = 0
decs (dec none u ∷ cs) = suc (decs cs)
decs (dec (some e) u ∷ cs) = decs cs
decs (inc l u ∷ cs) = decs cs
decs (get l u ∷ cs) = decs cs

ruleset int_laws = (arith, +ℤ_parts, -ℤ_parts, eq_of_parts)

-- In whatever order the threads run, the count ends at its start, plus the increments that got the
-- mutex, minus the decrements that did; `getcount` and calls that fail to lock do not change it.
pub run_count :
    (cs : List Call) (count : ℤ) → run cs count ≡ count +ℤ pos (incs cs) -ℤ pos (decs cs)
unfolding run
run_count [] count = omega int_laws
run_count (inc none u ∷ cs) count = run_count cs (count +ℤ pos 1) ∙ omega int_laws
run_count (inc (some e) u ∷ cs) count = run_count cs count
run_count (dec none u ∷ cs) count = run_count cs (count -ℤ pos 1) ∙ omega int_laws
run_count (dec (some e) u ∷ cs) count = run_count cs count
run_count (get l u ∷ cs) count = run_count cs count
