-- ===== src/Shared/SharedSum.antt =====
-- chapter13/sharedsum.c: a sum under a mutex, which reports its errors with `seterror`.
use usp.Base.{ℕ, ◌+◌, ◌≡◌, refl, ◌∙◌, Option, none, some, List, [], ◌∷◌, length, arith}
use usp.Os.{Code}
use usp.Shared.GlobalError.{seterror}

-- `sum`, `count` and the global error of chapter13/sharedsum.c; `plus` is the sum of doubles.
pub record Sum (D : Type 0) : Type 0 where
  pub sum : D
  pub count : ℕ
  pub globalerror : Code

-- What the two mutexes return to a call: that of the sum, then that of the global error.
pub record Locks : Type 0 where
  pub locked : Code
  pub unlocked : Code
  pub error_locked : Code
  pub error_unlocked : Code

abbrev pub accept : {D : Type 0} → Code → D → List D → List D
accept none x xs = x ∷ xs
accept (some e) x xs = xs

module _ {D : Type 0} (plus : D → D → D) where
  -- `return seterror(error)`
  unfoldable pub report : Code → Locks → Sum D → Code × Sum D
  unfolding seterror
  report error ls s =
      let (code, g) = seterror error ls.error_locked ls.error_unlocked s.globalerror in
      (code, record s { globalerror = g })

  unfoldable pub add_when : Code → Locks → D → Sum D → Code × Sum D
  unfolding report
  add_when (some e) ls x s = report (some e) ls s
  add_when none ls x s =
      report ls.unlocked ls (record s { sum = plus s.sum x; count = s.count + 1 })

  unfoldable pub add : Locks → D → Sum D → Code × Sum D
  unfolding add_when
  add ls x s = add_when ls.locked ls x s

  unfoldable pub getcountandsum_when : Code → Locks → Sum D → Code × Option (ℕ × D) × Sum D
  unfolding report
  getcountandsum_when (some e) ls s = let (code, s') = report (some e) ls s in (code, none, s')
  getcountandsum_when none ls s =
      let (code, s') = report ls.unlocked ls s in (code, some (s.count, s.sum), s')

  unfoldable pub getcountandsum : Locks → Sum D → Code × Option (ℕ × D) × Sum D
  unfolding getcountandsum_when
  getcountandsum ls s = getcountandsum_when ls.locked ls s

  unfoldable pub getsum_when : Code → Locks → Sum D → Code × Option D × Sum D
  unfolding report
  getsum_when (some e) ls s = let (code, s') = report (some e) ls s in (code, none, s')
  getsum_when none ls s = let (code, s') = report ls.unlocked ls s in (code, some s.sum, s')

  unfoldable pub getsum : Locks → Sum D → Code × Option D × Sum D
  unfolding getsum_when
  getsum ls s = getsum_when ls.locked ls s

  -- Calls of `add`, in the order in which the threads get the mutex.
  unfoldable pub add_all : List (Locks × D) → Sum D → Sum D
  unfolding add
  add_all [] s = s
  add_all ((ls, x) ∷ cs) s = add_all cs (add ls x s).1

  -- The numbers whose call got the mutex, and their sum from `d` on.
  abbrev pub accepted : List (Locks × D) → List D
  accepted [] = []
  accepted ((ls, x) ∷ cs) = accept ls.locked x (accepted cs)

  abbrev pub total : D → List D → D
  total d [] = d
  total d (x ∷ xs) = total (plus d x) xs

  -- What one call adds.
  add_lem :
      (ls : Locks) (x : D) (s : Sum D) (xs : List D)
      → (total (add ls x s).1.sum xs ≡ total s.sum (accept ls.locked x xs))
        × ((add ls x s).1.count + length xs ≡ s.count + length (accept ls.locked x xs))
  unfolding add
  add_lem ls x s xs = step ls.locked
    where
      step :
          (l : Code)
          → (total (add_when l ls x s).1.sum xs ≡ total s.sum (accept l x xs))
            × ((add_when l ls x s).1.count + length xs ≡ s.count + length (accept l x xs))
      step none = (refl, omega arith)
      step (some e) = (refl, refl)

  -- After any calls of `add` the sum is the one before, with the numbers added, in their order, whose
  -- call got the mutex, and `count` has grown by how many those are, whatever errors were reported.
  pub add_all_lem :
      (cs : List (Locks × D)) (s : Sum D)
      → ((add_all cs s).sum ≡ total s.sum (accepted cs))
        × ((add_all cs s).count ≡ s.count + length (accepted cs))
  unfolding add_all
  add_all_lem [] s = (refl, omega arith)
  add_all_lem ((ls, x) ∷ cs) s =
      let (a, b) = add_all_lem cs (add ls x s).1 in
      let (c, d) = add_lem ls x s (accepted cs) in (a ∙ c, b ∙ d)
