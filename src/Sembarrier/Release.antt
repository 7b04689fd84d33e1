-- ===== src/Sembarrier/Release.antt =====
-- The threads that wait at the barrier on semaphores of chapter14/sbarrierold.c are let through.
use usp.Base.{
  true, ℕ, zero, suc, ◌≤◌, ◌<◌, ◌≡◌, ◌≢◌, ◌∙◌, refl, ap, sym, some, List, [], ◌∷◌, length, total,
  total-positive, get_elem?, get_elem?-set_ne, set, arith,
}
use usp.Os.{Errno}
use usp.Sembarrier.{Place, Barrier, At, go, next_place, Step, unlock, wait, post, Reached}
use usp.Sembarrier.Tokens.{owing, lost, Tokens}
use usp.Sembarrier.Safety.{Reached-Tokens}

pub data Steps : Barrier → Barrier → Type 0 where
  here : {b : Barrier} → Steps b b
  then : {b c d : Barrier} → Step b c → Steps c d → Steps b d

-- Steps lead to a state in which thread `i` is past the wait.
abbrev pub Released : Barrier → ℕ → Type 0
Released b i = (c : Barrier) × Steps b c × At c i Place.posting

set_at :
    (l : List Place) (i : ℕ) (p q : Place)
    → get_elem? l i ≡ some p
    → get_elem? (set l i q) i ≡ some q
set_at [] i p q e = absurd (ground arith)
set_at (x ∷ l) zero p q e = refl
set_at (x ∷ l) (suc i) p q e = set_at l i p q e

-- A step of a thread at `j` that stands elsewhere does not move the one at `i`.
set_other :
    (l : List Place) (i j : ℕ) (p q r : Place)
    → get_elem? l i ≡ some p
    → get_elem? l j ≡ some q
    → p ≢ q
    → get_elem? (set l j r) i ≡ some p
set_other l i j p q r at at' differ =
    get_elem?-set_ne l r
      (λ same. differ (some_injective p q (sym at ∙ ap (get_elem? l) (sym same) ∙ at')))
    ∙ at
  where
    some_injective : (x y : Place) → some x ≡ some y → x ≡ y
    some_injective x y e = ground arith

Step-Released : {b c : Barrier} (i : ℕ) → Step b c → Released c i → Released b i
Step-Released i s (d, steps, at) = (d, then s steps, at)

token-Released : {b : Barrier} (i m : ℕ) → At b i Place.waiting → b.bwait ≡ suc m → Released b i
token-Released {b} i m at free = (
  record (go b i Place.posting) { bwait = m },
  then (wait i m at free refl) here,
  set_at b.threads i Place.waiting Place.posting at,
)

post-Released :
    {b : Barrier} (i j : ℕ)
    → b.bwait_open ≡ true
    → At b i Place.waiting
    → At b j Place.posting
    → Released b i
post-Released {b} i j usable at at' = Step-Released i (post j at' usable refl) (
    token-Released i b.bwait
      (set_other b.threads i j Place.waiting Place.posting Place.passed at at' (λ e. ground arith))
      refl)

unlock-Released :
    {n : ℕ} {b : Barrier} (i j k : ℕ)
    → Tokens n b
    → n ≤ b.barriercount
    → b.block_open ≡ true
    → b.bwait_open ≡ true
    → At b i Place.waiting
    → At b j (Place.holding k)
    → Released b i
unfolding next_place
unlock-Released {n} {b} i j k t all lock_usable usable at at' =
    let last : next_place k b.barriersize ≡ Place.posting =
      ground (arith, t.holders j k at', t.size) in
    Step-Released i (unlock j k at' lock_usable refl) (
      post-Released i j usable
        (set_other b.threads i j Place.waiting (Place.holding k) (next_place k b.barriersize) at at'
          (λ e. ground arith))
        (set_at b.threads j (Place.holding k) (next_place k b.barriersize) at' ∙ ap some last))

-- Where no thread has failed, none is lost.
not_lost :
    (l : List Place)
    → ((i : ℕ) (e : Errno) → get_elem? l i ≢ some (Place.failed e))
    → total lost l ≡ 0
not_lost l none_failed = split (total lost l) refl
  where
    clash : (i : ℕ) (p : Place) → get_elem? l i ≡ some p → 0 < lost p → ⊥
    clash i (Place.failed e) at less = none_failed i e at
    clash i Place.outside at less = omega arith
    clash i Place.waiting at less = omega arith
    clash i Place.posting at less = omega arith
    clash i Place.passed at less = omega arith
    clash i (Place.holding k) at less = omega arith

    split : (n : ℕ) → total lost l ≡ n → total lost l ≡ 0
    split zero e = e
    split (suc n) e =
        let (i, p, at, less) = total-positive lost l (omega arith) in absurd (clash i p at less)

-- In every state that threads reach at a barrier of positive size `n` in which at least `n` arrivals
-- were counted, no thread has failed in `waitbarrier` and no `initbarrier` has left a pointer to one
-- of the semaphores unusable: for each thread that waits, some steps lead to a state in which it is
-- past the wait, so no wake-up is lost. The semaphores were created by the first `initbarrier`.
pub waiting-Released :
    {threads n : ℕ} {b : Barrier}
    → 0 < n
    → Reached threads n b
    → ((i : ℕ) (e : Errno) → ¬ At b i (Place.failed e))
    → b.block_open ≡ true
    → b.bwait_open ≡ true
    → n ≤ length b.arrivals
    → (i : ℕ) → At b i Place.waiting
    → Released b i
waiting-Released {threads} {n} {b} u r none_failed lock_usable usable all i at = split b.bwait refl
  where
    t : Tokens n b
    t = Reached-Tokens u r

    full : n ≤ b.barriercount
    full = omega (arith, t.counted)

    by_owing : (j : ℕ) (p : Place) → At b j p → 0 < owing p → Released b i
    by_owing j (Place.holding k) at' less = unlock-Released i j k t full lock_usable usable at at'
    by_owing j Place.posting at' less = post-Released i j usable at at'
    by_owing j Place.outside at' less = absurd (omega arith)
    by_owing j Place.waiting at' less = absurd (omega arith)
    by_owing j Place.passed at' less = absurd (omega arith)
    by_owing j (Place.failed e) at' less = absurd (omega arith)

    split : (m : ℕ) → b.bwait ≡ m → Released b i
    split (suc m) e = token-Released i m at e
    split zero e =
        let (j, p, at', less) =
          total-positive owing b.threads
            (omega (arith, t.token full, not_lost b.threads none_failed)) in
        by_owing j p at' less
