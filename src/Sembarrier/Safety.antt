-- ===== src/Sembarrier/Safety.antt =====
-- What the threads reach at the barrier on semaphores of chapter14/sbarrierold.c.
use usp.Base.{
  ℕ, zero, suc, ◌≤◌, ◌<◌, ◌⊎◌, inl, inr, refl, sym, subst, Bool-cases, length, ltb, ltb→lt, total,
  total-get_elem?, total-replicate, replicate, arith,
}
use usp.Sembarrier.{
  initbarrier, init_size, set_size, keep_lock, get_block, get_bwait, Place, Barrier, At, go,
  next_place, Step, lock, no_lock, unlock, no_unlock, wait, no_wait, post, no_post, again,
  getting_block, getting_bwait, setting, fresh, Reached, opened, after,
}
use usp.Sembarrier.Tokens.{
  hold_share, past, Tokens, go-Tokens, count_in-Tokens, get_block-Tokens, get_bwait-Tokens,
  set_size-Tokens, keep_lock-Tokens, set_size-block,
}

unlock-Tokens :
    {n : ℕ} {b : Barrier} (i k : ℕ)
    → Tokens n b
    → At b i (Place.holding k)
    → Tokens n (record (go b i (next_place k b.barriersize)) { block = suc b.block })
unfolding next_place
unlock-Tokens {n} {b} i k t at = elim (Bool-cases (ltb k b.barriersize)) [
  | inl less ↦ rw less (
      go-Tokens i (Place.holding k) Place.waiting (suc b.block) b.bwait t at (omega arith) refl
        (λ h. absurd (omega arith))
        (λ h. absurd (omega (arith, ltb→lt _ _ less, t.holders i k at, t.size))))
  | inr more ↦ rw more (
      go-Tokens i (Place.holding k) Place.posting (suc b.block) b.bwait t at (omega arith) refl
        (λ h. ground (arith, more, t.holders i k at, t.size)) (λ h. omega arith))
]

Step-Tokens : {n : ℕ} {b c : Barrier} → 0 < n → Tokens n b → Step b c → Tokens n c
Step-Tokens {n} u t (lock i m at free eq) =
    subst (Tokens n) (sym eq) (count_in-Tokens i m t at free)
Step-Tokens {n} {b} u t (no_lock i e at eq) = subst (Tokens n) (sym eq) (
    go-Tokens i Place.outside (Place.failed e) b.block b.bwait t at (omega arith) refl
      (λ h. absurd (omega arith)) (λ h. omega arith))
Step-Tokens {n} u t (unlock i k at there eq) = subst (Tokens n) (sym eq) (unlock-Tokens i k t at)
Step-Tokens {n} {b} u t (no_unlock i k e at eq) = subst (Tokens n) (sym eq) (
    go-Tokens i (Place.holding k) (Place.failed e) b.block b.bwait t at (omega arith) refl
      (λ h. absurd (omega arith)) (λ h. omega arith))
Step-Tokens {n} {b} u t (wait i m at free eq) = subst (Tokens n) (sym eq) (
    go-Tokens i Place.waiting Place.posting b.block m t at (omega arith) refl
      (λ h. absurd (omega arith)) (λ h. omega arith))
Step-Tokens {n} {b} u t (no_wait i e at eq) = subst (Tokens n) (sym eq) (
    go-Tokens i Place.waiting (Place.failed e) b.block b.bwait t at (omega arith) refl
      (λ h. absurd (omega arith)) (λ h. omega arith))
Step-Tokens {n} {b} u t (post i at there eq) = subst (Tokens n) (sym eq) (
    go-Tokens i Place.posting Place.passed b.block (suc b.bwait) t at (omega arith) refl
      (λ h. t.full (omega (arith, total-get_elem? past b.threads i Place.posting at)))
      (λ h. omega arith))
Step-Tokens {n} {b} u t (no_post i e at eq) = subst (Tokens n) (sym eq) (
    go-Tokens i Place.posting (Place.failed e) b.block b.bwait t at (omega arith) refl
      (λ h. absurd (omega arith)) (λ h. omega arith))
Step-Tokens {n} {b} u t (again i at eq) = subst (Tokens n) (sym eq) (
    go-Tokens i Place.passed Place.outside b.block b.bwait t at (omega arith) refl
      (λ h. absurd (omega arith)) (λ h. omega arith))
Step-Tokens {n} u t (getting_block got there eq) =
    subst (Tokens n) (sym eq) (get_block-Tokens got t)
Step-Tokens {n} u t (getting_bwait got closed unlinked eq) =
    subst (Tokens n) (sym eq) (get_bwait-Tokens got closed unlinked t)
Step-Tokens {n} {b} u t (setting posted m k free eq) = subst (Tokens n) (sym eq) (
    keep_lock-Tokens posted k (omega (arith, set_size-block posted m b))
      (set_size-Tokens posted m u t))

fresh-Tokens : (threads n : ℕ) → 0 < n → Tokens n (fresh threads n)
unfolding initbarrier init_size set_size keep_lock get_block get_bwait
fresh-Tokens threads zero u = absurd (omega arith)
fresh-Tokens threads (suc n) u = record {
  size = refl;
  counted = refl;
  exclusive = omega (arith, total-replicate hold_share threads Place.outside refl);
  holders = λ i k at. absurd (
      omega (
        arith,
        total-get_elem? hold_share (replicate threads Place.outside) i (Place.holding k) at,
        total-replicate hold_share threads Place.outside refl,
      ));
  full = λ h. absurd (omega (arith, total-replicate past threads Place.outside refl));
  token = λ h. absurd (omega arith);
}

pub Reached-Tokens : {threads n : ℕ} {b : Barrier} → 0 < n → Reached threads n b → Tokens n b
Reached-Tokens {threads} {n} u opened = fresh-Tokens threads n u
Reached-Tokens u (after r s) = Step-Tokens u (Reached-Tokens u r) s

-- In every state that threads reach at a barrier of positive size `n`, whose semaphores were created by
-- the first `initbarrier`, with any calls of `waitbarrier` and any later calls of `initbarrier` failing:
-- where a thread is past the wait, at least `n` arrivals were counted. Once the error path of
-- `initbarrier` has removed the name of the lock, `initbarrier` is not called again.
pub past-arrivals :
    {threads n : ℕ} {b : Barrier}
    → 0 < n
    → Reached threads n b
    → (i : ℕ) → (At b i Place.posting ⊎ At b i Place.passed)
    → n ≤ length b.arrivals
past-arrivals {b = b} u r i place =
    let t = Reached-Tokens u r in
    let share : 0 < total past b.threads = elim place [
      | inl at ↦ omega (arith, total-get_elem? past b.threads i Place.posting at)
      | inr at ↦ omega (arith, total-get_elem? past b.threads i Place.passed at)
    ] in
    omega (arith, t.full (omega arith), t.counted)
