-- ===== src/Sembarrier/Tests.antt =====
-- Two threads at a barrier of size 2: thread 0 waits, and thread 1 is the last to arrive.
use usp.Base.{true, ◌≡◌, ℕ, zero, suc, ◌≤◌, inl, refl, length, arith}
use usp.Os.{Errno}
use usp.Sembarrier.{
  initbarrier, init_size, get_block, get_bwait, set_size, keep_lock, Place, Barrier, At, go,
  count_in, lock, unlock, fresh, Reached, opened, after,
}
use usp.Sembarrier.Safety.{past-arrivals}
use usp.Sembarrier.Release.{Released, waiting-Released}

abbrev b1 : Barrier
b1 = record (count_in (fresh 2 2) 0) { block = 0 }

abbrev b2 : Barrier
b2 = record (go b1 0 Place.waiting) { block = 1 }

abbrev b3 : Barrier
b3 = record (count_in b2 1) { block = 0 }

abbrev b4 : Barrier
b4 = record (go b3 1 Place.posting) { block = 1 }

run4 : Reached 2 2 b4
unfolding count_in usp.Sembarrier.next_place initbarrier init_size get_block get_bwait set_size
    keep_lock
run4 =
    after
      (after (after (after opened (lock 0 0 refl refl refl)) (unlock 0 1 refl refl refl))
        (lock 1 0 refl refl refl))
      (unlock 1 2 refl refl refl)

past-arrivals_example : 2 ≤ length b4.arrivals
unfolding count_in initbarrier
past-arrivals_example = past-arrivals (omega arith) run4 1 (inl refl)

no_failure : (i : ℕ) (e : Errno) → ¬ At b4 i (Place.failed e)
unfolding count_in initbarrier init_size get_block get_bwait set_size keep_lock
no_failure zero e = λ h. ground arith
no_failure (suc zero) e = λ h. ground arith
no_failure (suc (suc i)) e = λ h. ground arith

usable : b4.block_open ≡ true
unfolding count_in initbarrier init_size get_block get_bwait set_size keep_lock
usable = refl

usable' : b4.bwait_open ≡ true
unfolding count_in initbarrier init_size get_block get_bwait set_size keep_lock
usable' = refl

waiting-Released_example : Released b4 0
unfolding count_in initbarrier
waiting-Released_example =
    waiting-Released (omega arith) run4 no_failure usable usable' (omega arith) 0 refl
