-- ===== src/Shared/Tests.antt =====
-- The theorems on the shared objects at concrete sequences of calls.
use usp.Base.{
  arith, inr, ◌≢◌, ℕ, ◌≡◌, ℕ, ◌≤◌, ◌<◌, ◌≡◌, refl, false, none, some, List, [], ◌∷◌, length,
}
use usp.Os.{Errno, Code}
use usp.Shared.Counter.{Call, inc, dec, get}
use usp.Shared.GlobalError.{Report, report_all}
use usp.Shared.SharedSum.{Sum, Locks}
use usp.Shared.Once.{init_all, AtMostOnce, init_all-AtMostOnce}
use usp.Shared.Barrier.{
  Barrier, woken, passed, failed, fresh, Reach, start, later, initialise, arriving, arrive,
  initbarrier, continue, wake_all, passed-arrivals, woken_when_full,
}

abbrev calls : List Call
calls =
    inc none none
    ∷ dec (some Errno.einval) none
    ∷ get none none
    ∷ dec none none
    ∷ inc none none
    ∷ []

abbrev reports : List Report
reports =
    record { error = none; locked = none; unlocked = none }
    ∷ record { error = some Errno.eintr; locked = some Errno.einval; unlocked = none }
    ∷ record { error = some Errno.etime; locked = none; unlocked = none }
    ∷ record { error = some Errno.eintr; locked = none; unlocked = none }
    ∷ []

first_is_etime : report_all reports none ≡ some Errno.etime
unfolding report_all
first_is_etime = refl

abbrev tries : List (Code × Code)
tries = (some Errno.einval, none) ∷ (none, none) ∷ (none, none) ∷ []

abbrev prints : List (Code × Code × ℕ)
prints = (some Errno.einval, none, 4) ∷ (none, none, 5) ∷ (none, none, 6) ∷ []

abbrev inits : List (Code × Code × Code)
inits = (none, none, some Errno.einval) ∷ (none, none, none) ∷ (none, none, none) ∷ []

init_all-AtMostOnce_example : AtMostOnce (init_all inits (record { seminit = false; results = [] }))
init_all-AtMostOnce_example = init_all-AtMostOnce inits [] refl

-- Two threads meet at a barrier for two.
abbrev two : Barrier
two = (initbarrier none none 2 fresh).1

abbrev first_waits : Barrier
first_waits = arrive none none none 7 two

abbrev both : Barrier
both = arrive none none none 8 first_waits

both-Reach : Reach both
unfolding arrive continue wake_all initbarrier
both-Reach =
    later (later (later start (initialise none none 2 refl)) (arriving none none none 7 refl refl))
      (arriving none none none 8 refl refl)

none_failed : (j : ℕ) (e : Errno) → both.place j ≢ failed e
unfolding arrive continue wake_all initbarrier
none_failed j e = λ bad. ground arith

passed-arrivals_example : (0 < both.limit) × (both.limit ≤ length both.arrivals)
unfolding arrive continue wake_all initbarrier
passed-arrivals_example = passed-arrivals both-Reach 8 refl

woken_when_full_example : (both.place 7 ≡ woken) × ((continue none none 7 both).place 7 ≡ passed)
unfolding arrive continue wake_all initbarrier
woken_when_full_example = woken_when_full both-Reach none_failed (omega arith) 7 (inr refl)

abbrev fine : Locks
fine = record { locked = none; unlocked = none; error_locked = none; error_unlocked = none }

-- The second of three calls does not get the mutex.
abbrev adds : List (Locks × ℕ)
adds =
    (fine, 3)
    ∷ (record fine { locked = some Errno.einval }, 4)
    ∷ (record fine { unlocked = some Errno.einval }, 5)
    ∷ []

abbrev zero_sum : Sum ℕ
zero_sum = record { sum = 0; count = 0; globalerror = none }
