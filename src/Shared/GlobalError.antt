-- ===== src/Shared/GlobalError.antt =====
-- chapter13/globalerror.c: the error flag under a mutex.
use usp.Base.{◌≡◌, refl, Option, none, some, List, [], ◌∷◌}
use usp.Os.{Errno, Code, or_code}

unfoldable pub geterror : Code → Code → Code → Code × Option Code
geterror (some e) unlocked globalerror = (some e, none)
geterror none unlocked globalerror = (unlocked, some globalerror)

abbrev pub keep_first : Code → Errno → Code
keep_first none error = some error
keep_first (some first) error = some first

-- The error to set comes first, then what the mutex calls return, then the global error.
unfoldable pub seterror : Code → Code → Code → Code → Code × Code
seterror none locked unlocked globalerror = (none, globalerror)
seterror (some error) (some terror) unlocked globalerror = (some terror, globalerror)
seterror (some error) none unlocked globalerror =
    (or_code unlocked (some error), keep_first globalerror error)

-- A call of `seterror`, with what its mutex calls return.
pub record Report : Type 0 where
  pub error : Code
  pub locked : Code
  pub unlocked : Code

unfoldable pub report_all : List Report → Code → Code
unfolding seterror
report_all [] globalerror = globalerror
report_all (r ∷ rs) globalerror = report_all rs (seterror r.error r.locked r.unlocked globalerror).1

-- The first error of a list of reports whose lock succeeded.
abbrev pub reported : Code → Code → Code → Code
reported none locked rest = rest
reported (some e) (some l) rest = rest
reported (some e) none rest = some e

abbrev pub first_error : List Report → Code
first_error [] = none
first_error (r ∷ rs) = reported r.error r.locked (first_error rs)

keeps_set : (rs : List Report) (e : Errno) → report_all rs (some e) ≡ some e
unfolding report_all
keeps_set [] e = refl
keeps_set (r ∷ rs) e = step r.error r.locked r.unlocked (keeps_set rs e)
  where
    step :
        (x l u : Code)
        → report_all rs (some e) ≡ some e
        → report_all rs (seterror x l u (some e)).1 ≡ some e
    step none l u ih = ih
    step (some x) (some l) u ih = ih
    step (some x) none u ih = ih

-- After any calls of `seterror` the global error is the first one that was reported while the mutex
-- could be locked, also if its unlock failed; 0 is no error.
pub report_all-first_error : (rs : List Report) → report_all rs none ≡ first_error rs
unfolding report_all
report_all-first_error [] = refl
report_all-first_error (r ∷ rs) = step r.error r.locked r.unlocked (report_all-first_error rs)
  where
    step :
        (x l u : Code)
        → report_all rs none ≡ first_error rs
        → report_all rs (seterror x l u none).1 ≡ reported x l (first_error rs)
    step none l u ih = ih
    step (some x) (some l) u ih = ih
    step (some x) none u ih = keeps_set rs x
