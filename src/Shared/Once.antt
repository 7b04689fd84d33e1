-- ===== src/Shared/Once.antt =====
-- Things done once: chapter13/testandsetonce.c, chapter13/printinitmutex.c and
-- chapter16/bufferinitmutex.c.
use usp.Base.{
  ℕ, suc, ◌≡◌, ◌⊎◌, refl, ap, Bool, true, false, Option, none, some, List, [], ◌∷◌, ◌++◌, inl, inr,
}
use usp.Os.{Code, or_code}

-- The code, what `*ovalue` is set to, if it is, and `done`.
unfoldable pub testandsetonce : Code → Code → Bool → Code × Option Bool × Bool
testandsetonce (some e) unlocked done = (some e, none, done)
testandsetonce none unlocked done = (unlocked, some done, true)

-- The values that a sequence of calls gets, in the order in which the threads get the mutex.
unfoldable pub test_all : List (Code × Code) → Bool → List (Option Bool)
unfolding testandsetonce
test_all [] done = []
test_all ((l, u) ∷ cs) done =
    let (code, value, done') = testandsetonce l u done in value ∷ test_all cs done'

-- The number of calls that got 0.
abbrev pub zeros : List (Option Bool) → ℕ
zeros [] = 0
zeros (some false ∷ vs) = suc (zeros vs)
zeros (some true ∷ vs) = zeros vs
zeros (none ∷ vs) = zeros vs

-- Once `done` is set no call gets 0.
zeros_done : (cs : List (Code × Code)) → zeros (test_all cs true) ≡ 0
unfolding test_all
zeros_done [] = refl
zeros_done ((some e, u) ∷ cs) = zeros_done cs
zeros_done ((none, u) ∷ cs) = zeros_done cs

abbrev pub any_lock : List (Code × Code) → ℕ
any_lock [] = 0
any_lock ((some e, u) ∷ cs) = any_lock cs
any_lock ((none, u) ∷ cs) = 1

-- Of any calls of `testandsetonce` exactly one gets 0, if any of them gets the mutex at all.
pub zeros-test_all : (cs : List (Code × Code)) → zeros (test_all cs false) ≡ any_lock cs
unfolding test_all
zeros-test_all [] = refl
zeros-test_all ((some e, u) ∷ cs) = zeros-test_all cs
zeros-test_all ((none, u) ∷ cs) = ap suc (zeros_done cs)

-- chapter13/printinitmutex.c: `*var`, `done`, and the values that were printed.
pub record Init (V : Type 0) : Type 0 where
  pub var : V
  pub done : Bool
  pub printed : List V

module _ {V : Type 0} where
  abbrev pub init_once : V → Init V → Init V
  init_once value s = elim s.done [
    | true ↦ s
    | false ↦ record { var = value; done = true; printed = s.printed ++ (value ∷ []) }
  ]

  unfoldable pub printinitmutex : Code → Code → V → Init V → Code × Init V
  printinitmutex (some e) unlocked value s = (some e, s)
  printinitmutex none unlocked value s = (unlocked, init_once value s)

  -- The calls, each with what its mutex calls return and its value.
  unfoldable pub print_all : List (Code × Code × V) → Init V → Init V
  unfolding printinitmutex
  print_all [] s = s
  print_all ((l, u, v) ∷ cs) s = print_all cs (printinitmutex l u v s).1

  -- The value of the first call that gets the mutex.
  abbrev pub first_value : List (Code × Code × V) → Option V
  first_value [] = none
  first_value ((some e, u, v) ∷ cs) = first_value cs
  first_value ((none, u, v) ∷ cs) = some v

  print_all_done :
      (cs : List (Code × Code × V)) (v : V) (p : List V)
      → print_all cs (record { var = v; done = true; printed = p })
        ≡ record { var = v; done = true; printed = p }
  unfolding print_all
  print_all_done [] v p = refl
  print_all_done ((some e, u, x) ∷ cs) v p = print_all_done cs v p
  print_all_done ((none, u, x) ∷ cs) v p = print_all_done cs v p

  -- The state after the variable got its first value, if it got one.
  abbrev pub initialised : V → Option V → Init V
  initialised v none = record { var = v; done = false; printed = [] }
  initialised v (some x) = record { var = x; done = true; printed = x ∷ [] }

  -- After any calls of `printinitmutex` the variable has the value of the first call that got the
  -- mutex, and only that value was printed, once; with no such call nothing has changed.
  pub print_all-first_value :
      (cs : List (Code × Code × V)) (v : V)
      → print_all cs (record { var = v; done = false; printed = [] })
        ≡ initialised v (first_value cs)
  unfolding print_all
  print_all-first_value [] v = refl
  print_all-first_value ((some e, u, x) ∷ cs) v = print_all-first_value cs v
  print_all-first_value ((none, u, x) ∷ cs) v = print_all_done cs x (x ∷ [])

-- chapter16/bufferinitmutex.c: `seminit`, and the results that `bufferinit` gave so far.
pub record SemInit : Type 0 where
  pub seminit : Bool
  pub results : List Code

-- The test and the call of `bufferinit`, which returns `result`: `errorinit` and the new state.
abbrev pub try_init : Code → SemInit → Code × SemInit
try_init result s = elim s.seminit [
  | true ↦ (none, s)
  | false ↦ elim result [
    | none ↦ (none, record { seminit = true; results = none ∷ s.results })
    | some e ↦ (some e, record { seminit = false; results = some e ∷ s.results })
  ]
]

unfoldable pub bufferinitmutex : Code → Code → Code → SemInit → Code × SemInit
bufferinitmutex (some e) unlocked result s = (some e, s)
bufferinitmutex none unlocked result s =
    let (errorinit, s') = try_init result s in (or_code errorinit unlocked, s')

unfoldable pub init_all : List (Code × Code × Code) → SemInit → SemInit
unfolding bufferinitmutex
init_all [] s = s
init_all ((l, u, r) ∷ cs) s = init_all cs (bufferinitmutex l u r s).1

-- The successful runs of `bufferinit`.
abbrev pub successes : List Code → ℕ
successes [] = 0
successes (none ∷ rs) = suc (successes rs)
successes (some e ∷ rs) = successes rs

init_all_done :
    (cs : List (Code × Code × Code)) (rs : List Code)
    → init_all cs (record { seminit = true; results = rs })
      ≡ record { seminit = true; results = rs }
unfolding init_all
init_all_done [] rs = refl
init_all_done ((some e, u, r) ∷ cs) rs = init_all_done cs rs
init_all_done ((none, u, r) ∷ cs) rs = init_all_done cs rs

-- `seminit` says whether `bufferinit` has succeeded, which it did at most once.
abbrev pub AtMostOnce : SemInit → Type 0
AtMostOnce s =
    ((s.seminit ≡ true) × (successes s.results ≡ 1))
    ⊎ ((s.seminit ≡ false) × (successes s.results ≡ 0))

-- Where no run of `bufferinit` has succeeded and `seminit` is 0, then after any calls of
-- `bufferinitmutex` either one run has succeeded and `seminit` is 1, or none has and it is 0.
pub init_all-AtMostOnce :
    (cs : List (Code × Code × Code)) (rs : List Code)
    → successes rs ≡ 0
    → AtMostOnce (init_all cs (record { seminit = false; results = rs }))
unfolding init_all
init_all-AtMostOnce [] rs z = inr (refl, z)
init_all-AtMostOnce ((some e, u, r) ∷ cs) rs z = init_all-AtMostOnce cs rs z
init_all-AtMostOnce ((none, u, none) ∷ cs) rs z =
    rw (init_all_done cs (none ∷ rs)) (inl (refl, ap suc z))
init_all-AtMostOnce ((none, u, some e) ∷ cs) rs z = init_all-AtMostOnce cs (some e ∷ rs) z
