-- ===== src/Restart/Time.antt =====
-- The time functions of appendixB/restart.c: `add2currenttime`, `gettimeout`, `waitfdtimed` and
-- `readtimed`. Times are integers, and no sum of them overflows a `time_t`.
use usp.Base.{
  ℕ, zero, suc, Bool, true, false, ◌||◌, ◌&&◌, not, Option, none, some, List, [], ◌∷◌,
  if◌then◌else◌,
}
use usp.Base.Int.{ℤ, pos, ◌+ℤ◌, ◌-ℤ◌, ltb_ℤ}
use usp.Os.{Errno, is_eintr, Reply, ok, fail, Os, Timeval}
use usp.Restart.{r_read}

abbrev pub million : ℤ
million = pos 1000000

-- One correction of `tv_usec` upwards, as in `add2currenttime` and `gettimeout`.
unfoldable pub carry : Timeval → Timeval
unfolding ◌+ℤ◌ ◌-ℤ◌
carry t =
    if not (ltb_ℤ t.tv_usec million)
    then record { tv_sec = t.tv_sec +ℤ pos 1; tv_usec = t.tv_usec -ℤ million }
    else t

unfoldable pub borrow : Timeval → Timeval
unfolding ◌+ℤ◌ ◌-ℤ◌
borrow t =
    if ltb_ℤ t.tv_usec (pos 0)
    then record { tv_sec = t.tv_sec -ℤ pos 1; tv_usec = t.tv_usec +ℤ million }
    else t

-- What is left until `end` at the time `now`, corrected.
unfoldable pub remaining : Timeval → Timeval → Timeval
unfolding ◌+ℤ◌ ◌-ℤ◌ carry borrow
remaining end now =
    borrow
      (carry (record { tv_sec = end.tv_sec -ℤ now.tv_sec; tv_usec = end.tv_usec -ℤ now.tv_usec }))

abbrev pub is_zero : ℤ → Bool
is_zero a = not (ltb_ℤ a (pos 0)) && not (ltb_ℤ (pos 0) a)

-- The time is over: the remaining time is negative or 0.
unfoldable pub expired : Timeval → Bool
expired t = ltb_ℤ t.tv_sec (pos 0) || (is_zero t.tv_sec && is_zero t.tv_usec)

module _ (os : Os) where
  open os use {World, fd_setsize, gettimeofday, select}

  unfoldable pub gettimeout : Timeval → World → Reply World Timeval
  unfolding remaining expired
  gettimeout end w =
      let (now, w') = gettimeofday w in
      let t = remaining end now in if expired t then fail Errno.etime w' else ok t w'

  -- `seconds` is a `double`: `whole` is `(int)seconds`, and `micros` the rest in microseconds,
  -- rounded.
  unfoldable pub add2currenttime {κ} :
      {Double : Type κ} → (Double → ℤ) → (Double → ℤ) → Double → World → Timeval × World
  unfolding ◌+ℤ◌ ◌-ℤ◌ carry
  add2currenttime whole micros seconds w =
      let (now, w') = gettimeofday w in
      (
        carry (record {
          tv_sec = now.tv_sec +ℤ whole seconds;
          tv_usec = now.tv_usec +ℤ micros seconds;
        }),
        w',
      )

  -- The loop of `waitfdtimed`, with the time-out of the next `select`.
  unfoldable pub waitfdtimed_loop :
      ℕ → ℤ → Timeval → Timeval → World → Option (Reply World (Unit {0}))
  unfolding is_eintr gettimeout
  waitfdtimed_loop zero fd end timeout w = none
  waitfdtimed_loop (suc fuel) fd end timeout w = elim (select (fd ∷ []) (some timeout) w) [
    | ok ready w' ↦ elim ready [ [] ↦ some (fail Errno.etime w') | d ∷ ds ↦ some (ok tt w') ]
    | fail e w' ↦ elim (is_eintr e) [
      | false ↦ some (fail e w')
      | true ↦ elim (gettimeout end w') [
        | ok timeout' w'' ↦ waitfdtimed_loop fuel fd end timeout' w''
        | fail e' w'' ↦ some (fail e' w'')
      ]
    ]
  ]

  unfoldable pub waitfdtimed : ℕ → ℤ → Timeval → World → Option (Reply World (Unit {0}))
  unfolding waitfdtimed_loop
  waitfdtimed fuel fd end w =
      if ltb_ℤ fd (pos 0) || not (ltb_ℤ fd (pos fd_setsize))
      then some (fail Errno.einval w)
      else elim (gettimeout end w) [
        | ok timeout w' ↦ waitfdtimed_loop fuel fd end timeout w'
        | fail e w' ↦ some (fail e w')
      ]

  -- `seconds` is split by `whole` and `micros`, as in `add2currenttime`.
  unfoldable pub readtimed {κ} :
      {Double : Type κ}
      → (Double → ℤ)
      → (Double → ℤ)
      → ℕ
      → ℤ
      → ℕ
      → Double
      → World
      → Option (Reply World (List ℕ))
  unfolding add2currenttime waitfdtimed r_read
  readtimed whole micros fuel fd nbyte seconds w =
      let (timedone, w') = add2currenttime whole micros seconds w in
      elim (waitfdtimed fuel fd timedone w') [
        | none ↦ none
        | some (fail e w'') ↦ some (fail e w'')
        | some (ok _ w'') ↦ r_read os fuel fd nbyte w''
      ]
