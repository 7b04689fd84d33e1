-- ===== src/Restart/Timing.antt =====
-- The arithmetic of `struct timeval` in appendixB/restart.c, in microseconds.
use usp.Base.{◌+◌, ◌*◌, ◌≡◌, ◌∙◌, refl, ap, true, false, Bool-cases, inl, inr, not, arith, ◌↔◌}
use usp.Base.Int.{
  ℤ, pos, pos_part, neg_part, ◌+ℤ◌, ◌-ℤ◌, ◌*ℤ◌, ◌≤ℤ◌, ltb_ℤ, +ℤ_parts, -ℤ_parts, eq_of_parts,
}
use usp.Os.{Errno, Reply, ok, fail, Os, Timeval}
use usp.Restart.Time.{million, carry, borrow, remaining, expired, gettimeout, add2currenttime}

-- A time in microseconds.
abbrev pub micros : Timeval → ℤ
micros t = t.tv_sec *ℤ million +ℤ t.tv_usec

-- The microseconds are below a second, as those that `gettimeofday` gives.
pub record IsNormal (t : Timeval) : Type 0 where
  pub low : pos 0 ≤ℤ t.tv_usec
  pub high : t.tv_usec +ℤ pos 1 ≤ℤ million

million_parts :
    (a : ℤ)
    → pos_part (a *ℤ million) + neg_part a * 1000000
      ≡ neg_part (a *ℤ million) + pos_part a * 1000000
unfolding ◌*ℤ◌
million_parts a = ground arith

ruleset time_laws = (arith, +ℤ_parts, -ℤ_parts, eq_of_parts, million_parts)

carry-micros : (t : Timeval) → micros (carry t) ≡ micros t
unfolding carry
carry-micros t = elim (Bool-cases (not (ltb_ℤ t.tv_usec million))) [
  | inl big ↦ rw (big, carry) (omega time_laws)
  | inr small ↦ rw (small, carry) refl
]

borrow-micros : (t : Timeval) → micros (borrow t) ≡ micros t
unfolding borrow
borrow-micros t = elim (Bool-cases (ltb_ℤ t.tv_usec (pos 0))) [
  | inl low ↦ rw (low, borrow) (omega time_laws)
  | inr fine ↦ rw (fine, borrow) refl
]

remaining-micros : (end now : Timeval) → micros (remaining end now) ≡ micros end -ℤ micros now
unfolding remaining
remaining-micros end now = borrow-micros (carry diff) ∙ carry-micros diff ∙ omega time_laws
  where
    diff : Timeval
    diff = record { tv_sec = end.tv_sec -ℤ now.tv_sec; tv_usec = end.tv_usec -ℤ now.tv_usec }

small-lt : (a : ℤ) → not (ltb_ℤ a million) ≡ false → a +ℤ pos 1 ≤ℤ million
unfolding ◌+ℤ◌
small-lt a h = ground arith

big-ge : (a : ℤ) → not (ltb_ℤ a million) ≡ true → million ≤ℤ a
big-ge a h = ground arith

neg-lt : (a : ℤ) → ltb_ℤ a (pos 0) ≡ true → a +ℤ pos 1 ≤ℤ pos 0
unfolding ◌+ℤ◌
neg-lt a h = ground arith

carry-usec :
    (t : Timeval) → t.tv_usec +ℤ pos 1 ≤ℤ million +ℤ million → (carry t).tv_usec +ℤ pos 1 ≤ℤ million
unfolding carry
carry-usec t h = elim (Bool-cases (not (ltb_ℤ t.tv_usec million))) [
  | inl big ↦ rw (big, carry) (omega time_laws)
  | inr small ↦ rw (small, carry) (let k = small-lt t.tv_usec small in omega time_laws)
]

carry_low : (t : Timeval) → pos 0 ≤ℤ t.tv_usec → pos 0 ≤ℤ (carry t).tv_usec
unfolding carry
carry_low t h = elim (Bool-cases (not (ltb_ℤ t.tv_usec million))) [
  | inl big ↦ rw (big, carry) (let k = big-ge t.tv_usec big in omega time_laws)
  | inr small ↦ rw (small, carry) h
]

carry_above : (t : Timeval) → pos 0 ≤ℤ t.tv_usec +ℤ million → pos 0 ≤ℤ (carry t).tv_usec +ℤ million
unfolding carry
carry_above t h = elim (Bool-cases (not (ltb_ℤ t.tv_usec million))) [
  | inl big ↦ rw (big, carry) (let k = big-ge t.tv_usec big in omega time_laws)
  | inr small ↦ rw (small, carry) h
]

borrow-IsNormal :
    (t : Timeval)
    → pos 0 ≤ℤ t.tv_usec +ℤ million
    → t.tv_usec +ℤ pos 1 ≤ℤ million
    → IsNormal (borrow t)
unfolding borrow
borrow-IsNormal t l h = elim (Bool-cases (ltb_ℤ t.tv_usec (pos 0))) [
  | inl low ↦
      rw (low, borrow)
        (let k = neg-lt t.tv_usec low in record { low = omega time_laws; high = omega time_laws })
  | inr fine ↦ rw (fine, borrow) (record { low = ground arith; high = h })
]

-- For normal `end` and `now`, the time from `now` to `end` is normal and, in microseconds, exactly
-- the difference.
pub remaining_exact :
    (end now : Timeval)
    → IsNormal end
    → IsNormal now
    → IsNormal (remaining end now) × (micros (remaining end now) ≡ micros end -ℤ micros now)
unfolding remaining
remaining_exact end now e n = (normal, remaining-micros end now)
  where
    diff : Timeval
    diff = record { tv_sec = end.tv_sec -ℤ now.tv_sec; tv_usec = end.tv_usec -ℤ now.tv_usec }

    normal : IsNormal (borrow (carry diff))
    normal =
        borrow-IsNormal (carry diff)
          (carry_above diff (omega (time_laws, e.low, e.high, n.low, n.high)))
          (carry-usec diff (omega (time_laws, e.low, e.high, n.low, n.high)))

-- For a normal time `expired` says that it is not positive.
pub expired_iff : (t : Timeval) → IsNormal t → (expired t ≡ true) ↔ (micros t ≤ℤ pos 0)
unfolding expired
expired_iff t n = (
  λ h. ground (
    arith,
    +ℤ_parts (t.tv_sec *ℤ million) t.tv_usec,
    million_parts t.tv_sec,
    n.low,
    n.high,
    +ℤ_parts t.tv_usec (pos 1),
  ),
  λ h. ground (
    arith,
    +ℤ_parts (t.tv_sec *ℤ million) t.tv_usec,
    million_parts t.tv_sec,
    n.low,
    n.high,
    +ℤ_parts t.tv_usec (pos 1),
  ),
)

left_positive : (t : Timeval) → IsNormal t → expired t ≡ false → pos 1 ≤ℤ micros t
unfolding expired
left_positive t n h = ground (
  arith,
  +ℤ_parts (t.tv_sec *ℤ million) t.tv_usec,
  million_parts t.tv_sec,
  n.low,
  n.high,
  +ℤ_parts t.tv_usec (pos 1),
)

-- `gettimeout` gives exactly the time until `end`, normal and positive, or fails with ETIME when
-- `end` is not in the future.
abbrev pub TimeLeft : {W : Type 0} → Timeval → Timeval → Reply W Timeval → Type 0
TimeLeft end now (ok t w) =
    IsNormal t × (micros t ≡ micros end -ℤ micros now) × (micros now +ℤ pos 1 ≤ℤ micros end)
TimeLeft end now (fail e w) = (e ≡ Errno.etime) × (micros end ≤ℤ micros now)

-- For a normal `end` and a normal time of day, `gettimeout` gives exactly the time until `end`, normal
-- and positive, or fails with ETIME when `end` is not in the future.
pub gettimeout-TimeLeft :
    (os : Os) (end : Timeval) (w : os.World)
    → IsNormal end
    → IsNormal (os.gettimeofday w).0
    → TimeLeft end (os.gettimeofday w).0 (gettimeout os end w)
unfolding gettimeout
gettimeout-TimeLeft os end w e n = elim (Bool-cases (expired (remaining end now))) [
  | inl over ↦
      rw (over, gettimeout)
        (
          refl,
          omega
              (time_laws, (expired_iff _ exact.0).0 over, ap pos_part exact.1, ap neg_part exact.1),
        )
  | inr left ↦
      rw (left, gettimeout)
        (
          exact.0,
          exact.1,
          omega (time_laws, left_positive _ exact.0 left, ap pos_part exact.1, ap neg_part exact.1),
        )
]
  where
    now : Timeval
    now = (os.gettimeofday w).0

    exact : IsNormal (remaining end now) × (micros (remaining end now) ≡ micros end -ℤ micros now)
    exact = remaining_exact end now e n

-- Where the time of day is normal and `seconds` splits into `whole` seconds and from 0 to a million
-- microseconds `rest`, `add2currenttime` is normal and exactly that much later.
pub add2currenttime_exact {κ} :
    (os : Os) {Double : Type κ} (whole rest : Double → ℤ) (seconds : Double) (w : os.World)
    → IsNormal (os.gettimeofday w).0
    → pos 0 ≤ℤ rest seconds
    → rest seconds ≤ℤ million
    → IsNormal (add2currenttime os whole rest seconds w).0
      × (micros (add2currenttime os whole rest seconds w).0
          ≡ micros (os.gettimeofday w).0 +ℤ (whole seconds *ℤ million +ℤ rest seconds))
unfolding add2currenttime
add2currenttime_exact os whole rest seconds w n l h = (
  record {
    low = carry_low sum (omega (time_laws, n.low));
    high = carry-usec sum (omega (time_laws, n.high));
  },
  carry-micros sum ∙ omega time_laws,
)
  where
    sum : Timeval
    sum = record {
      tv_sec = (os.gettimeofday w).0.tv_sec +ℤ whole seconds;
      tv_usec = (os.gettimeofday w).0.tv_usec +ℤ rest seconds;
    }
