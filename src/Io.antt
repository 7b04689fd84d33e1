-- ===== src/Io.antt =====
-- Chains of calls that may fail: each returns -1 at the first failure, as the sources do. `none` says
-- that a loop ran out of fuel.
use usp.Base.{
  ℕ, ◌<◌, ◌≡◌, ◌≢◌, ◌∙◌, refl, ap, Bool-cases, inl, inr, Option, none, some, zero, suc, arith,
}
use usp.Os.{Errno, is_eintr, Reply, ok, fail}
use usp.Restart.{restart}
use usp.Restart.Laws.{is_eintr-eq, is_eintr-ne, Reply-cases}

abbrev pub Run : Type 0 → Type 0 → Type 0
Run W A = W → Option (Reply W A)

abbrev pub then_do : {W A B : Type 0} → Option (Reply W A) → (A → Run W B) → Option (Reply W B)
then_do none f = none
then_do (some (fail e w)) f = some (fail e w)
then_do (some (ok a w)) f = f a w

infixl 5 ◌>>=◌
abbrev pub ◌>>=◌ : {W A B : Type 0} → Run W A → (A → Run W B) → Run W B
(m >>= f) w = then_do (m w) f

abbrev pub call : {W A : Type 0} → (W → Reply W A) → Run W A
call c w = some (c w)

abbrev pub done : {W A : Type 0} → A → Run W A
done a w = some (ok a w)

abbrev pub give_up : {W A : Type 0} → Errno → Run W A
give_up e w = some (fail e w)

abbrev pub restore : {W A B : Type 0} → Errno → Option (Reply W A) → Option (Reply W B)
restore e none = none
restore e (some (ok _ w)) = some (fail e w)
restore e (some (fail _ w)) = some (fail e w)

-- `error = errno; clean; errno = error; return -1;` where the call failed.
abbrev pub or_clean : {W A B : Type 0} → Option (Reply W A) → Run W B → Option (Reply W A)
or_clean none clean = none
or_clean (some (ok a w)) clean = some (ok a w)
or_clean (some (fail e w)) clean = restore e (clean w)

-- Where the call fails, `again` is done after it.
abbrev pub or_else : {W A : Type 0} → Option (Reply W A) → Run W A → Option (Reply W A)
or_else none again = none
or_else (some (ok a w)) again = some (ok a w)
or_else (some (fail e w)) again = again w

-- The call returned: a value that satisfies `Q`, or an error that satisfies `F`.
pub data Result {W A : Type 0} (Q : A → W → Type 0) (F : Errno → W → Type 0)
    : Option (Reply W A) → Type 0 where
  returned : {a : A} {w : W} → Q a w → Result Q F (some (ok a w))
  failed : {e : Errno} {w : W} → F e w → Result Q F (some (fail e w))

module _ {W : Type 0} where
  pub Result-then :
      {A B : Type 0} {Q : A → W → Type 0} {R : B → W → Type 0} {F : Errno → W → Type 0}
      {m : Option (Reply W A)} {f : A → Run W B}
      → Result Q F m
      → ((a : A) (w : W) → Q a w → Result R F (f a w))
      → Result R F (then_do m f)
  Result-then (returned {a} {w} q) g = g a w q
  Result-then (failed x) g = failed x

  Result-restore :
      {A B : Type 0} {Q : A → W → Type 0} {G : Errno → W → Type 0} {r : Option (Reply W B)}
      (e : Errno)
      → Result (λ b v. G e v) (λ er v. G e v) r
      → Result Q G (restore e r)
  Result-restore e (returned y) = failed y
  Result-restore e (failed y) = failed y

  pub Result-clean :
      {A B : Type 0} {Q : A → W → Type 0} {F G : Errno → W → Type 0} {m : Option (Reply W A)}
      {clean : Run W B}
      → Result Q F m
      → ((e : Errno) (w : W) → F e w → Result (λ b v. G e v) (λ er v. G e v) (clean w))
      → Result Q G (or_clean m clean)
  Result-clean (returned x) g = returned x
  Result-clean (failed {e} {w} x) g = Result-restore e (g e w x)

  pub Result-or_else :
      {A : Type 0} {Q : A → W → Type 0} {F G : Errno → W → Type 0} {m : Option (Reply W A)}
      {again : Run W A}
      → Result Q F m
      → ((e : Errno) (w : W) → F e w → Result Q G (again w))
      → Result Q G (or_else m again)
  Result-or_else (returned x) g = returned x
  Result-or_else (failed {e} {w} x) g = g e w x

  pub Result-weaken :
      {A : Type 0} {Q R : A → W → Type 0} {F G : Errno → W → Type 0} {m : Option (Reply W A)}
      → Result Q F m
      → ((a : A) (w : W) → Q a w → R a w)
      → ((e : Errno) (w : W) → F e w → G e w)
      → Result R G m
  Result-weaken (returned {a} {w} x) q f = returned (q a w x)
  Result-weaken (failed {e} {w} x) q f = failed (f e w x)

  -- A call that is made once.
  pub call-Result :
      {A : Type 0} {Q : A → W → Type 0} {F : Errno → W → Type 0} (r : Reply W A)
      → ((a : A) (v : W) → r ≡ ok a v → Q a v)
      → ((e : Errno) (v : W) → r ≡ fail e v → F e v)
      → Result Q F (some r)
  call-Result (ok a v) good bad = returned (good a v refl)
  call-Result (fail e v) good bad = failed (bad e v refl)

  -- A restarted call: every interruption keeps `I` and uses up some of `size`.
  pub restart-Result :
      {A : Type 0} {Q : A → W → Type 0} {F : Errno → W → Type 0} (I : W → Type 0) (size : W → ℕ)
      (c : W → Reply W A)
      → ((w v : W) → I w → c w ≡ fail Errno.eintr v → I v × (size v < size w))
      → ((w v : W) (a : A) → I w → c w ≡ ok a v → Q a v)
      → ((w v : W) (e : Errno) → I w → e ≢ Errno.eintr → c w ≡ fail e v → F e v)
      → (fuel : ℕ) (w : W) → I w
      → size w < fuel
      → Result Q F (restart fuel c w)
  unfolding restart
  restart-Result I size c int good bad zero w i h = absurd (omega arith)
  restart-Result I size c int good bad (suc fuel) w i h = elim (Reply-cases (c w)) [
    | inl (a, v, e) ↦ rw (e, restart) (returned (good w v a i e))
    | inr (er, v, e) ↦
        rw (e, restart)
          (elim (Bool-cases (is_eintr er)) [
            | inl again ↦
                let (j, less) = int w v i (e ∙ ap (λ x. fail x v) (is_eintr-eq er again)) in
                rw (again, restart) (restart-Result I size c int good bad fuel v j (omega arith))
            | inr real ↦ rw (real, restart) (failed (bad w v er i (is_eintr-ne er real) e))
          ])
  ]
