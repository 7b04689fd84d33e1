-- ===== src/Restart/Frame.antt =====
-- Properties of the system that each call keeps, and the restarted calls of appendixB/restart.c.
use usp.Base.{ℕ, zero, suc, ◌+◌, Option, none, some, List, length, drop, inl, inr, Bool-cases, ltb}
use usp.Base.Int.{ℤ}
use usp.Os.{is_eintr, Reply, ok, fail, Os}
use usp.Restart.{restart, r_read, r_write, r_write_loop}
use usp.Restart.Laws.{Reply-cases}

module _ {W : Type 0} (P : W → Type 0) where
  -- The state that a call leaves satisfies `P`.
  abbrev pub Leaves : {A : Type 0} → Reply W A → Type 0
  Leaves (ok a w) = P w
  Leaves (fail e w) = P w

  abbrev pub Ends : {A : Type 0} → Option (Reply W A) → Type 0
  Ends none = Unit
  Ends (some (ok a w)) = P w
  Ends (some (fail e w)) = P w

  pub restart-Ends :
      {A : Type 0} (call : W → Reply W A)
      → ((w : W) → P w → Leaves (call w))
      → (fuel : ℕ) (w : W) → P w
      → Ends (restart fuel call w)
  unfolding restart
  restart-Ends call keep zero w p = tt
  restart-Ends call keep (suc fuel) w p = elim (Reply-cases (call w)) [
    | inl (a, w', e) ↦ rw (e, restart) (rw e at (keep w p))
    | inr (er, w', e) ↦
        let p' : P w' = rw e at (keep w p) in
        rw (e, restart)
          (elim (Bool-cases (is_eintr er)) [
            | inl int ↦ rw (int, restart) (restart-Ends call keep fuel w' p')
            | inr real ↦ rw (real, restart) p'
          ])
  ]

module _ (os : Os) (P : os.World → Type 0) where
  pub r_read-Ends :
      (fd : ℤ) (n : ℕ)
      → ((w : os.World) → P w → Leaves P (os.read fd n w))
      → (fuel : ℕ) (w : os.World) → P w
      → Ends P (r_read os fuel fd n w)
  unfolding r_read
  r_read-Ends fd n keep fuel w p = restart-Ends P (os.read fd n) keep fuel w p

  r_write_loop-Ends :
      (fd : ℤ)
      → ((bs : List ℕ) (w : os.World) → P w → Leaves P (os.write fd bs w))
      → (fuel : ℕ) (bs : List ℕ) (total : ℕ) (w : os.World) → P w
      → Ends P (r_write_loop os fuel fd bs total w)
  unfolding r_write_loop
  r_write_loop-Ends fd keep zero bs total w p = tt
  r_write_loop-Ends fd keep (suc fuel) bs total w p = elim (Bool-cases (ltb 0 (length bs))) [
    | inr done ↦ rw (done, r_write_loop) p
    | inl more ↦
        rw (more, r_write_loop)
          (elim (Reply-cases (os.write fd bs w)) [
            | inl (k, w', e) ↦
                rw (e, r_write_loop)
                  (r_write_loop-Ends fd keep fuel (drop k bs) (total + k) w'
                    (rw e at (keep bs w p)))
            | inr (er, w', e) ↦
                let p' : P w' = rw e at (keep bs w p) in
                rw (e, r_write_loop)
                  (elim (Bool-cases (is_eintr er)) [
                    | inl int ↦
                        rw (int, r_write_loop) (r_write_loop-Ends fd keep fuel bs total w' p')
                    | inr real ↦ rw (real, r_write_loop) p'
                  ])
          ])
  ]

  pub r_write-Ends :
      (fd : ℤ)
      → ((bs : List ℕ) (w : os.World) → P w → Leaves P (os.write fd bs w))
      → (fuel : ℕ) (bs : List ℕ) (w : os.World) → P w
      → Ends P (r_write os fuel fd bs w)
  unfolding r_write
  r_write-Ends fd keep fuel bs w p = r_write_loop-Ends fd keep fuel bs 0 w p
