-- ===== src/History/Locked.antt =====
-- chapter13/listlib_r.c: the functions of the list under a mutex. `locked` and `unlocked` are what
-- `pthread_mutex_lock` and `pthread_mutex_unlock` return, `none` for 0.
use usp.Base.{ℕ, ◌≡◌, ◌⊎◌, refl, Bool, Option, none, some, List, [], ◌∷◌, ◌++◌, inl, inr}
use usp.Base.Int.{ℤ}
use usp.Os.{Errno, Reply, ok, fail}
use usp.History.{Entry, Trav, Store, accessdata, adddata, getdata, freekey}
use usp.History.Linked.{Cell, IsList, Added, IsFresh, adddata-Added}

module _ {A : Type 0} where
  -- What is left of a call after it returned: a failure is reported whatever the unlock returns,
  -- and a failed unlock takes the place of a success.
  abbrev pub unlock_after : Option Errno → Option (Reply Store A) → Option (Reply Store A)
  unlock_after unlocked none = none
  unlock_after unlocked (some (fail e s)) = some (fail e s)
  unlock_after none (some (ok a s)) = some (ok a s)
  unlock_after (some e) (some (ok a s)) = some (fail e s)

unfoldable pub accessdata_r :
    Option Errno → Option Errno → Bool → List Trav → Store → Option (Reply Store ℕ)
accessdata_r (some e) unlocked granted junk s = some (fail e s)
accessdata_r none unlocked granted junk s = unlock_after unlocked (some (accessdata granted junk s))

unfoldable pub adddata_r :
    Option Errno → Option Errno → Option ℕ → Entry → Store → Option (Reply Store (Unit {0}))
adddata_r (some e) unlocked p d s = some (fail e s)
adddata_r none unlocked p d s = unlock_after unlocked (adddata p d s)

unfoldable pub getdata_r :
    Option Errno → Option Errno → Bool → ℤ → Store → Option (Reply Store (Option Entry))
getdata_r (some e) unlocked granted key s = some (fail e s)
getdata_r none unlocked granted key s = unlock_after unlocked (getdata granted key s)

unfoldable pub freekey_r : Option Errno → Option Errno → ℤ → Store → Option (Reply Store (Unit {0}))
freekey_r (some e) unlocked key s = some (fail e s)
freekey_r none unlocked key s = unlock_after unlocked (some (freekey key s))

-- What `adddata_r` has done: on success the entry is the last of the list; a failure leaves the
-- list as it was, unless it is the unlock that failed, after the entry was added.
abbrev pub AddedLocked :
    Store
    → List Cell
    → Option Errno
    → Option Errno
    → Option ℕ
    → Entry
    → Option (Reply Store (Unit {0}))
    → Type 0
AddedLocked s cells locked unlocked p d none = ⊥
AddedLocked s cells locked unlocked p d (some (ok _ s')) =
    (locked ≡ none)
    × (unlocked ≡ none)
    × ((a : ℕ) × (p ≡ some a) × IsList s' (cells ++ ((a, d) ∷ [])))
AddedLocked s cells locked unlocked p d (some (fail e s')) =
    ((s' ≡ s) × ((locked ≡ some e) ⊎ ((e ≡ Errno.enomem) × (p ≡ none))))
    ⊎ ((locked ≡ none)
        × (unlocked ≡ some e)
        × ((a : ℕ) × (p ≡ some a) × IsList s' (cells ++ ((a, d) ∷ []))))

after-AddedLocked :
    (s : Store) (cells : List Cell) (unlocked : Option Errno) (p : Option ℕ) (d : Entry)
    → (r : Option (Reply Store (Unit {0}))) → Added s cells p d r
    → AddedLocked s cells none unlocked p d (unlock_after unlocked r)
after-AddedLocked s cells unlocked none d none x = x
after-AddedLocked s cells unlocked none d (some (ok a s')) x = absurd x
after-AddedLocked s cells unlocked none d (some (fail e s')) x = inl (x.0, inr (x.1, refl))
after-AddedLocked s cells unlocked (some q) d none x = x
after-AddedLocked s cells none (some q) d (some (ok a s')) x = (refl, refl, (q, refl, x.0))
after-AddedLocked s cells (some e) (some q) d (some (ok a s')) x = inr (refl, refl, (q, refl, x.0))
after-AddedLocked s cells unlocked (some q) d (some (fail e s')) x = absurd x

-- With the mutex, `adddata_r` on a well-formed list returns 0 only if both mutex calls succeeded and
-- the entry was appended. If it fails, either nothing has changed, and the lock failed or memory was
-- refused, or the unlock failed and the entry was appended; the error says which.
pub adddata_r-AddedLocked :
    (locked unlocked : Option Errno) (s : Store) (cells : List Cell) (p : Option ℕ) (d : Entry)
    → IsList s cells
    → IsFresh s p
    → AddedLocked s cells locked unlocked p d (adddata_r locked unlocked p d s)
unfolding adddata_r
adddata_r-AddedLocked (some e) unlocked s cells p d is free = inl (refl, inl refl)
adddata_r-AddedLocked none unlocked s cells p d is free =
    after-AddedLocked s cells unlocked p d (adddata p d s) (adddata-Added s cells p d is free)
