-- ===== src/History/ReadWrite.antt =====
-- chapter13/listlibrw_r.c: the functions of the list under a read-write lock. `locked` and `unlocked`
-- are what the lock and unlock calls return, `none` for 0.
pub mod Readers
use usp.Base.{ℕ, Bool, true, Option, none, some, List, if◌then◌else◌}
use usp.Base.Int.{ℤ}
use usp.Os.{Errno, Code, Reply, fail}
use usp.History.{Entry, Trav, Store, accessdata, adddata, getdata, freekey}
use usp.History.Locked.{unlock_after}

-- `lockiniterror`, and whether `ilock` has run.
pub record LockInit : Type 0 where
  pub ran : Bool
  pub lockiniterror : Code

-- `once` is what `pthread_once` returns, `ilock` what `pthread_rwlock_init` returns.
unfoldable pub initialize_r : Code → Code → LockInit → Code × LockInit
initialize_r (some e) ilock l = (some Errno.einval, record l { lockiniterror = some Errno.einval })
initialize_r none ilock l =
    if l.ran then (l.lockiniterror, l) else (ilock, record { ran = true; lockiniterror = ilock })

unfoldable pub accessdata_r : Code → Code → Bool → List Trav → Store → Option (Reply Store ℕ)
accessdata_r (some e) unlocked granted junk s = some (fail e s)
accessdata_r none unlocked granted junk s = unlock_after unlocked (some (accessdata granted junk s))

unfoldable pub adddata_r : Code → Code → Option ℕ → Entry → Store → Option (Reply Store (Unit {0}))
adddata_r (some e) unlocked p d s = some (fail e s)
adddata_r none unlocked p d s = unlock_after unlocked (adddata p d s)

-- Under the read lock, which several threads can hold.
unfoldable pub getdata_r : Code → Code → Bool → ℤ → Store → Option (Reply Store (Option Entry))
getdata_r (some e) unlocked granted key s = some (fail e s)
getdata_r none unlocked granted key s = unlock_after unlocked (getdata granted key s)

unfoldable pub freekey_r : Code → Code → ℤ → Store → Option (Reply Store (Unit {0}))
freekey_r (some e) unlocked key s = some (fail e s)
freekey_r none unlocked key s = unlock_after unlocked (some (freekey key s))
