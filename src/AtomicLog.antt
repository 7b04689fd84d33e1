-- ===== src/AtomicLog.antt =====
-- appendixD/atomic_logger.c: entries gathered in a list and logged by a single write. The list of
-- nodes behind `first` and `last` is the list of their entries, oldest first; the nodes are private
-- to the program, and only `insert_new_entry` and `clear` link or unlink them.
pub mod Laws
mod Tests
use usp.Base.{
  ℕ, zero, suc, ◌+◌, ◌≤◌, Bool, true, false, not, Option, none, some, List, [], ◌∷◌, ◌++◌, length,
  ◌==◌, if◌then◌else◌,
}
use usp.Base.Int.{ℤ, pos, negsuc, ltb_ℤ}
use usp.Os.{Errno, Reply, ok, fail, Os}
use usp.Restart.{restart}

-- A node: its bytes (`entry` and `len`); `atomic_log_printf` stores a terminator behind them, which
-- is not counted.
pub record Entry : Type 0 where
  pub entry : List ℕ
  pub len : ℕ

-- The static variables: `fd`, and the list from `first` to `last`.
pub record Log : Type 0 where
  pub fd : ℤ
  pub entries : List Entry

-- Inserting behind `last`; `granted` says that `malloc` finds room.
unfoldable pub insert_new_entry : Bool → Entry → Log → Option Log
insert_new_entry false e l = none
insert_new_entry true e l = some (record l { entries = l.entries ++ (e ∷ []) })

-- The loop of `get_length`, with `len` so far.
unfoldable pub get_length_loop : List Entry → ℕ → ℕ
get_length_loop [] len = len
get_length_loop (e ∷ es) len = get_length_loop es (len + e.len)

unfoldable pub get_length : Log → ℕ
unfolding get_length_loop
get_length l = get_length_loop l.entries 0

unfoldable pub clear : Log → Log
clear l = record l { entries = [] }

abbrev pub is_closed : Log → Bool
is_closed l = ltb_ℤ l.fd (pos 0)

-- `atomic_log_array` of the bytes `s`.
unfoldable pub atomic_log_array : Bool → List ℕ → Log → Reply Log (Unit {0})
unfolding insert_new_entry
atomic_log_array granted s l =
    if is_closed l
    then fail Errno.einval l
    else elim (insert_new_entry granted (record { entry = s; len = length s }) l) [
      | none ↦ fail Errno.enomem l
      | some l' ↦ ok tt l'
    ]

-- A C string is the bytes before its terminator.
unfoldable pub atomic_log_string : Bool → List ℕ → Log → Reply Log (Unit {0})
unfolding atomic_log_array
atomic_log_string granted s l = atomic_log_array granted s l

-- `s` is what `vsnprintf` makes of the format and its arguments.
unfoldable pub atomic_log_printf : Bool → List ℕ → Log → Reply Log (Unit {0})
unfolding insert_new_entry
atomic_log_printf granted s l =
    if is_closed l
    then fail Errno.einval l
    else elim (insert_new_entry granted (record { entry = s; len = length s }) l) [
      | none ↦ fail Errno.enomem l
      | some l' ↦ ok tt l'
    ]

-- The loop of `atomic_log_send` that copies the entries behind one another into `buf`, of which
-- the first `len` bytes are filled.
unfoldable pub gather : List Entry → List ℕ → List ℕ
gather [] buf = buf
gather (e ∷ es) buf = gather es (buf ++ e.entry)

unfoldable pub atomic_log_clear : Log → Log
unfolding clear
atomic_log_clear l = clear l

module _ (os : Os) where
  open os use {World, write, close}

  unfoldable pub my_write : ℕ → ℤ → List ℕ → World → Option (Reply World ℕ)
  my_write fuel fd buf = restart fuel (write fd buf)

  -- `opened` is the call of `open` on the file.
  unfoldable pub atomic_log_open :
      ℕ → (World → Reply World ℤ) → Log → World → Option (Reply (Log × World) (Unit {0}))
  atomic_log_open fuel opened l w = elim (restart fuel opened w) [
    | none ↦ none
    | some (fail e w') ↦ some (fail e (record l { fd = negsuc 0 }, w'))
    | some (ok fd w') ↦ some (ok tt (record l { fd = fd }, w'))
  ]

  unfoldable pub atomic_log_send : ℕ → Bool → Log → World → Option (Reply (Log × World) (Unit {0}))
  unfolding get_length gather clear
  atomic_log_send fuel granted l w =
      if is_closed l
      then some (fail Errno.einval (l, w))
      else if get_length l == 0
      then some (ok tt (l, w))
      else if not granted
      then some (fail Errno.enomem (l, w))
      else elim (my_write fuel l.fd (gather l.entries []) w) [
        | none ↦ none
        | some (fail e w') ↦ some (fail Errno.eagain (l, w'))
        | some (ok n w') ↦
            if n == get_length l
            then some (ok tt (clear l, w'))
            else some (fail Errno.eagain (l, w'))
      ]

  unfoldable pub atomic_log_close : ℕ → Log → World → Option (Reply (Log × World) (Unit {0}))
  unfolding clear
  atomic_log_close fuel l w = elim (restart fuel (close l.fd) w) [
    | none ↦ none
    | some (fail e w') ↦ some (fail e (clear l, w'))
    | some (ok _ w') ↦ some (ok tt (clear l, w'))
  ]
