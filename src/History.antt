-- ===== src/History.antt =====
-- The list of commands with times of chapter02/listlib.c and its client chapter02/keeploglib.c. The
-- nodes lie on a heap, and pointers are addresses. What `malloc`, `calloc` and `realloc` return is
-- given to each call; `none` as a result means that the code reads through a wild pointer.
pub mod Linked
pub mod Traverse
pub mod Keeplog
pub mod Locked
pub mod ReadWrite
mod Tests
use usp.Base.{
  ℕ, zero, suc, ◌+◌, ◌*◌, Bool, true, false, Option, none, some, List, [], ◌∷◌, ◌++◌, get_elem?,
  set, replicate, length, ◌==◌, ltb, if◌then◌else◌,
}
use usp.Base.Int.{ℤ, pos, negsuc}
use usp.Os.{Errno, Reply, ok, fail}

-- `data_t`: a time and the bytes of a string.
pub record Entry : Type 0 where
  pub time : ℤ
  pub string : List ℕ

-- `list_t`
pub record Node : Type 0 where
  pub item : Entry
  pub next : Option ℕ

abbrev pub Heap : Type 0
Heap = ℕ → Option Node

abbrev pub write : Heap → ℕ → Node → Heap
write h p n a = if a == p then some n else h a

-- A traversal pointer: NULL, `&endlist`, or a node.
pub data Trav : Type 0 where
  null endlist : Trav
  at : ℕ → Trav

abbrev pub of_next : Option ℕ → Trav
of_next none = endlist
of_next (some p) = at p

-- The static variables.
pub record Store : Type 0 where
  pub heap : Heap
  pub headptr : Option ℕ
  pub tailptr : Option ℕ
  pub travptrs : List Trav
  pub travptrs_size : ℕ

abbrev pub trav_init_size : ℕ
trav_init_size = 8

-- The search of `accessdata` for an empty slot, from index `i` on.
unfoldable pub find_empty : List Trav → ℕ → Option ℕ
find_empty [] i = none
find_empty (null ∷ ts) i = some i
find_empty (t ∷ ts) i = find_empty ts (i + 1)

-- `granted`: the allocation succeeds. `junk` is what the new half of the array holds after
-- `realloc`, which does not clear it.
unfoldable pub accessdata_at : Bool → List Trav → ℕ → Store → Reply Store ℕ
unfolding find_empty
accessdata_at granted junk head s =
    if s.travptrs_size == 0
    then (if granted
        then ok 0 (record s {
          travptrs = set (replicate trav_init_size null) 0 (at head);
          travptrs_size = trav_init_size;
        })
        else fail Errno.enomem s)
    else elim (find_empty s.travptrs 0) [
      | some i ↦ ok i (record s { travptrs = set s.travptrs i (at head) })
      | none ↦
          if granted
          then ok s.travptrs_size (record s {
            travptrs = set (s.travptrs ++ junk) s.travptrs_size (at head);
            travptrs_size = s.travptrs_size * 2;
          })
          else fail Errno.enomem s
    ]

unfoldable pub accessdata : Bool → List Trav → Store → Reply Store ℕ
accessdata granted junk s = elim s.headptr [
  | none ↦ fail Errno.einval s
  | some head ↦ accessdata_at granted junk head s
]

-- `p` is the address of the new node, if `malloc` finds room.
unfoldable pub adddata : Option ℕ → Entry → Store → Option (Reply Store (Unit {0}))
adddata none d s = some (fail Errno.enomem s)
adddata (some p) d s =
    let h = write s.heap p (record { item = d; next = none }) in
    elim s.headptr [
      | none ↦ some (ok tt (record s { heap = h; headptr = some p; tailptr = some p }))
      | some head ↦ elim s.tailptr [
        | none ↦ none
        | some t ↦ elim (h t) [
          | none ↦ none
          | some n ↦
              some (
                ok tt
                  (record s { heap = write h t (record n { next = some p }); tailptr = some p }))
        ]
      ]
    ]

-- `getdata` at a key in range: the entry, or `none` where `datap->string` is set to NULL.
unfoldable pub getdata_at : Bool → ℕ → Store → Option (Reply Store (Option Entry))
getdata_at granted k s = elim (get_elem? s.travptrs k) [
  | none ↦ none
  | some t ↦ elim t [
    | null ↦ some (fail Errno.einval s)
    | endlist ↦ some (ok none (record s { travptrs = set s.travptrs k null }))
    | at p ↦ elim (s.heap p) [
      | none ↦ none
      | some n ↦
          if granted
          then some (ok (some n.item) (record s { travptrs = set s.travptrs k (of_next n.next) }))
          else some (fail Errno.enomem s)
    ]
  ]
]

unfoldable pub getdata : Bool → ℤ → Store → Option (Reply Store (Option Entry))
unfolding getdata_at
getdata granted (negsuc k) s = some (fail Errno.einval s)
getdata granted (pos k) s =
    if ltb k s.travptrs_size then getdata_at granted k s else some (fail Errno.einval s)

unfoldable pub freekey : ℤ → Store → Reply Store (Unit {0})
freekey (negsuc k) s = fail Errno.einval s
freekey (pos k) s =
    if ltb k s.travptrs_size
    then ok tt (record s { travptrs = set s.travptrs k null })
    else fail Errno.einval s

-- The loop of `showhistory` in chapter02/keeploglib.c: the entries that it prints, on fuel.
unfoldable pub show_loop : ℕ → ℕ → Store → Option (List Entry × Store)
show_loop zero key s = none
show_loop (suc fuel) key s = elim (getdata true (pos key) s) [
  | none ↦ none
  | some (fail e s') ↦ some ([], s')
  | some (ok none s') ↦ some ([], s')
  | some (ok (some d) s') ↦ elim (show_loop fuel key s') [
    | none ↦ none
    | some (ds, s'') ↦ some (d ∷ ds, s'')
  ]
]

-- The entries printed, or `none` for "No history"; memory suffices.
unfoldable pub showhistory : ℕ → List Trav → Store → Option (Option (List Entry) × Store)
unfolding show_loop
showhistory fuel junk s = elim (accessdata true junk s) [
  | fail e s' ↦ some (none, s')
  | ok key s' ↦ elim (show_loop fuel key s') [ none ↦ none | some (ds, s'') ↦ some (some ds, s'') ]
]
