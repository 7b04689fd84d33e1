-- ===== src/History/Traverse.antt =====
-- Traversals of the list by `accessdata` and `getdata` of chapter02/listlib.c, and `showhistory` of
-- chapter02/keeploglib.c.
use usp.Base.{
  ℕ, zero, suc, ◌+◌, ◌*◌, ◌<◌, ◌≡◌, ◌≢◌, ◌⊎◌, ◌∙◌, ap, subst, refl, sym, Bool, true, false,
  Bool-cases, Option, none, some, List, [], ◌∷◌, ◌++◌, ◌==◌, ==_iff, ltb, lt→ltb, if◌then◌else◌,
  map, length, get_elem?, set, replicate, get_elem?-set_self, get_elem?-set_ne, length-set,
  length-append, Option-cases, inl, inr, arith,
}
use usp.Base.Int.{pos}
use usp.Os.{Errno, Reply, ok, fail}
use usp.History.{
  Entry, Heap, Trav, null, endlist, at, of_next, Store, trav_init_size, find_empty, accessdata_at,
  accessdata, getdata_at, getdata, show_loop, showhistory,
}
use usp.History.Linked.{Cell, Linked, IsList}

abbrev pub addr_of : List Cell → Option ℕ
addr_of [] = none
addr_of ((p, d) ∷ cs) = some p

abbrev pub entries : List Cell → List Entry
entries = map (λ c. c.1)

-- The key table has the size that the program notes.
abbrev pub IsSized : Store → Type 0
IsSized s = length s.travptrs ≡ s.travptrs_size

-- The traversal `k` has still to visit the cells `rest`.
pub record Cursor (s : Store) (k : ℕ) (rest : List Cell) : Type 0 where
  pub in_range : k < s.travptrs_size
  pub slot : get_elem? s.travptrs k ≡ some (of_next (addr_of rest))
  pub linked : Linked s.heap (addr_of rest) rest

Linked-addr : (h : Heap) {q : Option ℕ} (cs : List Cell) → Linked h q cs → q ≡ addr_of cs
Linked-addr h [] l = l
Linked-addr h ((p, d) ∷ cs) l = l.0

-- `s` with the traversal pointer `k` set.
abbrev pub with_slot : Store → ℕ → Trav → Store
with_slot s k t = record s { travptrs = set s.travptrs k t }

set-set {ℓ} : {A : Type ℓ} (xs : List A) (i : ℕ) (a b : A) → set (set xs i a) i b ≡ set xs i b
set-set [] i a b = refl
set-set (x ∷ xs) zero a b = refl
set-set (x ∷ xs) (suc i) a b = ap (λ l. x ∷ l) (set-set xs i a b)

-- `getdata` at a cell copies its entry and moves on to the next cell.
pub getdata-next :
    (s : Store) (k p : ℕ) (d : Entry) (rest : List Cell)
    → IsSized s
    → Cursor s k ((p, d) ∷ rest)
    → let s' : Store = with_slot s k (of_next (addr_of rest)) in
      (getdata true (pos k) s ≡ some (ok (some d) s')) × Cursor s' k rest
unfolding getdata
getdata-next s k p d rest sized c =
    let (same, (n, node, linked)) = c.linked in
    let test : ltb k s.travptrs_size ≡ true = lt→ltb _ _ c.in_range in
    let next : n ≡ addr_of rest = Linked-addr s.heap rest linked in
    (
      rw (test) (rw (c.slot, getdata_at) (rw (node, getdata_at) (rw next refl))),
      record {
        in_range = c.in_range;
        slot = get_elem?-set_self s.travptrs k _ (ground (arith, c.in_range));
        linked = (rw next at linked);
      },
    )

-- At the end of the list `getdata` reports the end and gives the key back.
pub getdata_end :
    (s : Store) (k : ℕ)
    → Cursor s k []
    → getdata true (pos k) s ≡ some (ok none (with_slot s k null))
unfolding getdata
getdata_end s k c =
    let test : ltb k s.travptrs_size ≡ true = lt→ltb _ _ c.in_range in
    rw test (rw (c.slot, getdata_at) refl)

-- The loop of `showhistory` prints the rest of the traversal and gives the key back.
pub show_loop-entries :
    (fuel k : ℕ) (s : Store) (rest : List Cell)
    → IsSized s
    → Cursor s k rest
    → length rest < fuel
    → show_loop fuel k s ≡ some (entries rest, with_slot s k null)
unfolding show_loop
show_loop-entries zero k s rest sized c h = absurd (omega arith)
show_loop-entries (suc fuel) k s [] sized c h = rw (getdata_end s k c, show_loop) refl
show_loop-entries (suc fuel) k s ((p, d) ∷ rest) sized c h =
    let (step, c') = getdata-next s k p d rest sized c in
    let ih =
      show_loop-entries fuel k (with_slot s k (of_next (addr_of rest))) rest
        (length-set s.travptrs k _ ∙ sized) c' (omega arith) in
    rw (step, show_loop)
      (rw (ih, show_loop)
        (ap (λ l. some (d ∷ entries rest, record s { travptrs = l }))
          (set-set s.travptrs k _ null)))

find_empty-slot :
    (ts : List Trav) (i k : ℕ)
    → find_empty ts i ≡ some k
    → (j : ℕ) × (k ≡ i + j) × (get_elem? ts j ≡ some null) × (j < length ts)
unfolding find_empty
find_empty-slot [] i k e = absurd (cc)
find_empty-slot (null ∷ ts) i k e = (0, ground arith, refl, omega arith)
find_empty-slot (endlist ∷ ts) i k e =
    let (j, same, slot, lt) = find_empty-slot ts (i + 1) k e in
    (suc j, omega arith, slot, omega arith)
find_empty-slot (at p ∷ ts) i k e =
    let (j, same, slot, lt) = find_empty-slot ts (i + 1) k e in
    (suc j, omega arith, slot, omega arith)

-- The state of a store whose keys changed, but not its list.
abbrev pub SameList : Store → Store → Type 0
SameList s s' = (s'.heap ≡ s.heap) × (s'.headptr ≡ s.headptr) × (s'.tailptr ≡ s.tailptr)

-- What `accessdata` has done: a key `k` that was not in use starts a traversal of all cells, and no
-- other key changes; or the list is empty; or there was no memory for the table of keys.
abbrev pub Opened : Store → List Cell → Bool → Reply Store ℕ → Type 0
Opened s cells granted (ok k s') =
    (cells ≢ [])
    × Cursor s' k cells
    × IsSized s'
    × SameList s s'
    × ((k < s.travptrs_size → get_elem? s.travptrs k ≡ some null)
        × ((j : ℕ)
            → j < s.travptrs_size
            → j ≢ k
            → get_elem? s'.travptrs j ≡ get_elem? s.travptrs j))
Opened s cells granted (fail e s') =
    (s' ≡ s) × (((e ≡ Errno.einval) × (cells ≡ [])) ⊎ ((e ≡ Errno.enomem) × (granted ≡ false)))

get_elem?-append_left {ℓ} :
    {A : Type ℓ} (xs ys : List A) (i : ℕ) → i < length xs → get_elem? (xs ++ ys) i ≡ get_elem? xs i
get_elem?-append_left [] ys i h = absurd (omega arith)
get_elem?-append_left (x ∷ xs) ys zero h = refl
get_elem?-append_left (x ∷ xs) ys (suc i) h = get_elem?-append_left xs ys i (omega arith)

accessdata_empty :
    (granted : Bool) (junk : List Trav) (s : Store)
    → s.headptr ≡ none
    → accessdata granted junk s ≡ fail Errno.einval s
unfolding accessdata
accessdata_empty granted junk s e = ground arith

accessdata_head :
    (granted : Bool) (junk : List Trav) (p : ℕ) (s : Store)
    → s.headptr ≡ some p
    → accessdata granted junk s ≡ accessdata_at granted junk p s
unfolding accessdata
accessdata_head granted junk p s e = ground arith

accessdata_at-Opened :
    (granted : Bool) (junk : List Trav) (s : Store) (p : ℕ) (d : Entry) (cs : List Cell)
    → IsList s ((p, d) ∷ cs)
    → IsSized s
    → length junk ≡ s.travptrs_size
    → Opened s ((p, d) ∷ cs) granted (accessdata_at granted junk p s)
unfolding accessdata_at
accessdata_at-Opened granted junk s p d cs is sized j = elim (Bool-cases (s.travptrs_size == 0)) [
  | inl first ↦ rw first (first_time granted first)
  | inr more ↦ rw more (elim (Option-cases (find_empty s.travptrs 0)) [
    | inr (k, e) ↦ rw (e, accessdata_at) (reuse k (find_empty-slot s.travptrs 0 k e))
    | inl full ↦ rw (full, accessdata_at) (grow granted (ground arith))
  ])
]
  where
    linked : Linked s.heap (some p) ((p, d) ∷ cs)
    linked = (refl, is.linked.1)

    first_time :
        (granted : Bool)
        → (s.travptrs_size == 0) ≡ true
        → Opened s ((p, d) ∷ cs) granted (
            if granted
            then ok 0 (record s {
              travptrs = set (replicate trav_init_size null) 0 (at p);
              travptrs_size = trav_init_size;
            })
            else fail Errno.enomem s)
    first_time false z = (refl, inr (refl, refl))
    first_time true z = (
      (λ e. cc),
      record { in_range = omega arith; slot = refl; linked = linked },
      refl,
      (refl, refl, refl),
      ((λ h. absurd (ground arith)), (λ i h ne. absurd (ground arith))),
    )

    reuse :
        (k : ℕ)
        → (i : ℕ) × (k ≡ 0 + i) × (get_elem? s.travptrs i ≡ some null) × (i < length s.travptrs)
        → Opened s ((p, d) ∷ cs) granted (ok k (with_slot s k (at p)))
    reuse k (i, same, slot, lt) = (
      (λ e. cc),
      record {
        in_range = omega arith;
        slot = get_elem?-set_self s.travptrs k (at p) (omega arith);
        linked = linked;
      },
      length-set s.travptrs k (at p) ∙ sized,
      (refl, refl, refl),
      (
        (λ h. (let e : k ≡ i = omega arith in rw e slot)),
        (λ m h ne. get_elem?-set_ne s.travptrs (at p) (λ q. ne (sym q))),
      ),
    )

    grow :
        (granted : Bool)
        → 0 < s.travptrs_size
        → Opened s ((p, d) ∷ cs) granted (
            if granted
            then ok s.travptrs_size (record s {
              travptrs = set (s.travptrs ++ junk) s.travptrs_size (at p);
              travptrs_size = s.travptrs_size * 2;
            })
            else fail Errno.enomem s)
    grow false z = (refl, inr (refl, refl))
    grow true z = (
      (λ e. cc),
      record {
        in_range = omega arith;
        slot =
            get_elem?-set_self (s.travptrs ++ junk) s.travptrs_size (at p)
              (omega (arith, length-append s.travptrs junk));
        linked = linked;
      },
      length-set (s.travptrs ++ junk) s.travptrs_size (at p)
          ∙ omega (arith, length-append s.travptrs junk),
      (refl, refl, refl),
      (
        (λ h. absurd (omega arith)),
        (λ m h ne.
            get_elem?-set_ne (s.travptrs ++ junk) (at p) (λ q. ne (sym q))
            ∙ get_elem?-append_left s.travptrs junk m (omega arith)),
      ),
    )

-- For a well-formed list and table of keys, where `realloc` doubles the table, `accessdata` gives a key
-- that was not in use and points it to the first of all cells, with no other key changed, or fails and
-- changes nothing: EINVAL for an empty list, ENOMEM where the allocation fails.
pub accessdata-Opened :
    (granted : Bool) (junk : List Trav) (s : Store) (cells : List Cell)
    → IsList s cells
    → IsSized s
    → length junk ≡ s.travptrs_size
    → Opened s cells granted (accessdata granted junk s)
accessdata-Opened granted junk s [] is sized j =
    subst (Opened s [] granted) (sym (accessdata_empty granted junk s is.linked))
      (refl, inl (refl, refl))
accessdata-Opened granted junk s ((p, d) ∷ cs) is sized j =
    subst (Opened s ((p, d) ∷ cs) granted) (sym (accessdata_head granted junk p s is.linked.0))
      (accessdata_at-Opened granted junk s p d cs is sized j)

-- What `showhistory` prints: every entry of the list, once and in order, or "No history". The list
-- and every key in use stay as they are.
abbrev pub Shown : Store → List Cell → Option (Option (List Entry) × Store) → Type 0
Shown s cells none = ⊥
Shown s cells (some (none, s')) = (cells ≡ []) × (s' ≡ s)
Shown s cells (some (some ds, s')) =
    (cells ≢ [])
    × (ds ≡ entries cells)
    × SameList s s'
    × ((j : ℕ) → j < s.travptrs_size → get_elem? s'.travptrs j ≡ get_elem? s.travptrs j)

-- For a well-formed list and table of keys, where memory suffices and `realloc` doubles the table, and
-- with fuel for every entry, `showhistory` prints every entry once and in order, or "No history" for
-- an empty list; the list and every key in use stay as they are.
pub showhistory-Shown :
    (fuel : ℕ) (junk : List Trav) (s : Store) (cells : List Cell)
    → IsList s cells
    → IsSized s
    → length junk ≡ s.travptrs_size
    → length cells < fuel
    → Shown s cells (showhistory fuel junk s)
unfolding showhistory
showhistory-Shown fuel junk s cells is sized j h =
    go (accessdata true junk s) refl (accessdata-Opened true junk s cells is sized j)
  where
    kept :
        (k : ℕ) (s' : Store)
        → (k < s.travptrs_size → get_elem? s.travptrs k ≡ some null)
          × ((j : ℕ)
              → j < s.travptrs_size
              → j ≢ k
              → get_elem? s'.travptrs j ≡ get_elem? s.travptrs j)
        → k < length s'.travptrs
        → (i : ℕ) → i < s.travptrs_size
        → get_elem? (set s'.travptrs k null) i ≡ get_elem? s.travptrs i
    kept k s' (free, others) lt i hi = elim (Bool-cases (i == k)) [
      | inl same ↦
          let e : i ≡ k = (==_iff i k).0 same in
          let hk : k < s.travptrs_size = omega arith in
          rw e (get_elem?-set_self s'.travptrs k null lt ∙ sym (free hk))
      | inr other ↦
          let ne : i ≢ k = (λ q. cc (other, (==_iff i k).1 q)) in
          get_elem?-set_ne s'.travptrs null (λ q. ne (sym q)) ∙ others i hi ne
    ]

    go :
        (r : Reply Store ℕ)
        → accessdata true junk s ≡ r
        → Opened s cells true r
        → Shown s cells (showhistory fuel junk s)
    go (fail e s') run (same, inl (_, empty)) = rw (run, showhistory) (empty, same)
    go (fail e s') run (same, inr (_, no_memory)) = cc
    go (ok k s') run (some_cells, c, sized', same, keys) =
        rw (run, showhistory)
          (rw (show_loop-entries fuel k s' cells sized' c h, showhistory)
            (some_cells, refl, same, kept k s' keys (omega (arith, c.in_range))))
