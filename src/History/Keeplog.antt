-- ===== src/History/Keeplog.antt =====
-- The program chapter02/keeplog.c without its argument, over chapter02/keeploglib.c: it runs the lines
-- that it reads and then shows the history. Memory suffices; what `malloc` and `realloc` return is given.
use usp.Base.{
  ℕ, suc, ◌<◌, ◌≤◌, ◌≡◌, ◌≢◌, ◌∙◌, refl, ap, sym, subst, Bool, Bool-cases, Option-cases, Option,
  none, some, All, List, [], ◌∷◌, ◌++◌, append_assoc, append-nil, length, if◌then◌else◌, inl, inr,
  arith,
}
use usp.Base.Int.{ℤ}
use usp.Os.{Errno, Reply, ok, fail}
use usp.History.{Entry, Heap, Trav, Store, adddata, showhistory}
use usp.History.Linked.{Cell, IsList, Added, adddata-Added}
use usp.History.Traverse.{entries, IsSized, Shown, showhistory-Shown}

-- A line, the time at which it runs, where `time` does not fail, whether `system` runs it, the `errno`
-- of a failure, and the address that `malloc` returns.
pub record Line : Type 0 where
  pub cmd : List ℕ
  pub time : Option ℤ
  pub ran : Bool
  pub errno : Errno
  pub room : ℕ

unfoldable pub runproc : Line → Store → Option (Reply Store (Unit {0}))
runproc l s = elim l.time [
  | none ↦ some (fail l.errno s)
  | some t ↦
      if l.ran
      then adddata (some l.room) (record { time = t; string = l.cmd }) s
      else some (fail l.errno s)
]

-- The loop of `main`: the store when it ends.
unfoldable pub run_lines : List Line → Store → Option Store
unfolding runproc
run_lines [] s = some s
run_lines (l ∷ ls) s = elim (runproc l s) [
  | none ↦ none
  | some (fail e s') ↦ some s'
  | some (ok _ s') ↦ run_lines ls s'
]

-- `main`, behind its arguments: what `showhistory` prints at the end.
unfoldable pub keeplog :
    (Store → List Trav) → ℕ → List Line → Store → Option (Option (List Entry) × Store)
unfolding run_lines
keeplog realloc fuel ls s = elim (run_lines ls s) [
  | none ↦ none
  | some s' ↦ showhistory fuel (realloc s') s'
]

-- The commands that run: those before the first that does not.
abbrev pub executed : List Line → List Entry
executed [] = []
executed (l ∷ ls) = elim l.time [
  | none ↦ []
  | some t ↦
      let rest = executed ls in if l.ran then record { time = t; string = l.cmd } ∷ rest else []
]

entries-append : (xs ys : List Cell) → entries (xs ++ ys) ≡ entries xs ++ entries ys
entries-append [] ys = refl
entries-append (x ∷ xs) ys = ap (λ l. x.1 ∷ l) (entries-append xs ys)

-- The lines left a well-formed list of `ds`.
record Holds (ds : List Entry) (s : Store) : Type 0 where
  cells : List Cell
  is_list : IsList s cells
  sized : IsSized s
  same : entries cells ≡ ds

abbrev Ran : List Entry → Option Store → Type 0
Ran ds none = ⊥
Ran ds (some s) = Holds ds s

-- The addresses that `malloc` returns for the lines are not in use, and all different.
abbrev pub Free : Heap → List Line → Type 0
Free h [] = Unit
Free h (l ∷ ls) = (h l.room ≡ none) × All (λ m. m.room ≢ l.room) ls × Free h ls

-- `adddata` takes no address but its own.
adddata_elsewhere :
    (p : ℕ) (d : Entry) (s s' : Store) (q : ℕ)
    → adddata (some p) d s ≡ some (ok tt s')
    → q ≢ p
    → s.heap q ≡ none
    → s'.heap q ≡ none
unfolding adddata
adddata_elsewhere p d s s' q e ne free = ground (arith, e, ne, free)

adddata-Free :
    (p : ℕ) (d : Entry) (s s' : Store) (ls : List Line)
    → adddata (some p) d s ≡ some (ok tt s')
    → All (λ m. m.room ≢ p) ls
    → Free s.heap ls
    → Free s'.heap ls
adddata-Free p d s s' [] e others free = tt
adddata-Free p d s s' (l ∷ ls) e (other, others) (room, apart, free) =
    (adddata_elsewhere p d s s' l.room e other room, apart, adddata-Free p d s s' ls e others free)

adddata-Holds :
    (p : ℕ) (d : Entry) (ds : List Entry) (s : Store)
    → Holds ds s
    → (r : Option (Reply Store (Unit {0})))
    → ((cells : List Cell) → IsList s cells → Added s cells (some p) d r)
    → (s' : Store) × (r ≡ some (ok tt s')) × Holds (ds ++ (d ∷ [])) s'
adddata-Holds p d ds s h none a = elim (a h.cells h.is_list) [ ]
adddata-Holds p d ds s h (some (fail e s')) a = elim (a h.cells h.is_list) [ ]
adddata-Holds p d ds s h (some (ok u s')) a =
    let (list, keys, size) = a h.cells h.is_list in
    (
      s',
      refl,
      record {
        cells = h.cells ++ ((p, d) ∷ []);
        is_list = list;
        sized = ap length keys ∙ h.sized ∙ sym size;
        same = entries-append h.cells ((p, d) ∷ []) ∙ ap (λ l. l ++ (d ∷ [])) h.same;
      },
    )

run_lines-Ran :
    (ls : List Line) (ds : List Entry) (s : Store)
    → Holds ds s
    → Free s.heap ls
    → Ran (ds ++ executed ls) (run_lines ls s)
unfolding run_lines
run_lines-Ran [] ds s h rooms = rw (append-nil ds) h
run_lines-Ran (l ∷ ls) ds s h rooms = elim (Option-cases l.time) [
  | inl failed ↦ rw (failed, run_lines) (rw (append-nil ds) h)
  | inr (t, e) ↦
      rw (e, run_lines)
        (elim (Bool-cases l.ran) [
          | inr not_run ↦ rw (not_run, run_lines) (rw (append-nil ds) h)
          | inl run ↦
              let d : Entry = record { time = t; string = l.cmd } in
              let (s', eq, held) =
                adddata-Holds l.room d ds s h (adddata (some l.room) d s)
                  (λ cells list. adddata-Added s cells (some l.room) d list rooms.0) in
              rw (run, run_lines)
                (rw (eq, run_lines)
                  (subst (λ m. Ran m (run_lines ls s')) (append_assoc ds (d ∷ []) (executed ls))
                    (run_lines-Ran ls (ds ++ (d ∷ [])) s' held
                      (adddata-Free l.room d s s' ls eq rooms.1 rooms.2))))
        ])
]

length-entries : (cells : List Cell) → length (entries cells) ≡ length cells
length-entries [] = refl
length-entries (c ∷ cells) = ap suc (length-entries cells)

executed_bound : (ls : List Line) → length (executed ls) ≤ length ls
executed_bound [] = omega arith
executed_bound (l ∷ ls) = ground (arith, executed_bound ls)

-- The store when the program starts, on any heap.
abbrev pub start : Heap → Store
start h = record { heap = h; headptr = none; tailptr = none; travptrs = []; travptrs_size = 0 }

-- What the program shows, where the entries `ds` were kept.
abbrev pub Kept : List Entry → Option (Option (List Entry) × Store) → Type 0
Kept ds none = ⊥
Kept ds (some (none, s)) = ds ≡ []
Kept ds (some (some shown, s)) = (ds ≢ []) × (shown ≡ ds)

-- Where `malloc` returns different addresses that are not in use and `realloc` doubles the table of keys, and
-- with more fuel than lines: `keeplog` ends, and shows the commands that it ran with their times, all
-- of them and in order, or "No history" where it ran none. It runs the lines before the first for
-- which `time` or `system` fails.
pub keeplog-Kept :
    (realloc : Store → List Trav) (fuel : ℕ) (ls : List Line) (h : Heap)
    → Free h ls
    → ((s : Store) → length (realloc s) ≡ s.travptrs_size)
    → length ls < fuel
    → Kept (executed ls) (keeplog realloc fuel ls (start h))
unfolding keeplog
keeplog-Kept realloc fuel ls h free doubled enough =
    go (run_lines ls (start h)) (run_lines-Ran ls [] (start h) empty free)
  where
    empty : Holds [] (start h)
    empty = record {
      cells = [];
      is_list = record { linked = refl; distinct = tt; tail = refl };
      sized = refl;
      same = refl;
    }

    shows :
        (s : Store) (cells : List Cell) (r : Option (Option (List Entry) × Store))
        → entries cells ≡ executed ls
        → Shown s cells r
        → Kept (executed ls) r
    shows s cells none same x = x
    shows s cells (some (none, s')) same (nothing, _) = sym same ∙ ap entries nothing
    shows s [] (some (some ds, s')) same (some_cells, _, _, _) = absurd (some_cells refl)
    shows s (c ∷ cells) (some (some ds, s')) same (some_cells, shown, _, _) =
        ((λ e. ground (arith, same, e)), shown ∙ same)

    go :
        (r : Option Store)
        → Ran (executed ls) r
        → Kept (executed ls) (elim r as (λ _. Option (Option (List Entry) × Store)) [
          | none ↦ none
          | some s' ↦ showhistory fuel (realloc s') s'
        ])
    go none x = x
    go (some s) x = shows s x.cells (showhistory fuel (realloc s) s) x.same (
        showhistory-Shown fuel (realloc s) s x.cells x.is_list x.sized (doubled s)
          (omega (arith, executed_bound ls, length-entries x.cells, ap length x.same)))
