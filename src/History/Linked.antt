-- ===== src/History/Linked.antt =====
-- The chain of nodes from `headptr` on, and `adddata` of chapter02/listlib.c.
use usp.Base.{ℕ, ◌≡◌, ◌≢◌, ap, refl, sym, Option, none, some, List, [], ◌∷◌, ◌++◌, All, arith}
use usp.Os.{Errno, Reply, ok, fail}
use usp.History.{Entry, Node, Heap, write, Store, adddata}

-- A node's address and its entry.
abbrev pub Cell : Type 0
Cell = ℕ × Entry

-- From `q` the `next` pointers lead through the cells to NULL.
abbrev pub Linked : Heap → Option ℕ → List Cell → Type 0
Linked h q [] = q ≡ none
Linked h q ((p, d) ∷ cs) =
    (q ≡ some p) × ((n : Option ℕ) × (h p ≡ some (record { item = d; next = n })) × Linked h n cs)

abbrev pub Distinct : List Cell → Type 0
Distinct [] = Unit
Distinct ((p, d) ∷ cs) = All (λ c. c.0 ≢ p) cs × Distinct cs

abbrev pub last_of : ℕ → List Cell → ℕ
last_of p [] = p
last_of p ((q, d) ∷ cs) = last_of q cs

abbrev pub last_addr : List Cell → Option ℕ
last_addr [] = none
last_addr ((p, d) ∷ cs) = some (last_of p cs)

-- The list holds `cells`, in order.
pub record IsList (s : Store) (cells : List Cell) : Type 0 where
  pub linked : Linked s.heap s.headptr cells
  pub distinct : Distinct cells
  pub tail : s.tailptr ≡ last_addr cells

last_of-ne : (p q : ℕ) (cs : List Cell) → q ≢ p → All (λ c. c.0 ≢ p) cs → last_of q cs ≢ p
last_of-ne p q [] ne all = ne
last_of-ne p q ((r, d) ∷ cs) ne all = last_of-ne p r cs all.0 all.1

-- A chain does not see a write at an address that it does not contain.
Linked-write :
    (h : Heap) (a : ℕ) (n : Node) (q : Option ℕ) (cs : List Cell)
    → All (λ c. c.0 ≢ a) cs
    → Linked h q cs
    → Linked (write h a n) q cs
Linked-write h a n q [] out l = l
Linked-write h a n q ((p, d) ∷ cs) out (e, (m, node, rest)) =
    (e, (m, ground (arith, out.0), Linked-write h a n m cs out.1 rest))

-- An address without a node is not in a chain.
fresh-out :
    (h : Heap) (a : ℕ) (q : Option ℕ) (cs : List Cell)
    → h a ≡ none
    → Linked h q cs
    → All (λ c. c.0 ≢ a) cs
fresh-out h a q [] free l = tt
fresh-out h a q ((p, d) ∷ cs) free (e, (m, node, rest)) =
    ((λ same. cc (node, free, ap h same)), fresh-out h a m cs free rest)

abbrev pub extend : Heap → ℕ → ℕ → Entry → Node → Heap
extend h p t d n =
    write (write h p (record { item = d; next = none })) t (record n { next = some p })

-- Linking a fresh node `p` behind the last node of a chain.
Linked-extend :
    (h : Heap) (p : ℕ) (d : Entry) (q : Option ℕ) (a : ℕ) (da : Entry) (cs : List Cell)
    → h p ≡ none
    → Linked h q ((a, da) ∷ cs)
    → Distinct ((a, da) ∷ cs)
    → (n : Node) × (h (last_of a cs) ≡ some n)
      × Linked (extend h p (last_of a cs) d n) q (((a, da) ∷ cs) ++ ((p, d) ∷ []))
Linked-extend h p d q a da [] free (e, (m, node, end)) dis =
    let ne : a ≢ p = λ same. cc (node, free, ap h same) in
    (
      record { item = da; next = m },
      node,
      (e, (some p, ground (arith, ne), (refl, (none, ground (arith, ne), refl)))),
    )
Linked-extend h p d q a da ((b, db) ∷ cs) free (e, (m, node, rest)) (out, dis) =
    let (n, last, linked) = Linked-extend h p d m b db cs free rest dis in
    let ne : a ≢ p = λ same. cc (node, free, ap h same) in
    let ne' : last_of b cs ≢ a = last_of-ne a b cs out.0 out.1 in
    (n, last, (e, (m, ground (arith, ne, ne', node), linked)))

Distinct-extend :
    (p : ℕ) (d : Entry) (cs : List Cell)
    → Distinct cs
    → All (λ c. c.0 ≢ p) cs
    → Distinct (cs ++ ((p, d) ∷ []))
Distinct-extend p d [] dis out = (tt, tt)
Distinct-extend p d ((a, da) ∷ cs) (all, dis) (ne, out) =
    (push cs all, Distinct-extend p d cs dis out)
  where
    push : (l : List Cell) → All (λ c. c.0 ≢ a) l → All (λ c. c.0 ≢ a) (l ++ ((p, d) ∷ []))
    push [] x = ((λ same. ne (sym same)), tt)
    push (c ∷ l) x = (x.0, push l x.1)

last_addr-extend : (p : ℕ) (d : Entry) (cs : List Cell) → last_addr (cs ++ ((p, d) ∷ [])) ≡ some p
last_addr-extend p d [] = refl
last_addr-extend p d ((a, da) ∷ cs) = ap some (go a cs)
  where
    go : (a : ℕ) (cs : List Cell) → last_of a (cs ++ ((p, d) ∷ [])) ≡ p
    go a [] = refl
    go a ((b, db) ∷ cs) = go b cs

-- What `adddata` has done: it added the entry at the end, or ran out of memory and did nothing.
abbrev pub Added : Store → List Cell → Option ℕ → Entry → Option (Reply Store (Unit {0})) → Type 0
Added s cells none d none = ⊥
Added s cells none d (some (ok _ s')) = ⊥
Added s cells none d (some (fail e s')) = (s' ≡ s) × (e ≡ Errno.enomem)
Added s cells (some p) d none = ⊥
Added s cells (some p) d (some (ok _ s')) =
    IsList s' (cells ++ ((p, d) ∷ []))
    × (s'.travptrs ≡ s.travptrs)
    × (s'.travptrs_size ≡ s.travptrs_size)
Added s cells (some p) d (some (fail e s')) = ⊥

-- `malloc` returns an address that is not in use.
abbrev pub IsFresh : Store → Option ℕ → Type 0
IsFresh s none = Unit
IsFresh s (some p) = s.heap p ≡ none

-- Adding an entry to a well-formed list, at a fresh address, appends it and leaves the list well
-- formed; where memory is refused it fails with ENOMEM and nothing changes.
pub adddata-Added :
    (s : Store) (cells : List Cell) (room : Option ℕ) (d : Entry)
    → IsList s cells
    → IsFresh s room
    → Added s cells room d (adddata room d s)
unfolding adddata
adddata-Added s cells none d is free = (refl, refl)
adddata-Added s [] (some p) d is free =
    rw (is.linked, adddata)
      (
        record { linked = (refl, (none, ground arith, refl)); distinct = (tt, tt); tail = refl },
        refl,
        refl,
      )
adddata-Added s ((a, da) ∷ cs) (some p) d is free =
    let (n, last, linked) = Linked-extend s.heap p d s.headptr a da cs free is.linked is.distinct in
    let ne : last_of a cs ≢ p = λ same. cc (last, free, ap s.heap same) in
    let here : write s.heap p (record { item = d; next = none }) (last_of a cs) ≡ some n =
      ground (arith, ne, last) in
    rw (is.linked.0, adddata)
      (rw (is.tail, adddata)
        (rw (here, adddata)
          (
            record {
              linked = linked;
              distinct =
                  Distinct-extend p d ((a, da) ∷ cs) is.distinct
                    (fresh-out s.heap p s.headptr ((a, da) ∷ cs) free is.linked);
              tail = sym (last_addr-extend p d ((a, da) ∷ cs));
            },
            refl,
            refl,
          )))
