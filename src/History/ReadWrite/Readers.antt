-- ===== src/History/ReadWrite/Readers.antt =====
-- Readers of chapter13/listlibrw_r.c with different keys do not disturb each other.
use usp.Base.{
  ℕ, zero, suc, ◌<◌, ◌≡◌, ◌≢◌, ◌⊎◌, ◌∙◌, inl, inr, refl, sym, ap, Bool, true, false, Option, none,
  some, List, [], ◌∷◌, get_elem?, get_elem?-set_ne, set, ltb, if◌then◌else◌, arith,
}
use usp.Base.Int.{pos}
use usp.Os.{Errno, Code, Reply, ok, fail}
use usp.History.{Entry, Heap, Node, Trav, null, endlist, at, of_next, Store, getdata, getdata_at}
use usp.History.Locked.{unlock_after}
use usp.History.ReadWrite.{getdata_r}

-- What a call gives: -1 with `errno`, or what it puts into `*datap`.
abbrev pub Answer : Type 0
Answer = Errno ⊎ Option Entry

abbrev pub answered : Option (Reply Store (Option Entry)) → Option (Answer × Store)
answered none = none
answered (some (fail e s)) = some (inl e, s)
answered (some (ok d s)) = some (inr d, s)

abbrev pub answer_first : Answer → Option (Answer × Store) → Option (Answer × Answer × Store)
answer_first a none = none
answer_first a (some (b, s)) = some (a, b, s)

abbrev pub and_then :
    Option (Answer × Store) → (Store → Option (Answer × Store)) → Option (Answer × Answer × Store)
and_then none f = none
and_then (some (a, s)) f = answer_first a (f s)

abbrev pub swap : Option (Answer × Answer × Store) → Option (Answer × Answer × Store)
swap none = none
swap (some (a, b, s)) = some (b, a, s)

-- What a slot with traversal pointer `t` gives, and the pointer after it.
abbrev serve : Bool → Heap → Trav → Option (Answer × Trav)
serve granted h null = some (inl Errno.einval, null)
serve granted h endlist = some (inr none, null)
serve granted h (at p) = elim (h p) [
  | none ↦ none
  | some n ↦
      if granted then some (inr (some n.item), of_next n.next) else some (inl Errno.enomem, at p)
]

abbrev put : Store → ℕ → Option (Answer × Trav) → Option (Answer × Store)
put s k none = none
put s k (some (a, t)) = some (a, record s { travptrs = set s.travptrs k t })

abbrev look : Bool → Heap → Option Trav → Option (Answer × Trav)
look g h none = none
look g h (some t) = serve g h t

set_same : {A : Type 0} (l : List A) (k : ℕ) (t : A) → get_elem? l k ≡ some t → set l k t ≡ l
set_same [] k t e = refl
set_same (x ∷ l) zero t e = ap (λ y. y ∷ l) (ground arith)
set_same (x ∷ l) (suc k) t e = ap (λ m. x ∷ m) (set_same l k t e)

set_comm :
    {A : Type 0} (l : List A) (j k : ℕ) (a b : A)
    → j ≢ k
    → set (set l j a) k b ≡ set (set l k b) j a
set_comm [] j k a b ne = refl
set_comm (x ∷ l) zero zero a b ne = absurd (ne refl)
set_comm (x ∷ l) zero (suc k) a b ne = refl
set_comm (x ∷ l) (suc j) zero a b ne = refl
set_comm (x ∷ l) (suc j) (suc k) a b ne = ap (λ m. x ∷ m) (set_comm l j k a b (λ e. ne (ap suc e)))

-- One call of `getdata` with a key in range looks at its own slot and the nodes, and sets its slot.
getdata_at-put :
    (g : Bool) (k : ℕ) (s : Store)
    → answered (getdata_at g k s) ≡ put s k (look g s.heap (get_elem? s.travptrs k))
unfolding getdata_at
getdata_at-put g k s = go (get_elem? s.travptrs k) refl
  where
    go :
        (t : Option Trav)
        → get_elem? s.travptrs k ≡ t
        → answered (getdata_at g k s) ≡ put s k (look g s.heap t)
    go none e = rw (e, getdata_at) refl
    go (some null) e =
        rw (e, getdata_at)
          (ap (λ l. some (inl Errno.einval, record s { travptrs = l }))
            (sym (set_same s.travptrs k null e)))
    go (some endlist) e = rw (e, getdata_at) refl
    go (some (at p)) e = node (s.heap p) refl
      where
        node :
            (n : Option Node)
            → s.heap p ≡ n
            → answered (getdata_at g k s) ≡ put s k (serve g s.heap (at p))
        node none here = rw (e, getdata_at) (rw (here, serve) refl)
        node (some n) here = rw (e, getdata_at) (rw (here, serve) (room g))
          where
            room :
                (b : Bool)
                → answered (
                    if b
                    then some (
                        ok
                          (some n.item)
                          (record s { travptrs = set s.travptrs k (of_next n.next) }))
                    else some (fail Errno.enomem s))
                  ≡ put s k (
                      if b
                      then some (inr (some n.item), of_next n.next)
                      else some (inl Errno.enomem, at p))
            room true = refl
            room false =
                ap (λ l. some (inl Errno.enomem, record s { travptrs = l }))
                  (sym (set_same s.travptrs k (at p) e))

abbrev closing : Code → Answer → Answer
closing u (inl e) = inl e
closing none (inr d) = inr d
closing (some e) (inr d) = inl e

abbrev with_code : Code → Option (Answer × Trav) → Option (Answer × Trav)
with_code u none = none
with_code u (some (a, t)) = some (closing u a, t)

abbrev slot : Store → ℕ → Option Trav
slot s k = get_elem? s.travptrs k

abbrev closed : Code → Option (Answer × Store) → Option (Answer × Store)
closed u none = none
closed u (some (a, s)) = some (closing u a, s)

answered-unlock_after :
    (u : Code) (r : Option (Reply Store (Option Entry)))
    → answered (unlock_after u r) ≡ closed u (answered r)
answered-unlock_after u none = refl
answered-unlock_after u (some (fail e s)) = refl
answered-unlock_after none (some (ok d s)) = refl
answered-unlock_after (some e) (some (ok d s)) = refl

closed-put :
    (u : Code) (s : Store) (k : ℕ) (c : Option (Answer × Trav))
    → closed u (put s k c) ≡ put s k (with_code u c)
closed-put u s k none = refl
closed-put u s k (some (a, t)) = refl

-- A call under the read lock.
abbrev pub read_at : Code → Bool → ℕ → Store → Option (Answer × Store)
read_at unlocked granted k s = answered (getdata_r none unlocked granted (pos k) s)

read_at-put :
    (u : Code) (g : Bool) (k : ℕ) (s : Store)
    → k < s.travptrs_size
    → read_at u g k s ≡ put s k (with_code u (look g s.heap (slot s k)))
unfolding getdata_r getdata
read_at-put u g k s lt =
    let test : ltb k s.travptrs_size ≡ true = ground arith in
    rw (test, getdata_r)
      (answered-unlock_after u (getdata_at g k s)
        ∙ ap (closed u) (getdata_at-put g k s)
        ∙ closed-put u s k (look g s.heap (slot s k)))

-- One call after another that has set slot `j`.
second :
    (u : Code) (g : Bool) (j k : ℕ) (t : Trav) (s : Store)
    → j ≢ k
    → k < s.travptrs_size
    → read_at u g k (record s { travptrs = set s.travptrs j t })
      ≡ put (record s { travptrs = set s.travptrs j t }) k (with_code u (look g s.heap (slot s k)))
second u g j k t s ne lt =
    read_at-put u g k (record s { travptrs = set s.travptrs j t }) lt
    ∙ ap (λ x. put (record s { travptrs = set s.travptrs j t }) k (with_code u (look g s.heap x)))
        (get_elem?-set_ne s.travptrs t ne)

-- Both calls, one after the other, with what each of them finds in its slot.
abbrev both :
    Store
    → ℕ
    → ℕ
    → Option (Answer × Trav)
    → Option (Answer × Trav)
    → Option (Answer × Answer × Store)
both s j k none d = none
both s j k (some c) none = none
both s j k (some (a, t)) (some (b, v)) =
    some (a, b, record s { travptrs = set (set s.travptrs j t) k v })

both-swap :
    (s : Store) (j k : ℕ) (c d : Option (Answer × Trav))
    → j ≢ k
    → both s j k c d ≡ swap (both s k j d c)
both-swap s j k none none ne = refl
both-swap s j k none (some d) ne = refl
both-swap s j k (some c) none ne = refl
both-swap s j k (some (a, t)) (some (b, v)) ne =
    ap (λ l. some (a, b, record s { travptrs = l })) (set_comm s.travptrs j k t v ne)

and_then-both :
    (u u' : Code) (g g' : Bool) (j k : ℕ) (s : Store)
    → j ≢ k
    → j < s.travptrs_size
    → k < s.travptrs_size
    → and_then (read_at u g j s) (read_at u' g' k)
      ≡ both s j k
          (with_code u (look g s.heap (slot s j)))
          (with_code u' (look g' s.heap (slot s k)))
and_then-both u u' g g' j k s ne lj lk =
    ap (λ x. and_then x (read_at u' g' k)) (read_at-put u g j s lj)
    ∙ go (with_code u (look g s.heap (slot s j)))
  where
    go :
        (c : Option (Answer × Trav))
        → and_then (put s j c) (read_at u' g' k)
          ≡ both s j k c (with_code u' (look g' s.heap (slot s k)))
    go none = refl
    go (some (a, t)) =
        ap (answer_first a) (second u' g' j k t s ne lk)
        ∙ put_next (with_code u' (look g' s.heap (slot s k)))
      where
        put_next :
            (d : Option (Answer × Trav))
            → answer_first a (put (record s { travptrs = set s.travptrs j t }) k d)
              ≡ both s j k (some (a, t)) d
        put_next none = refl
        put_next (some (b, v)) = refl

-- Two calls of `getdata_r` with different keys in range, both under the read lock, give the same
-- answers and leave the same list and keys in either order, whatever their unlocks and `malloc`s
-- return.
pub getdata_r-commute :
    (u u' : Code) (g g' : Bool) (j k : ℕ) (s : Store)
    → j ≢ k
    → j < s.travptrs_size
    → k < s.travptrs_size
    → and_then (read_at u g j s) (read_at u' g' k)
      ≡ swap (and_then (read_at u' g' k s) (read_at u g j))
getdata_r-commute u u' g g' j k s ne lj lk =
    and_then-both u u' g g' j k s ne lj lk
    ∙ both-swap s j k (with_code u (look g s.heap (slot s j)))
        (with_code u' (look g' s.heap (slot s k))) ne
    ∙ ap swap (sym (and_then-both u' u g' g k j s (λ e. ne (sym e)) lk lj))
