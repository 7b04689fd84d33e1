-- ===== src/Buffer/Semaphores/Stock.antt =====
-- The invariant of the buffer with semaphores: every item and every slot of the queue is counted by a
-- semaphore, or reserved or owed by a thread.
use usp.Base.{
  ℕ, ◌+◌, ◌%◌, ◌<◌, ◌≤◌, ◌≡◌, refl, sym, ap, subst, ◌∙◌, Option, some, List, [], ◌∷◌, ◌++◌, length,
  length-append, append_assoc, total, total-set, set, arith,
}
use usp.Buffer.{bufsize, insert_item, remove_item}
use usp.Buffer.Refine.{Represents, insert_item-Represents, remove_item-Represents}
use usp.Buffer.Semaphores.{Ring, take_item, put_item, Place, Shop, At, go, take_out, put_in}

module _ {A : Type 0} where
  -- The thread has an item reserved, or has put one in and not told so.
  abbrev pub item_share : Place A → ℕ
  item_share Place.get_reserved = 1
  item_share Place.put_holding = 1
  item_share Place.put_posting = 1
  item_share _ = 0

  abbrev pub slot_share : Place A → ℕ
  slot_share (Place.put_reserved x) = 1
  slot_share Place.get_holding = 1
  slot_share Place.get_posting = 1
  slot_share _ = 0

  -- The ring holds the queue `q`.
  abbrev pub RingHolds : Ring A → List A → Type 0
  RingHolds r q =
      Represents
        (record { buffer = r.buffer; bufin = r.bufin; bufout = r.bufout; totalitems = length q }) q

  pub record Stock (s : Shop A) (q : List A) : Type 0 where
    pub ring_holds : RingHolds s.ring q
    pub order : s.puts ≡ s.gets ++ q
    pub items : s.semitems + total item_share s.threads ≤ length q
    pub slots : s.semslots + total slot_share s.threads + length q ≤ bufsize

  put_item-RingHolds :
      (r : Ring A) (q : List A) (x : A)
      → RingHolds r q
      → length q < bufsize
      → RingHolds (put_item r x) (q ++ (x ∷ []))
  unfolding put_item insert_item
  put_item-RingHolds r q x h room =
      subst
        (λ n.
          Represents
            (record {
              buffer = (put_item r x).buffer;
              bufin = (put_item r x).bufin;
              bufout = (put_item r x).bufout;
              totalitems = n;
            })
            (q ++ (x ∷ [])))
        (sym (length-append q (x ∷ []))) (insert_item-Represents _ q x h room)

  pub take_item-RingHolds :
      (r : Ring A) (x : A) (q : List A)
      → RingHolds r (x ∷ q)
      → ((take_item r).0 ≡ some x) × RingHolds (take_item r).1 q
  unfolding take_item remove_item
  take_item-RingHolds r x q h =
      let (item, rest) = remove_item-Represents _ x q h in
      (
        item,
        subst
            (λ n.
              Represents
                (record {
                  buffer = r.buffer;
                  bufin = r.bufin;
                  bufout = (r.bufout + 1) % bufsize;
                  totalitems = n;
                })
                q)
            (omega arith) rest,
      )

  module _ {s : Shop A} {q : List A} (stock : Stock s q) (i : ℕ) {p : Place A}
      (place : At s i p) where
    items-go :
        (p' : Place A)
        → total item_share (set s.threads i p') + item_share p
          ≡ total item_share s.threads + item_share p'
    items-go p' = total-set item_share s.threads i p p' place

    slots-go :
        (p' : Place A)
        → total slot_share (set s.threads i p') + slot_share p
          ≡ total slot_share s.threads + slot_share p'
    slots-go p' = total-set slot_share s.threads i p p' place

    -- A step that leaves the ring as it is and gains no item and no slot.
    Stock-quiet :
        (p' : Place A) (semitems semslots : ℕ) (owner : Option ℕ)
        → semitems + item_share p' ≤ s.semitems + item_share p
        → semslots + slot_share p' ≤ s.semslots + slot_share p
        → Stock (record (go s i p') { semitems = semitems; semslots = semslots; owner = owner }) q
    Stock-quiet p' semitems semslots owner le le' = record {
      ring_holds = stock.ring_holds;
      order = stock.order;
      items = omega (arith, items-go p', stock.items);
      slots = omega (arith, slots-go p', stock.slots);
    }

    pub quiet :
        {t : Shop A} (p' : Place A) (semitems semslots : ℕ) (owner : Option ℕ)
        → semitems + item_share p' ≤ s.semitems + item_share p
        → semslots + slot_share p' ≤ s.semslots + slot_share p
        → t ≡ record (go s i p') { semitems = semitems; semslots = semslots; owner = owner }
        → (r : List A) × Stock t r
    quiet p' semitems semslots owner le le' eq =
        (q, subst (λ u. Stock u q) (sym eq) (Stock-quiet p' semitems semslots owner le le'))

  -- Under a reserved item the queue is not empty, and its first item is the one taken.
  pub reserved :
      (q : List A) {s : Shop A} (i : ℕ)
      → Stock s q
      → At s i Place.get_reserved
      → (x : A) × (r : List A) × (q ≡ x ∷ r)
  reserved [] i stock place =
      absurd (omega (arith, stock.items, items-go stock i place Place.outside))
  reserved (x ∷ r) i stock place = (x, r, refl)

  pub Stock-take_out :
      {s : Shop A} {q : List A} (i : ℕ) {x y : A} {r : List A}
      → Stock s q
      → At s i Place.get_reserved
      → (take_item s.ring).0 ≡ some x
      → q ≡ y ∷ r
      → Stock (take_out s i x) r
  unfolding take_out
  Stock-take_out {s} {q} i {x} {y} {r} stock place item e =
      let (front, rest) =
        take_item-RingHolds s.ring y r (subst (RingHolds s.ring) e stock.ring_holds) in
      let same : y ≡ x = cc (front, item) in
      record {
        ring_holds = rest;
        order =
            stock.order
            ∙ ap (λ l. s.gets ++ l) e
            ∙ ap (λ z. s.gets ++ (z ∷ r)) same
            ∙ sym (append_assoc s.gets (x ∷ []) r);
        items = omega (arith, items-go stock i place Place.get_holding, stock.items, ap length e);
        slots = omega (arith, slots-go stock i place Place.get_holding, stock.slots, ap length e);
      }

  pub Stock-put_in :
      {s : Shop A} {q : List A} (i : ℕ) {x : A}
      → Stock s q
      → At s i (Place.put_reserved x)
      → Stock (put_in s i x) (q ++ (x ∷ []))
  unfolding put_in
  Stock-put_in {s} {q} i {x} stock place = record {
    ring_holds =
        put_item-RingHolds s.ring q x stock.ring_holds
          (omega (arith, slots-go stock i place Place.outside, stock.slots));
    order = ap (λ l. l ++ (x ∷ [])) stock.order ∙ append_assoc s.gets q (x ∷ []);
    items =
        omega
          (arith, items-go stock i place Place.put_holding, stock.items, length-append q (x ∷ []));
    slots =
        omega
          (arith, slots-go stock i place Place.put_holding, stock.slots, length-append q (x ∷ []));
  }
