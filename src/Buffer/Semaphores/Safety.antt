-- ===== src/Buffer/Semaphores/Safety.antt =====
-- The states that threads reach with chapter16/bufferseminit.c.
use usp.Base.{
  ℕ, suc, ◌+◌, ◌≤◌, ◌≡◌, refl, sym, ap, subst, ◌∙◌, none, List, [], ◌∷◌, ◌++◌, length,
  total-replicate, arith,
}
use usp.Buffer.{bufsize}
use usp.Buffer.Semaphores.{
  Place, Shop, At, take_out, Move, get_wait, get_no_lock, get_lock, get_unlock, get_no_unlock,
  get_post, get_no_post, put_wait, put_no_lock, put_lock, put_unlock, put_no_unlock, put_post,
  put_no_post, open_shop, Reached, opened, after,
}
use usp.Buffer.Semaphores.Stock.{
  item_share, slot_share, RingHolds, Stock, take_item-RingHolds, quiet, reserved, Stock-take_out,
  Stock-put_in,
}

module _ {A : Type 0} where
  Move-Stock : {s t : Shop A} {q : List A} → Stock s q → Move s t → (r : List A) × Stock t r
  Move-Stock {s} k (get_wait i n p e eq) =
      quiet k i p Place.get_reserved n s.semslots s.owner (omega arith) (omega arith) eq
  Move-Stock {s} k (get_no_lock i p eq) =
      quiet k i p Place.outside s.semitems s.semslots s.owner (omega arith) (omega arith) eq
  Move-Stock {s} {q = q} k (get_lock i x p free item eq) =
      let (y, r, e) = reserved q i k p in
      (r, subst (λ u. Stock u r) (sym eq) (Stock-take_out i k p item e))
  Move-Stock {s} k (get_unlock i p eq) =
      quiet k i p Place.get_posting s.semitems s.semslots none (omega arith) (omega arith) eq
  Move-Stock {s} k (get_no_unlock i p eq) =
      quiet k i p Place.outside s.semitems s.semslots s.owner (omega arith) (omega arith) eq
  Move-Stock {s} k (get_post i p eq) =
      quiet k i p Place.outside s.semitems (suc s.semslots) s.owner (omega arith) (omega arith) eq
  Move-Stock {s} k (get_no_post i p eq) =
      quiet k i p Place.outside s.semitems s.semslots s.owner (omega arith) (omega arith) eq
  Move-Stock {s} k (put_wait i n x p e eq) =
      quiet k i p (Place.put_reserved x) s.semitems n s.owner (omega arith) (omega arith) eq
  Move-Stock {s} k (put_no_lock i x p eq) =
      quiet k i p Place.outside s.semitems s.semslots s.owner (omega arith) (omega arith) eq
  Move-Stock {s} {q = q} k (put_lock i x p free eq) =
      (q ++ (x ∷ []), subst (λ u. Stock u (q ++ (x ∷ []))) (sym eq) (Stock-put_in i k p))
  Move-Stock {s} k (put_unlock i p eq) =
      quiet k i p Place.put_posting s.semitems s.semslots none (omega arith) (omega arith) eq
  Move-Stock {s} k (put_no_unlock i p eq) =
      quiet k i p Place.outside s.semitems s.semslots s.owner (omega arith) (omega arith) eq
  Move-Stock {s} k (put_post i p eq) =
      quiet k i p Place.outside (suc s.semitems) s.semslots s.owner (omega arith) (omega arith) eq
  Move-Stock {s} k (put_no_post i p eq) =
      quiet k i p Place.outside s.semitems s.semslots s.owner (omega arith) (omega arith) eq

  Stock-open : (n : ℕ) (zero_item : A) → Stock (open_shop n zero_item) []
  Stock-open n zero_item = record {
    ring_holds = record {
      slots = refl;
      out_in = omega arith;
      in_in = omega arith;
      count = refl;
      fits = omega arith;
      next = refl;
      items = tt;
    };
    order = refl;
    items = omega (arith, total-replicate item_share n Place.outside refl);
    slots = omega (arith, total-replicate slot_share n Place.outside refl);
  }

  Reached-Stock :
      {n : ℕ} {zero_item : A} {s : Shop A} → Reached n zero_item s → (q : List A) × Stock s q
  Reached-Stock {n} {zero_item} opened = ([], Stock-open n zero_item)
  Reached-Stock (after r m) = Move-Stock (Reached-Stock r).1 m

  -- In every state that the threads reach, with any calls failing, the items put are those got, in the
  -- same order, and then at most `BUFSIZE` items that the ring holds; `semitems` is at most their
  -- number, `semslots` at most the number of free slots.
  pub stock_in_order :
      {n : ℕ} {zero_item : A} {s : Shop A}
      → Reached n zero_item s
      → (q : List A) × (s.puts ≡ s.gets ++ q)
        × RingHolds s.ring q
        × (s.semitems ≤ length q)
        × (s.semslots + length q ≤ bufsize)
  stock_in_order r =
      let (q, k) = Reached-Stock r in
      (q, k.order, k.ring_holds, omega (arith, k.items), omega (arith, k.slots))

  -- A thread that is behind `sem_wait(&semitems)` of `getitem` in a state that the threads reach gets the
  -- oldest item as soon as the mutex is free: it never reads an empty buffer.
  pub reserved-getitem :
      {n : ℕ} {zero_item : A} {s : Shop A}
      → Reached n zero_item s
      → (i : ℕ) → At s i Place.get_reserved
      → s.owner ≡ none
      → (x : A) × (q : List A) × (s.puts ≡ s.gets ++ (x ∷ q)) × Move s (take_out s i x)
  reserved-getitem {s} r i place free =
      let (q, k) = Reached-Stock r in
      let (x, rest, e) = reserved q i k place in
      let (front, _) =
        take_item-RingHolds s.ring x rest (subst (RingHolds s.ring) e k.ring_holds) in
      (x, rest, k.order ∙ ap (λ l. s.gets ++ l) e, get_lock i x place free front refl)
