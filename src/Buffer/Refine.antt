-- ===== src/Buffer/Refine.antt =====
-- The buffer of chapter16/buffer.c as a queue.
use usp.Base.{
  ℕ, ◌+◌, ◌%◌, ◌≤◌, ◌<◌, ◌≡◌, ◌∙◌, refl, Option, none, some, List, [], ◌∷◌, ◌++◌, length, get_elem?,
  set, get_elem?-set_self, get_elem?-set_ne, length-set, length-append, arith, ltb, ltb→lt,
  Bool-cases, inl, inr, true, false, ◌⊎◌,
}
use usp.Os.{Errno, Code, or_code}
use usp.Buffer.{bufsize, Buffer, remove_item, insert_item, getitem, putitem}

or_code-none : (c : Code) → or_code c none ≡ c
or_code-none none = refl
or_code-none (some e) = refl

module _ {A : Type 0} where
  -- From slot `h` on, going round, the slots hold `q`.
  abbrev pub Holds : List A → ℕ → List A → Type 0
  Holds buf h [] = Unit
  Holds buf h (x ∷ q) = (get_elem? buf h ≡ some x) × Holds buf ((h + 1) % bufsize) q

  -- The buffer is well formed and its items are `q`, oldest first.
  pub record Represents (b : Buffer A) (q : List A) : Type 0 where
    pub slots : length b.buffer ≡ bufsize
    pub out_in : b.bufout < bufsize
    pub in_in : b.bufin < bufsize
    pub count : b.totalitems ≡ length q
    pub fits : length q ≤ bufsize
    pub next : b.bufin ≡ (b.bufout + length q) % bufsize
    pub items : Holds b.buffer b.bufout q

  -- Filling the slot behind the last item.
  Holds-set :
      (buf : List A) (h i : ℕ) (q : List A) (x : A)
      → length buf ≡ bufsize
      → h < bufsize
      → length q < bufsize
      → i ≡ (h + length q) % bufsize
      → Holds buf h q
      → Holds (set buf i x) h (q ++ (x ∷ []))
  Holds-set buf h i [] x l k small e hold =
      (let same : i ≡ h = omega arith in rw same (get_elem?-set_self buf h x (omega arith)), tt)
  Holds-set buf h i (y ∷ q) x l k small e hold = (
    get_elem?-set_ne buf x (λ same. absurd (omega arith)) ∙ hold.0,
    Holds-set buf ((h + 1) % bufsize) i q x l (omega arith) (omega arith) (omega arith) hold.1,
  )

  pub insert_item-Represents :
      (b : Buffer A) (q : List A) (x : A)
      → Represents b q
      → length q < bufsize
      → Represents (insert_item b x) (q ++ (x ∷ []))
  unfolding insert_item
  insert_item-Represents b q x r room = record {
    slots = length-set b.buffer b.bufin x ∙ r.slots;
    out_in = r.out_in;
    in_in = omega arith;
    count = omega (arith, length-append q (x ∷ []));
    fits = omega (arith, length-append q (x ∷ []));
    next = omega (arith, length-append q (x ∷ []));
    items = Holds-set b.buffer b.bufout b.bufin q x r.slots r.out_in room r.next r.items;
  }

  pub remove_item-Represents :
      (b : Buffer A) (x : A) (q : List A)
      → Represents b (x ∷ q)
      → ((remove_item b).0 ≡ some x) × Represents (remove_item b).1 q
  unfolding remove_item
  remove_item-Represents b x q r = (
    r.items.0,
    record {
      slots = r.slots;
      out_in = omega arith;
      in_in = r.in_in;
      count = omega arith;
      fits = omega arith;
      next = omega arith;
      items = r.items.1;
    },
  )

  -- What `getitem` does to the queue, with the mutex calls returning `locked` and `unlocked`: no
  -- lock, nothing happens; an empty queue gives EAGAIN; else the oldest item is removed. A failed
  -- unlock takes the place of the result.
  abbrev pub Got : Code → Code → List A → Buffer A → Code × Option A × Buffer A → Type 0
  Got (some e) unlocked q b (code, item, b') = (code ≡ some e) × (item ≡ none) × (b' ≡ b)
  Got none unlocked [] b (code, item, b') =
      (code ≡ or_code unlocked (some Errno.eagain)) × (item ≡ none) × (b' ≡ b)
  Got none unlocked (x ∷ q) b (code, item, b') =
      (code ≡ unlocked) × (item ≡ some x) × Represents b' q

  -- On a buffer that represents a queue, `getitem` removes and returns the oldest item, or gives EAGAIN
  -- for the empty queue. Without the lock nothing changes, and a failed unlock takes the place of the
  -- result.
  pub getitem-Got :
      (locked unlocked : Code) (b : Buffer A) (q : List A)
      → Represents b q
      → Got locked unlocked q b (getitem locked unlocked b)
  unfolding getitem
  getitem-Got (some e) unlocked b q r = (refl, refl, refl)
  getitem-Got none unlocked b [] r =
      let test : ltb 0 b.totalitems ≡ false = ground arith in rw test (refl, refl, refl)
  getitem-Got none unlocked b (x ∷ q) r =
      let test : ltb 0 b.totalitems ≡ true = ground arith in
      let out = remove_item-Represents b x q r in rw test (or_code-none unlocked, out.0, out.1)

  -- What `putitem` does to the queue: no lock, nothing happens; a full queue gives EAGAIN; else the
  -- item goes to the end.
  abbrev pub Put : Code → Code → List A → A → Buffer A → Code × Buffer A → Type 0
  Put (some e) unlocked q x b (code, b') = (code ≡ some e) × (b' ≡ b)
  Put none unlocked q x b (code, b') =
      ((length q < bufsize) × (code ≡ unlocked) × Represents b' (q ++ (x ∷ [])))
      ⊎ ((length q ≡ bufsize) × (code ≡ or_code unlocked (some Errno.eagain)) × (b' ≡ b))

  -- On a buffer that represents a queue, `putitem` puts the item at its end, or gives EAGAIN where the
  -- queue has `BUFSIZE` items. Without the lock nothing changes, and a failed unlock takes the place of
  -- the result.
  pub putitem-Put :
      (locked unlocked : Code) (b : Buffer A) (q : List A) (x : A)
      → Represents b q
      → Put locked unlocked q x b (putitem locked unlocked b x)
  unfolding putitem
  putitem-Put (some e) unlocked b q x r = (refl, refl)
  putitem-Put none unlocked b q x r = elim (Bool-cases (ltb b.totalitems bufsize)) [
    | inl room ↦
        let lt = ltb→lt _ _ room in
        rw room
          (inl (omega arith, or_code-none unlocked, insert_item-Represents b q x r (omega arith)))
    | inr full ↦ rw full (inr (ground arith, refl, refl))
  ]
