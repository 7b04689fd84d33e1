-- ===== src/Buffer/Monitor/Safety.antt =====
-- The states that the threads of the monitor chapter16/bufferconddone.c can reach.
use usp.Base.{
  ℕ, ◌<◌, ◌≤◌, ◌≡◌, ◌⊎◌, inl, inr, refl, sym, ap, subst, ◌∙◌, Bool, true, false, Bool-cases, Option,
  none, some, List, [], ◌∷◌, ◌++◌, length, append_assoc, ◌==◌, ==_iff, arith,
}
use usp.Os.{Errno, Code}
use usp.Buffer.{bufsize, Buffer, remove_item}
use usp.Buffer.Refine.{Represents, insert_item-Represents, remove_item-Represents}
use usp.Buffer.Monitor.Defs.{
  Decision, get_decision, put_decision, Pc, System, update, move, take_out, put_in, Step, call_get,
  get_wait, get_wait_fails, get_wake, get_cancel, get_go, call_put, put_wait, put_wait_fails,
  put_wake, put_cancel, put_go, call_getdone, call_setdone, unlock, init, Reach, start, later,
}

module _ {A : Type 0} where
  -- The thread holds the mutex.
  abbrev pub holds : Pc A → Bool
  holds Pc.get_testing = true
  holds (Pc.put_testing x) = true
  holds (Pc.leaving c) = true
  holds _ = false

  pub record Inv (s : System A) : Type 0 where
    pub queue : (q : List A) × Represents s.buf q × (s.puts ≡ s.gets ++ q)
    pub holder : (i : ℕ) → holds (s.pc i) ≡ true → s.owner ≡ some i

  module _ {s : System A} (inv : Inv s) (i : ℕ) where
    -- Thread `i` goes to `p`, and then the mutex belongs to `owner`.
    holder-update :
        (owner : Option ℕ) (p : Pc A)
        → (s.owner ≡ none) ⊎ (s.owner ≡ some i)
        → (holds p ≡ true → owner ≡ some i)
        → (j : ℕ) → holds (update s.pc i p j) ≡ true
        → owner ≡ some j
    holder-update owner p free own j h = elim (Bool-cases (i == j)) [
      | inl same ↦ own (rw same at h) ∙ ap some ((==_iff i j).0 same)
      | inr other ↦
          let theirs : s.owner ≡ some j = inv.holder j (rw other at h) in
          elim free [
            | inl none_holds ↦ cc
            | inr mine ↦ let same : i ≡ j = cc in absurd (ground (arith))
          ]
    ]

    Inv-move :
        (owner : Option ℕ) (p : Pc A)
        → (s.owner ≡ none) ⊎ (s.owner ≡ some i)
        → (holds p ≡ true → owner ≡ some i)
        → Inv (move s i owner p)
    Inv-move owner p free own = record {
      queue = inv.queue;
      holder = holder-update owner p free own;
    }

    mine : (p : Pc A) → s.pc i ≡ p → holds p ≡ true → s.owner ≡ some i
    mine p e h = inv.holder i (ap holds e ∙ h)

    Inv-take_out :
        (code : Code) (x : A)
        → s.owner ≡ some i
        → (remove_item s.buf).0 ≡ some x
        → get_decision s.buf s.doneflag ≡ Decision.go
        → Inv (take_out s i code x)
    unfolding take_out get_decision
    Inv-take_out code x own item d = record { queue = go inv.queue; holder = λ j h. own-or j h }
      where
        own-or : (j : ℕ) → holds (update s.pc i (Pc.leaving code) j) ≡ true → s.owner ≡ some j
        own-or j h = holder-update s.owner (Pc.leaving code) (inr own) (λ _. own) j h

        go :
            (q : List A) × Represents s.buf q × (s.puts ≡ s.gets ++ q)
            → (q : List A) × Represents (remove_item s.buf).1 q
              × (s.puts ≡ (s.gets ++ (x ∷ [])) ++ q)
        go ([], r, log) = absurd (ground (arith, r.count))
        go (y ∷ q, r, log) =
            let out = remove_item-Represents s.buf y q r in
            let same : y ≡ x = cc (out.0, item) in
            (
              q,
              out.1,
              log ∙ ap (λ z. s.gets ++ (z ∷ q)) same ∙ sym (append_assoc s.gets (x ∷ []) q),
            )

    Inv-put_in :
        (code : Code) (x : A)
        → s.owner ≡ some i
        → put_decision s.buf s.doneflag ≡ Decision.go
        → Inv (put_in s i code x)
    unfolding put_in put_decision
    Inv-put_in code x own d = record {
      queue =
          (let (q, r, log) = inv.queue in
            (
              q ++ (x ∷ []),
              insert_item-Represents s.buf q x r (ground (arith, r.count)),
              ap (λ l. l ++ (x ∷ [])) log ∙ append_assoc s.gets q (x ∷ []),
            ));
      holder = λ j h. holder-update s.owner (Pc.leaving code) (inr own) (λ _. own) j h;
    }

  module _ {s : System A} (inv : Inv s) where
    free_when :
        {i : ℕ} {p : Pc A} → s.pc i ≡ p → holds p ≡ true → (s.owner ≡ none) ⊎ (s.owner ≡ some i)
    free_when {i} {p} e h = inr (mine inv i p e h)

    pub Step-Inv : {t : System A} → Step s t → Inv t
    Step-Inv (call_get i e free eq) =
        subst Inv (sym eq) (Inv-move inv i (some i) Pc.get_testing (inl free) (λ _. refl))
    Step-Inv (get_wait i e d eq) =
        subst Inv (sym eq) (Inv-move inv i none Pc.get_waiting (free_when e refl) (λ h. cc))
    Step-Inv (get_wait_fails i er e d eq) =
        subst Inv (sym eq)
          (Inv-move inv i (some i) (Pc.leaving (some er)) (free_when e refl) (λ _. refl))
    Step-Inv (get_wake i e free eq) =
        subst Inv (sym eq) (Inv-move inv i (some i) Pc.get_testing (inl free) (λ _. refl))
    Step-Inv (get_cancel i e d eq) =
        subst Inv (sym eq) (
          Inv-move inv i (some i) (Pc.leaving (some Errno.ecanceled)) (free_when e refl)
            (λ _. refl))
    Step-Inv (get_go i x code e d item eq) =
        subst Inv (sym eq) (Inv-take_out inv i code x (mine inv i Pc.get_testing e refl) item d)
    Step-Inv (call_put i x e free eq) =
        subst Inv (sym eq) (Inv-move inv i (some i) (Pc.put_testing x) (inl free) (λ _. refl))
    Step-Inv (put_wait i x e d eq) =
        subst Inv (sym eq) (Inv-move inv i none (Pc.put_waiting x) (free_when e refl) (λ h. cc))
    Step-Inv (put_wait_fails i x er e d eq) =
        subst Inv (sym eq)
          (Inv-move inv i (some i) (Pc.leaving (some er)) (free_when e refl) (λ _. refl))
    Step-Inv (put_wake i x e free eq) =
        subst Inv (sym eq) (Inv-move inv i (some i) (Pc.put_testing x) (inl free) (λ _. refl))
    Step-Inv (put_cancel i x e d eq) =
        subst Inv (sym eq) (
          Inv-move inv i (some i) (Pc.leaving (some Errno.ecanceled)) (free_when e refl)
            (λ _. refl))
    Step-Inv (put_go i x code e d eq) =
        subst Inv (sym eq) (Inv-put_in inv i code x (mine inv i (Pc.put_testing x) e refl) d)
    Step-Inv (call_getdone i e free eq) =
        subst Inv (sym eq) (Inv-move inv i (some i) (Pc.leaving none) (inl free) (λ _. refl))
    Step-Inv (call_setdone i code e free eq) = subst Inv (sym eq) (
        let m = Inv-move inv i (some i) (Pc.leaving code) (inl free) (λ _. refl) in
        record { queue = m.queue; holder = m.holder })
    Step-Inv (unlock i code e eq) =
        subst Inv (sym eq) (Inv-move inv i none Pc.outside (free_when e refl) (λ h. cc))

  Inv-init : (zero_item : A) → Inv (init zero_item)
  Inv-init zero_item = record {
    queue = (
      [],
      record {
        slots = refl;
        out_in = omega arith;
        in_in = omega arith;
        count = refl;
        fits = omega arith;
        next = refl;
        items = tt;
      },
      refl,
    );
    holder = λ i h. cc;
  }

  pub Reach-Inv : {zero_item : A} {s : System A} → Reach zero_item s → Inv s
  Reach-Inv {zero_item} start = Inv-init zero_item
  Reach-Inv (later r st) = Step-Inv (Reach-Inv r) st

  -- In every reachable state the items put are those got, in the same order, and then the items in
  -- the buffer, which are at most `BUFSIZE`: no item is lost, repeated or overtaken.
  pub items_in_order :
      {zero_item : A} {s : System A}
      → Reach zero_item s
      → (q : List A) × (s.puts ≡ s.gets ++ q) × (length q ≤ bufsize) × Represents s.buf q
  items_in_order r = let (q, rep, log) = (Reach-Inv r).queue in (q, log, rep.fits, rep)

  -- In every reachable state at most one thread holds the mutex.
  pub mutual_exclusion :
      {zero_item : A} {s : System A}
      → Reach zero_item s
      → (i j : ℕ) → holds (s.pc i) ≡ true
      → holds (s.pc j) ≡ true
      → i ≡ j
  mutual_exclusion r i j hi hj =
      let a = (Reach-Inv r).holder i hi in let b = (Reach-Inv r).holder j hj in cc

  -- Once the done flag is set it stays set, and no step puts an item in.
  pub done-no_put :
      {s t : System A} → Step s t → s.doneflag ≡ true → (t.doneflag ≡ true) × (t.puts ≡ s.puts)
  unfolding put_in take_out put_decision
  done-no_put (call_get i e f eq) d = ground arith
  done-no_put (get_wait i e f eq) d = ground arith
  done-no_put (get_wait_fails i er e f eq) d = ground arith
  done-no_put (get_wake i e f eq) d = ground arith
  done-no_put (get_cancel i e f eq) d = ground arith
  done-no_put (get_go i x c e f it eq) d = ground arith
  done-no_put (call_put i x e f eq) d = ground arith
  done-no_put (put_wait i x e f eq) d = ground arith
  done-no_put (put_wait_fails i x er e f eq) d = ground arith
  done-no_put (put_wake i x e f eq) d = ground arith
  done-no_put (put_cancel i x e f eq) d = ground arith
  done-no_put (put_go i x c e f eq) d = ground arith
  done-no_put (call_getdone i e f eq) d = ground arith
  done-no_put (call_setdone i c e f eq) d = ground arith
  done-no_put (unlock i c e eq) d = ground arith

  -- Once the done flag is set no thread at its test waits again; `getitem` still hands out what is
  -- in the buffer and is cancelled only when nothing is left.
  pub done-no_wait :
      (b : Buffer A)
      → (put_decision b true ≡ Decision.cancel)
        × ((0 < b.totalitems) × (get_decision b true ≡ Decision.go)
            ⊎ (b.totalitems ≡ 0) × (get_decision b true ≡ Decision.cancel))
  unfolding put_decision get_decision
  done-no_wait b = (ground arith, ground arith)
