-- ===== src/Buffer/Monitor/Defs.antt =====
-- The state of the monitor and its steps.
use usp.Base.{
  ℕ, ◌≡◌, Bool, true, false, not, ◌&&◌, Option, none, some, List, [], ◌∷◌, ◌++◌, replicate, leb,
  ◌==◌, if◌then◌else◌,
}
use usp.Os.{Errno, Code}
use usp.Buffer.{bufsize, Buffer, remove_item, insert_item}

-- What a thread does that holds the mutex and stands at the `while` test.
pub data Decision : Type 0 where
  wait cancel go : Decision

module _ {A : Type 0} where
  -- The tests of `getitem`: wait on `items`, or return ECANCELED, or remove an item.
  unfoldable pub get_decision : Buffer A → Bool → Decision
  get_decision b doneflag =
      if leb b.totalitems 0 && not doneflag
      then Decision.wait
      else if doneflag && leb b.totalitems 0
      then Decision.cancel
      else Decision.go

  -- The tests of `putitem`.
  unfoldable pub put_decision : Buffer A → Bool → Decision
  put_decision b doneflag =
      if leb bufsize b.totalitems && not doneflag
      then Decision.wait
      else if doneflag
      then Decision.cancel
      else Decision.go

-- Where a thread stands. In the states `testing` and `leaving` it holds the mutex.
pub data Pc (A : Type 0) : Type 0 where
  outside : Pc A
  get_testing : Pc A
  get_waiting : Pc A
  put_testing : A → Pc A
  put_waiting : A → Pc A
  leaving : Code → Pc A

-- `puts` and `gets` record the items that went in and out, in order.
pub record System (A : Type 0) : Type 0 where
  pub buf : Buffer A
  pub doneflag : Bool
  pub owner : Option ℕ
  pub pc : ℕ → Pc A
  pub puts : List A
  pub gets : List A

abbrev pub update {ℓ} : {A : Type ℓ} → (ℕ → A) → ℕ → A → ℕ → A
update f i a j = if i == j then a else f j

abbrev pub move : {A : Type 0} → System A → ℕ → Option ℕ → Pc A → System A
move s i owner p = record s { owner = owner; pc = update s.pc i p }

module _ {A : Type 0} where
  -- `getitem` after its tests: the item, and `code` from `pthread_cond_signal`.
  unfoldable pub take_out : System A → ℕ → Code → A → System A
  take_out s i code x = record s {
    buf = (remove_item s.buf).1;
    pc = update s.pc i (Pc.leaving code);
    gets = s.gets ++ (x ∷ []);
  }

  unfoldable pub put_in : System A → ℕ → Code → A → System A
  put_in s i code x = record s {
    buf = insert_item s.buf x;
    pc = update s.pc i (Pc.leaving code);
    puts = s.puts ++ (x ∷ []);
  }

  -- One step of thread `i`.
  pub data Step (s : System A) (t : System A) : Type 0 where
    call_get :
        (i : ℕ)
        → s.pc i ≡ Pc.outside
        → s.owner ≡ none
        → t ≡ move s i (some i) Pc.get_testing
        → Step s t
    get_wait :
        (i : ℕ)
        → s.pc i ≡ Pc.get_testing
        → get_decision s.buf s.doneflag ≡ Decision.wait
        → t ≡ move s i none Pc.get_waiting
        → Step s t
    get_wait_fails :
        (i : ℕ) (e : Errno)
        → s.pc i ≡ Pc.get_testing
        → get_decision s.buf s.doneflag ≡ Decision.wait
        → t ≡ move s i (some i) (Pc.leaving (some e))
        → Step s t
    get_wake :
        (i : ℕ)
        → s.pc i ≡ Pc.get_waiting
        → s.owner ≡ none
        → t ≡ move s i (some i) Pc.get_testing
        → Step s t
    get_cancel :
        (i : ℕ)
        → s.pc i ≡ Pc.get_testing
        → get_decision s.buf s.doneflag ≡ Decision.cancel
        → t ≡ move s i (some i) (Pc.leaving (some Errno.ecanceled))
        → Step s t
    get_go :
        (i : ℕ) (x : A) (code : Code)
        → s.pc i ≡ Pc.get_testing
        → get_decision s.buf s.doneflag ≡ Decision.go
        → (remove_item s.buf).0 ≡ some x
        → t ≡ take_out s i code x
        → Step s t
    call_put :
        (i : ℕ) (x : A)
        → s.pc i ≡ Pc.outside
        → s.owner ≡ none
        → t ≡ move s i (some i) (Pc.put_testing x)
        → Step s t
    put_wait :
        (i : ℕ) (x : A)
        → s.pc i ≡ Pc.put_testing x
        → put_decision s.buf s.doneflag ≡ Decision.wait
        → t ≡ move s i none (Pc.put_waiting x)
        → Step s t
    put_wait_fails :
        (i : ℕ) (x : A) (e : Errno)
        → s.pc i ≡ Pc.put_testing x
        → put_decision s.buf s.doneflag ≡ Decision.wait
        → t ≡ move s i (some i) (Pc.leaving (some e))
        → Step s t
    put_wake :
        (i : ℕ) (x : A)
        → s.pc i ≡ Pc.put_waiting x
        → s.owner ≡ none
        → t ≡ move s i (some i) (Pc.put_testing x)
        → Step s t
    put_cancel :
        (i : ℕ) (x : A)
        → s.pc i ≡ Pc.put_testing x
        → put_decision s.buf s.doneflag ≡ Decision.cancel
        → t ≡ move s i (some i) (Pc.leaving (some Errno.ecanceled))
        → Step s t
    put_go :
        (i : ℕ) (x : A) (code : Code)
        → s.pc i ≡ Pc.put_testing x
        → put_decision s.buf s.doneflag ≡ Decision.go
        → t ≡ put_in s i code x
        → Step s t
    call_getdone :
        (i : ℕ)
        → s.pc i ≡ Pc.outside
        → s.owner ≡ none
        → t ≡ move s i (some i) (Pc.leaving none)
        → Step s t
    call_setdone :
        (i : ℕ) (code : Code)
        → s.pc i ≡ Pc.outside
        → s.owner ≡ none
        → t ≡ record (move s i (some i) (Pc.leaving code)) { doneflag = true }
        → Step s t
    unlock :
        (i : ℕ) (code : Code) → s.pc i ≡ Pc.leaving code → t ≡ move s i none Pc.outside → Step s t

  -- The buffer at the start, with what its slots hold initially.
  abbrev pub init : A → System A
  init zero_item = record {
    buf = record { buffer = replicate bufsize zero_item; bufin = 0; bufout = 0; totalitems = 0 };
    doneflag = false;
    owner = none;
    pc = λ i. Pc.outside;
    puts = [];
    gets = [];
  }

  pub data Reach (zero_item : A) : System A → Type 0 where
    start : Reach zero_item (init zero_item)
    later : {s t : System A} → Reach zero_item s → Step s t → Reach zero_item t
