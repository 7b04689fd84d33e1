-- ===== src/Buffer/Semaphores.antt =====
-- The bounded buffer with semaphores of chapter16/bufferseminit.c and chapter16/buffersem.c, used by a
-- fixed number of threads. `getitem` and `putitem` are cut into the steps that other threads can come
-- between: the semaphore, the statements under the mutex, the unlock, the other semaphore. Every call
-- may fail.
pub mod Stock
pub mod Safety
mod Tests
use usp.Base.{
  ℕ, suc, ◌+◌, ◌%◌, ◌≡◌, Option, none, some, List, [], ◌∷◌, ◌++◌, replicate, get_elem?, set,
}
use usp.Os.{Errno, Code}
use usp.Buffer.{bufsize}

-- `buffer`, `bufin` and `bufout`
pub record Ring (A : Type 0) : Type 0 where
  pub buffer : List A
  pub bufin : ℕ
  pub bufout : ℕ

-- What `bufferinit` returns, and the values of `semitems` and `semslots` where both exist. The
-- arguments are the errors of the two calls of `sem_init`.
unfoldable pub bufferinit : Code → Code → Code × Option (ℕ × ℕ)
bufferinit (some error) second = (some error, none)
bufferinit none (some error) = (some error, none)
bufferinit none none = (none, some (0, bufsize))

module _ {A : Type 0} where
  unfoldable pub take_item : Ring A → Option A × Ring A
  take_item r = (get_elem? r.buffer r.bufout, record r { bufout = (r.bufout + 1) % bufsize })

  unfoldable pub put_item : Ring A → A → Ring A
  put_item r item = record r { buffer = set r.buffer r.bufin item; bufin = (r.bufin + 1) % bufsize }

-- Where a thread stands: outside; behind `sem_wait`; behind the statements under the mutex, which it
-- holds; behind the unlock.
pub data Place (A : Type 0) : Type 0 where
  outside : Place A
  get_reserved : Place A
  get_holding : Place A
  get_posting : Place A
  put_reserved : A → Place A
  put_holding : Place A
  put_posting : Place A

-- `puts` and `gets` record the items that went in and out, in order.
pub record Shop (A : Type 0) : Type 0 where
  pub ring : Ring A
  pub semitems : ℕ
  pub semslots : ℕ
  pub owner : Option ℕ
  pub threads : List (Place A)
  pub puts : List A
  pub gets : List A

module _ {A : Type 0} where
  abbrev pub At : Shop A → ℕ → Place A → Type 0
  At s i p = get_elem? s.threads i ≡ some p

  abbrev pub go : Shop A → ℕ → Place A → Shop A
  go s i p = record s { threads = set s.threads i p }

  -- The statements of `getitem` under the mutex.
  unfoldable pub take_out : Shop A → ℕ → A → Shop A
  take_out s i x = record (go s i Place.get_holding) {
    ring = (take_item s.ring).1;
    owner = some i;
    gets = s.gets ++ (x ∷ []);
  }

  unfoldable pub put_in : Shop A → ℕ → A → Shop A
  put_in s i x = record (go s i Place.put_holding) {
    ring = put_item s.ring x;
    owner = some i;
    puts = s.puts ++ (x ∷ []);
  }

  -- One step of thread `i`. A `sem_wait` that is interrupted or fails changes nothing.
  pub data Move (s : Shop A) (t : Shop A) : Type 0 where
    get_wait :
        (i n : ℕ)
        → At s i Place.outside
        → s.semitems ≡ suc n
        → t ≡ record (go s i Place.get_reserved) { semitems = n }
        → Move s t
    get_no_lock : (i : ℕ) → At s i Place.get_reserved → t ≡ go s i Place.outside → Move s t
    get_lock :
        (i : ℕ) (x : A)
        → At s i Place.get_reserved
        → s.owner ≡ none
        → (take_item s.ring).0 ≡ some x
        → t ≡ take_out s i x
        → Move s t
    get_unlock :
        (i : ℕ)
        → At s i Place.get_holding
        → t ≡ record (go s i Place.get_posting) { owner = none }
        → Move s t
    get_no_unlock : (i : ℕ) → At s i Place.get_holding → t ≡ go s i Place.outside → Move s t
    get_post :
        (i : ℕ)
        → At s i Place.get_posting
        → t ≡ record (go s i Place.outside) { semslots = suc s.semslots }
        → Move s t
    get_no_post : (i : ℕ) → At s i Place.get_posting → t ≡ go s i Place.outside → Move s t
    put_wait :
        (i n : ℕ) (x : A)
        → At s i Place.outside
        → s.semslots ≡ suc n
        → t ≡ record (go s i (Place.put_reserved x)) { semslots = n }
        → Move s t
    put_no_lock :
        (i : ℕ) (x : A) → At s i (Place.put_reserved x) → t ≡ go s i Place.outside → Move s t
    put_lock :
        (i : ℕ) (x : A)
        → At s i (Place.put_reserved x)
        → s.owner ≡ none
        → t ≡ put_in s i x
        → Move s t
    put_unlock :
        (i : ℕ)
        → At s i Place.put_holding
        → t ≡ record (go s i Place.put_posting) { owner = none }
        → Move s t
    put_no_unlock : (i : ℕ) → At s i Place.put_holding → t ≡ go s i Place.outside → Move s t
    put_post :
        (i : ℕ)
        → At s i Place.put_posting
        → t ≡ record (go s i Place.outside) { semitems = suc s.semitems }
        → Move s t
    put_no_post : (i : ℕ) → At s i Place.put_posting → t ≡ go s i Place.outside → Move s t

  -- The start with `n` threads, after `bufferinit`.
  abbrev pub open_shop : ℕ → A → Shop A
  open_shop n zero_item = record {
    ring = record { buffer = replicate bufsize zero_item; bufin = 0; bufout = 0 };
    semitems = 0;
    semslots = bufsize;
    owner = none;
    threads = replicate n Place.outside;
    puts = [];
    gets = [];
  }

  pub data Reached (n : ℕ) (zero_item : A) : Shop A → Type 0 where
    opened : Reached n zero_item (open_shop n zero_item)
    after : {s t : Shop A} → Reached n zero_item s → Move s t → Reached n zero_item t
