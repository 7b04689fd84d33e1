-- ===== src/Sembarrier.antt =====
-- chapter14/sbarrierold.c: a barrier on two semaphores, used by the threads of one process, whose
-- variables they share. A step is what one thread does between two points at which another may run;
-- every call may fail. What the calls return is given.
mod Tokens
pub mod Safety
pub mod Release
mod Tests
use usp.Base.{
  Bool, true, false, ℕ, zero, suc, ◌+◌, ◌-◌, ◌≡◌, ◌==◌, ltb, if◌then◌else◌, Option, none, some,
  List, [], ◌∷◌, replicate, get_elem?, set,
}
use usp.Base.Int.{ℤ, pos, negsuc}
use usp.Os.{Errno, Code}

-- `destroynamed` of chapter14/destroynamed.c, with what `sem_close` and `sem_unlink` return.
unfoldable pub destroynamed : Code → Code → Code
destroynamed none unlinked = unlinked
destroynamed (some error) unlinked = some error

-- `destroybarrier`, with what the two calls of `destroynamed` return.
unfoldable pub destroybarrier : Code → Code → Code
destroybarrier none second = second
destroybarrier (some error) second = some error

-- Where a thread stands in `waitbarrier`: behind the statements under the lock, with `numwaiting`;
-- at `sem_wait(bwait)`; at `sem_post(bwait)`; behind it.
pub data Place : Type 0 where
  outside waiting posting passed : Place
  holding : ℕ → Place
  failed : Errno → Place

-- The variables, the values of the semaphores `block` and `bwait`, whether the pointers to them can be
-- used (they are `SEM_FAILED` after a failing `getnamed`), whether the name of `block` is still there,
-- and the threads. `arrivals` records which threads were counted, latest first.
pub record Barrier : Type 0 where
  pub barriercount : ℕ
  pub barriersize : ℕ
  pub block : ℕ
  pub bwait : ℕ
  pub block_open : Bool
  pub bwait_open : Bool
  pub named : Bool
  pub threads : List Place
  pub arrivals : List ℕ

-- `block` after `getnamed`.
unfoldable pub get_block : Code → Barrier → Barrier
get_block none b = record b { block_open = true }
get_block (some error) b = record b { block_open = false }

-- `destroynamed` of `block`, with what `sem_close` and `sem_unlink` return.
unfoldable pub destroy_block : Code → Code → Barrier → Barrier
destroy_block none none b = record b { block_open = false; named = false }
destroy_block none (some e) b = record b { block_open = false }
destroy_block (some e) none b = record b { named = false }
destroy_block (some e) (some e') b = b

-- `bwait` after `getnamed`, and the error path.
unfoldable pub get_bwait : Code → Code → Code → Barrier → Barrier
unfolding destroy_block
get_bwait none closed unlinked b = record b { bwait_open = true }
get_bwait (some error) closed unlinked b =
    destroy_block closed unlinked (record b { bwait_open = false })

-- The last part of `initbarrier` for the size `n`, behind the lock: with what the unlock returns.
unfoldable pub set_size : Code → ℕ → Barrier → Code × Barrier
set_size posted n b =
    if b.barriersize == 0
    then (posted, record b { barriersize = n })
    else if b.barriersize == n
    then (posted, b)
    else (some Errno.einval, b)

-- The lock is held for good where the unlock fails.
unfoldable pub keep_lock : Code → ℕ → Barrier → Barrier
keep_lock none block b = b
keep_lock (some e) block b = record b { block = block }

-- What the calls of one `initbarrier` return: the two of `getnamed`, `sem_close` and `sem_unlink` in
-- the error path, the lock after its interruptions, and the unlock.
pub record Calls : Type 0 where
  pub block_got : Code
  pub bwait_got : Code
  pub closed : Code
  pub unlinked : Code
  pub locked : Code
  pub posted : Code

-- `initbarrier` behind the test of its argument, without a thread between its calls.
unfoldable pub init_size : Calls → ℕ → Barrier → Code × Barrier
unfolding get_block get_bwait set_size keep_lock
init_size calls n b = elim calls.block_got [
  | some e ↦ (some e, get_block (some e) b)
  | none ↦ elim calls.bwait_got [
    | some e ↦ (some e, get_bwait (some e) calls.closed calls.unlinked (get_block none b))
    | none ↦
        let b' : Barrier = get_bwait none calls.closed calls.unlinked (get_block none b) in
        elim calls.locked [
          | some e ↦ (some e, b')
          | none ↦
              let r : Code × Barrier = set_size calls.posted n b' in
              (r.0, keep_lock calls.posted (b.block - 1) r.1)
        ]
  ]
]

unfoldable pub initbarrier : Calls → ℤ → Barrier → Code × Barrier
unfolding init_size
initbarrier calls (negsuc n) b = (some Errno.einval, b)
initbarrier calls (pos zero) b = (some Errno.einval, b)
initbarrier calls (pos (suc n)) b = init_size calls (suc n) b

abbrev pub At : Barrier → ℕ → Place → Type 0
At b i p = get_elem? b.threads i ≡ some p

abbrev pub go : Barrier → ℕ → Place → Barrier
go b i p = record b { threads = set b.threads i p }

-- The statements of `waitbarrier` under the lock.
unfoldable pub count_in : Barrier → ℕ → Barrier
count_in b i = record (go b i (Place.holding (b.barriercount + 1))) {
  barriercount = b.barriercount + 1;
  arrivals = i ∷ b.arrivals;
}

-- Where a thread goes on behind the unlock.
unfoldable pub next_place : ℕ → ℕ → Place
next_place numwaiting thesize = if ltb numwaiting thesize then Place.waiting else Place.posting

-- A step of a thread. A `sem_wait` that is interrupted changes nothing, and one that has begun may
-- end after the pointer was lost. The parts of `initbarrier` that other threads can come between are
-- steps of their own, for any thread; once its error path has removed the name of `block`, `initbarrier`
-- is not called again.
pub data Step (b : Barrier) (c : Barrier) : Type 0 where
  lock :
      (i n : ℕ)
      → At b i Place.outside
      → b.block ≡ suc n
      → c ≡ record (count_in b i) { block = n }
      → Step b c
  no_lock : (i : ℕ) (e : Errno) → At b i Place.outside → c ≡ go b i (Place.failed e) → Step b c
  unlock :
      (i k : ℕ)
      → At b i (Place.holding k)
      → b.block_open ≡ true
      → c ≡ record (go b i (next_place k b.barriersize)) { block = suc b.block }
      → Step b c
  no_unlock :
      (i k : ℕ) (e : Errno) → At b i (Place.holding k) → c ≡ go b i (Place.failed e) → Step b c
  wait :
      (i n : ℕ)
      → At b i Place.waiting
      → b.bwait ≡ suc n
      → c ≡ record (go b i Place.posting) { bwait = n }
      → Step b c
  no_wait : (i : ℕ) (e : Errno) → At b i Place.waiting → c ≡ go b i (Place.failed e) → Step b c
  post :
      (i : ℕ)
      → At b i Place.posting
      → b.bwait_open ≡ true
      → c ≡ record (go b i Place.passed) { bwait = suc b.bwait }
      → Step b c
  no_post : (i : ℕ) (e : Errno) → At b i Place.posting → c ≡ go b i (Place.failed e) → Step b c
  again : (i : ℕ) → At b i Place.passed → c ≡ go b i Place.outside → Step b c
  getting_block : (got : Code) → b.named ≡ true → c ≡ get_block got b → Step b c
  getting_bwait : (got closed unlinked : Code) → c ≡ get_bwait got closed unlinked b → Step b c
  setting :
      (posted : Code) (n k : ℕ)
      → b.block ≡ suc k
      → c ≡ keep_lock posted k (set_size posted n b).1
      → Step b c

-- The start with `threads` threads, behind a call of `initbarrier` for the size `n` that has created
-- both semaphores.
abbrev pub fresh : ℕ → ℕ → Barrier
fresh threads n =
    (initbarrier
      (record {
        block_got = none;
        bwait_got = none;
        closed = none;
        unlinked = none;
        locked = none;
        posted = none;
      })
      (pos n)
      (record {
        barriercount = 0;
        barriersize = 0;
        block = 1;
        bwait = 0;
        block_open = false;
        bwait_open = false;
        named = true;
        threads = replicate threads Place.outside;
        arrivals = [];
      })).1

pub data Reached (threads : ℕ) (n : ℕ) : Barrier → Type 0 where
  opened : Reached threads n (fresh threads n)
  after : {b c : Barrier} → Reached threads n b → Step b c → Reached threads n c
