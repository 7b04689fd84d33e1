-- ===== src/Buffer.antt =====
-- The bounded buffer of chapter16. `getitem` and `putitem` of chapter16/buffer.c are here; what the
-- mutex calls return is given to them. The monitor of chapter16/bufferconddone.c is in `Monitor`,
-- and the versions with semaphores are in `Semaphores`.
pub mod Refine
pub mod Monitor
pub mod Semaphores
mod Tests
use usp.Base.{ℕ, ◌+◌, ◌-◌, ◌%◌, Option, none, some, List, get_elem?, set, ltb, if◌then◌else◌}
use usp.Os.{Errno, Code, or_code}

abbrev pub bufsize : ℕ
bufsize = 8

-- `buffer`, `bufin`, `bufout` and `totalitems`; an item is only moved.
pub record Buffer (A : Type 0) : Type 0 where
  pub buffer : List A
  pub bufin : ℕ
  pub bufout : ℕ
  pub totalitems : ℕ

module _ {A : Type 0} where
  -- The three statements that remove an item, and the item read (`none` out of range).
  unfoldable pub remove_item : Buffer A → Option A × Buffer A
  remove_item b = (
    get_elem? b.buffer b.bufout,
    record b { bufout = (b.bufout + 1) % bufsize; totalitems = b.totalitems - 1 },
  )

  unfoldable pub insert_item : Buffer A → A → Buffer A
  insert_item b item = record b {
    buffer = set b.buffer b.bufin item;
    bufin = (b.bufin + 1) % bufsize;
    totalitems = b.totalitems + 1;
  }

  -- `locked` and `unlocked` are what the mutex calls return. The second part of the result is what
  -- `*itemp` is set to, if it is set.
  unfoldable pub getitem : Code → Code → Buffer A → Code × Option A × Buffer A
  unfolding remove_item
  getitem (some error) unlocked b = (some error, none, b)
  getitem none unlocked b =
      if ltb 0 b.totalitems
      then (let (item, b') = remove_item b in (or_code unlocked none, item, b'))
      else (or_code unlocked (some Errno.eagain), none, b)

  unfoldable pub putitem : Code → Code → Buffer A → A → Code × Buffer A
  unfolding insert_item
  putitem (some error) unlocked b item = (some error, b)
  putitem none unlocked b item =
      if ltb b.totalitems bufsize
      then (or_code unlocked none, insert_item b item)
      else (or_code unlocked (some Errno.eagain), b)
