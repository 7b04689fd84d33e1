-- ===== src/Sembarrier/Tokens.antt =====
-- The invariant of the barrier on semaphores: `bwait` and the threads that owe it a post.
use usp.Base.{
  Bool, true, false, Bool-cases, ◌==◌, ℕ, suc, ◌+◌, ◌≤◌, ◌<◌, ◌≡◌, inl, inr, ap, none, some, length,
  total, total-set, total-get_elem?, get_elem?-set, arith,
}
use usp.Os.{Code}
use usp.Sembarrier.{
  get_block, destroy_block, get_bwait, set_size, keep_lock, Place, Barrier, At, go, count_in,
}

abbrev pub hold_share : Place → ℕ
hold_share (Place.holding k) = 1
hold_share _ = 0

-- The thread is to post `bwait`, or has just been counted.
abbrev pub owing : Place → ℕ
owing (Place.holding k) = 1
owing Place.posting = 1
owing _ = 0

abbrev pub lost : Place → ℕ
lost (Place.failed e) = 1
lost _ = 0

-- The thread is past the wait.
abbrev pub past : Place → ℕ
past Place.posting = 1
past Place.passed = 1
past _ = 0

-- With `n` arrivals there is a post that is done or owed, unless a thread that failed owed it.
pub record Tokens (n : ℕ) (b : Barrier) : Type 0 where
  pub size : b.barriersize ≡ n
  pub counted : b.barriercount ≡ length b.arrivals
  pub exclusive : b.block + total hold_share b.threads ≤ 1
  pub holders : (i k : ℕ) → At b i (Place.holding k) → k ≡ b.barriercount
  pub full : 0 < b.bwait + total past b.threads → n ≤ b.barriercount
  pub token : n ≤ b.barriercount → 0 < b.bwait + total owing b.threads + total lost b.threads

-- Thread `i` goes on, under the conditions that its step has to satisfy.
pub go-Tokens :
    {n : ℕ} {b : Barrier} (i : ℕ) (p q : Place) (block bwait : ℕ)
    → Tokens n b
    → At b i p
    → block + hold_share q ≤ b.block + hold_share p
    → hold_share q ≡ 0
    → (b.bwait + past p < bwait + past q → n ≤ b.barriercount)
    → (n ≤ b.barriercount → b.bwait + owing p + lost p ≤ bwait + owing q + lost q)
    → Tokens n (record (go b i q) { block = block; bwait = bwait })
go-Tokens {n} {b} i p q block bwait t at locks quiet grows keeps = record {
  size = t.size;
  counted = t.counted;
  exclusive = omega (arith, t.exclusive, total-set hold_share b.threads i p q at);
  holders = (λ j k e. elim (get_elem?-set b.threads i j (Place.holding k) q e) [
    | inl same ↦ absurd (omega (arith, ap hold_share same, quiet))
    | inr old ↦ t.holders j k old
  ]);
  full = (λ h. ground (arith, h, grows, t.full, total-set past b.threads i p q at));
  token = (λ h. omega (
    arith,
    keeps h,
    t.token h,
    total-set owing b.threads i p q at,
    total-set lost b.threads i p q at,
  ));
}

pub count_in-Tokens :
    {n : ℕ} {b : Barrier} (i m : ℕ)
    → Tokens n b
    → At b i Place.outside
    → b.block ≡ suc m
    → Tokens n (record (count_in b i) { block = m })
unfolding count_in
count_in-Tokens {n} {b} i m t at free = record {
  size = t.size;
  counted = omega (arith, t.counted);
  exclusive = omega (
    arith,
    t.exclusive,
    total-set hold_share b.threads i Place.outside (Place.holding (b.barriercount + 1)) at,
  );
  holders = (λ j k e.
      elim (get_elem?-set b.threads i j (Place.holding k) (Place.holding (b.barriercount + 1)) e) [
        | inl same ↦ ground (arith, same)
        | inr old ↦ absurd (
            omega
              (arith, t.exclusive, total-get_elem? hold_share b.threads j (Place.holding k) old))
      ]);
  full = (λ h. omega (
    arith,
    t.full (
        omega (
          arith,
          total-set past b.threads i Place.outside (Place.holding (b.barriercount + 1)) at,
        )),
  ));
  token = (λ h.
      omega
        (arith, total-set owing b.threads i Place.outside (Place.holding (b.barriercount + 1)) at));
}

-- The pointers count for nothing here.
flags-Tokens :
    {n : ℕ} {b : Barrier} (x y z : Bool)
    → Tokens n b
    → Tokens n (record b { block_open = x; bwait_open = y; named = z })
flags-Tokens x y z t = record {
  size = t.size;
  counted = t.counted;
  exclusive = t.exclusive;
  holders = t.holders;
  full = t.full;
  token = t.token;
}

pub get_block-Tokens : {n : ℕ} {b : Barrier} (got : Code) → Tokens n b → Tokens n (get_block got b)
unfolding get_block
get_block-Tokens {b = b} none t = flags-Tokens true b.bwait_open b.named t
get_block-Tokens {b = b} (some e) t = flags-Tokens false b.bwait_open b.named t

pub get_bwait-Tokens :
    {n : ℕ} {b : Barrier} (got closed unlinked : Code)
    → Tokens n b
    → Tokens n (get_bwait got closed unlinked b)
unfolding get_bwait destroy_block
get_bwait-Tokens {b = b} none c u t = flags-Tokens b.block_open true b.named t
get_bwait-Tokens {b = b} (some e) none none t = flags-Tokens false false false t
get_bwait-Tokens {b = b} (some e) none (some e') t = flags-Tokens false false b.named t
get_bwait-Tokens {b = b} (some e) (some e') none t = flags-Tokens b.block_open false false t
get_bwait-Tokens {b = b} (some e) (some e') (some e'') t = flags-Tokens b.block_open false b.named t

-- A size that is set stays.
pub set_size-Tokens :
    {n : ℕ} {b : Barrier} (posted : Code) (m : ℕ)
    → 0 < n
    → Tokens n b
    → Tokens n (set_size posted m b).1
unfolding set_size
set_size-Tokens {n} {b} posted m u t = elim (Bool-cases (b.barriersize == 0)) [
  | inl unset ↦ absurd (ground (arith, unset, t.size))
  | inr set_before ↦
      rw set_before
        (elim (Bool-cases (b.barriersize == m)) [ inl same ↦ rw same t | inr other ↦ rw other t ])
]

pub keep_lock-Tokens :
    {n : ℕ} {b : Barrier} (posted : Code) (k : ℕ)
    → k ≤ b.block
    → Tokens n b
    → Tokens n (keep_lock posted k b)
unfolding keep_lock
keep_lock-Tokens none k le t = t
keep_lock-Tokens (some e) k le t = record {
  size = t.size;
  counted = t.counted;
  exclusive = omega (arith, t.exclusive);
  holders = t.holders;
  full = t.full;
  token = t.token;
}

-- `set_size` leaves the lock.
pub set_size-block : (posted : Code) (m : ℕ) (b : Barrier) → (set_size posted m b).1.block ≡ b.block
unfolding set_size
set_size-block posted m b = ground arith
