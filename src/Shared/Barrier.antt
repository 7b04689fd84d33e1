-- ===== src/Shared/Barrier.antt =====
-- chapter13/tbarrier.c: threads wait at a barrier until `limit` of them have arrived. A step is what
-- one thread does between two points at which another may run; a condition variable may wake a
-- thread at any time.
use usp.Base.{
  ℕ, ◌⊎◌, ◌≢◌, ◌+◌, ◌≤◌, ◌<◌, ◌≡◌, refl, sym, subst, Bool-cases, none, some, List, [], ◌∷◌, length,
  ltb, ◌==◌, ==_iff, if◌then◌else◌, inl, inr, arith,
}
use usp.Os.{Errno, Code}

-- Where a thread stands with respect to `waitbarrier`: in the wait; woken, before the test of the
-- loop; returned, with 0 or with an error.
pub data Place : Type 0 where
  outside waiting woken passed : Place
  failed : Errno → Place

-- `count` and `limit`, the threads, and which of them arrived, latest first.
pub record Barrier : Type 0 where
  pub count : ℕ
  pub limit : ℕ
  pub place : ℕ → Place
  pub arrivals : List ℕ

abbrev pub put_at : (ℕ → Place) → ℕ → Place → ℕ → Place
put_at f i p j = if i == j then p else f j

-- `initbarrier`: what its mutex calls return, and `n`, which is not negative.
unfoldable pub initbarrier : Code → Code → ℕ → Barrier → Code × Barrier
initbarrier (some e) unlocked n b = (some e, b)
initbarrier none unlocked n b =
    if b.limit == 0 then (unlocked, record b { limit = n }) else (some Errno.einval, b)

-- `pthread_cond_broadcast`: every thread that waits is woken.
unfoldable pub wake_all : (ℕ → Place) → ℕ → Place
wake_all f j = elim (f j) as (λ _. Place) [
  | waiting ↦ woken
  | outside ↦ outside
  | woken ↦ woken
  | passed ↦ passed
  | failed e ↦ failed e
]

-- `waitbarrier` in thread `i` from the test of its loop on, up to a wait or to the end, with what the
-- broadcast and the unlock return.
unfoldable pub continue : Code → Code → ℕ → Barrier → Barrier
unfolding wake_all
continue told unlocked i b =
    if ltb b.count b.limit then record b { place = put_at b.place i waiting } else elim told [
      | some e ↦ record b { place = put_at b.place i (failed e) }
      | none ↦ record b {
        place = put_at (wake_all b.place) i (elim unlocked [ none ↦ passed | some e ↦ failed e ]);
      }
    ]

-- The first part of `waitbarrier` in thread `i`, with what the lock, the broadcast and the unlock
-- return.
unfoldable pub arrive : Code → Code → Code → ℕ → Barrier → Barrier
unfolding continue
arrive (some e) told unlocked i b = record b { place = put_at b.place i (failed e) }
arrive none told unlocked i b =
    if b.limit == 0
    then record b { place = put_at b.place i (failed Errno.einval) }
    else continue told unlocked i (record b { count = b.count + 1; arrivals = i ∷ b.arrivals })

pub data Step (b c : Barrier) : Type 0 where
  initialise : (locked unlocked : Code) (n : ℕ) → c ≡ (initbarrier locked unlocked n b).1 → Step b c
  arriving :
      (locked told unlocked : Code) (i : ℕ)
      → b.place i ≡ outside
      → c ≡ arrive locked told unlocked i b
      → Step b c
  spurious :
      (i : ℕ) → b.place i ≡ waiting → c ≡ record b { place = put_at b.place i woken } → Step b c
  running :
      (told unlocked : Code) (i : ℕ) → b.place i ≡ woken → c ≡ continue told unlocked i b → Step b c
  wait_fails :
      (i : ℕ) (e : Errno)
      → b.place i ≡ waiting
      → c ≡ record b { place = put_at b.place i (failed e) }
      → Step b c
  again :
      (i : ℕ) → b.place i ≡ passed → c ≡ record b { place = put_at b.place i outside } → Step b c

abbrev pub fresh : Barrier
fresh = record { count = 0; limit = 0; place = λ i. outside; arrivals = [] }

pub data Reach : Barrier → Type 0 where
  start : Reach fresh
  later : {b c : Barrier} → Reach b → Step b c → Reach c

-- A thread that waits has reason to, or a thread failed that may have owed it a broadcast.
abbrev Held : Barrier → Type 0
Held b = (b.count < b.limit) ⊎ ((j : ℕ) × (e : Errno) × (b.place j ≡ failed e))

record Inv (b : Barrier) : Type 0 where
  counted : b.count ≡ length b.arrivals
  unset : b.limit ≡ 0 → b.count ≡ 0
  waits : (i : ℕ) → (b.place i ≡ waiting) ⊎ (b.place i ≡ woken) → 0 < b.limit
  held : (i : ℕ) → b.place i ≡ passed → (0 < b.limit) × (b.limit ≤ b.count)
  stay : (i : ℕ) → b.place i ≡ waiting → Held b

initbarrier-Inv : (b : Barrier) (l u : Code) (n : ℕ) → Inv b → Inv (initbarrier l u n b).1
unfolding initbarrier
initbarrier-Inv b (some e) u n inv = inv
initbarrier-Inv b none u n inv = elim (Bool-cases (b.limit == 0)) [
  | inl first ↦ rw first (record {
    counted = inv.counted;
    unset = (λ _. inv.unset ((==_iff _ _).0 first));
    waits = (λ i p. absurd (ground (arith, first, inv.waits i p)));
    held = (λ i p. absurd (ground (arith, first, inv.held i p)));
    stay = (λ i p. absurd (ground (arith, first, inv.waits i (inl p))));
  })
  | inr set ↦ rw set inv
]

wake_all-ne_waiting : (f : ℕ → Place) (j : ℕ) → wake_all f j ≢ waiting
unfolding wake_all
wake_all-ne_waiting f j e = ground arith

wake_all-woken : (f : ℕ → Place) (j : ℕ) → wake_all f j ≡ woken → (f j ≡ waiting) ⊎ (f j ≡ woken)
unfolding wake_all
wake_all-woken f j e = ground arith

wake_all-passed : (f : ℕ → Place) (j : ℕ) → wake_all f j ≡ passed → f j ≡ passed
unfolding wake_all
wake_all-passed f j e = ground arith

-- From the test of the loop on, in a thread that is in neither wait.
continue-Inv :
    (told unlocked : Code) (i : ℕ) (b : Barrier)
    → b.count ≡ length b.arrivals
    → 0 < b.limit
    → ((j : ℕ) → b.place j ≡ passed → b.limit ≤ b.count)
    → Inv (continue told unlocked i b)
unfolding continue
continue-Inv told unlocked i b counted set held = elim (Bool-cases (ltb b.count b.limit)) [
  | inl less ↦ rw less (record {
    counted = counted;
    unset = (λ z. absurd (omega arith));
    waits = (λ j p. set);
    held = (λ j p. ground (arith, held j));
    stay = λ j p. inl (ground arith);
  })
  | inr enough ↦ rw enough (go (ground arith) told unlocked)
]
  where
    go :
        b.limit ≤ b.count
        → (told unlocked : Code)
        → Inv (elim told as (λ _. Barrier) [
          | some e ↦ record b { place = put_at b.place i (failed e) }
          | none ↦ record b {
            place =
                put_at
                  (wake_all b.place)
                  i
                  (elim unlocked as (λ _. Place) [ none ↦ passed | some e ↦ failed e ]);
          }
        ])
    go full (some e) u = record {
      counted = counted;
      unset = (λ z. absurd (omega arith));
      waits = (λ j p. set);
      held = (λ j p. ground (arith, held j));
      stay = λ j p. inr (i, e, ground arith);
    }
    go full none none = record {
      counted = counted;
      unset = (λ z. absurd (omega arith));
      waits = (λ j p. set);
      held = (λ j p. ground (arith, full));
      stay = λ j p. absurd (ground (arith, wake_all-ne_waiting b.place j));
    }
    go full none (some e) = record {
      counted = counted;
      unset = (λ z. absurd (omega arith));
      waits = (λ j p. set);
      held = (λ j p. ground (arith, held j, wake_all-passed b.place j));
      stay = λ j p. absurd (ground (arith, wake_all-ne_waiting b.place j));
    }

-- A thread that is put elsewhere is not one that has failed.
Held-put :
    (b : Barrier) (i : ℕ) (p : Place)
    → ((e : Errno) → b.place i ≢ failed e)
    → Held b
    → Held (record b { place = put_at b.place i p })
Held-put b i p fine (inl less) = inl less
Held-put b i p fine (inr (j, e, bad)) = inr (j, e, ground (arith, fine e))

arrive-Inv :
    (locked told unlocked : Code) (b : Barrier) (i : ℕ)
    → b.place i ≡ outside
    → Inv b
    → Inv (arrive locked told unlocked i b)
unfolding arrive
arrive-Inv (some e) told unlocked b i at inv = record {
  counted = inv.counted;
  unset = inv.unset;
  waits = (λ j p. ground (arith, inv.waits j));
  held = (λ j p. ground (arith, inv.held j));
  stay = λ j p. inr (i, e, ground arith);
}
arrive-Inv none told unlocked b i at inv = elim (Bool-cases (b.limit == 0)) [
  | inl first ↦ rw first (record {
    counted = inv.counted;
    unset = inv.unset;
    waits = (λ j p. ground (arith, inv.waits j));
    held = (λ j p. ground (arith, inv.held j));
    stay = λ j p. inr (i, Errno.einval, ground arith);
  })
  | inr set ↦ rw set (
      continue-Inv told unlocked i (record b { count = b.count + 1; arrivals = i ∷ b.arrivals })
        (omega (arith, inv.counted)) (ground arith) (λ j p. omega (arith, inv.held j p)))
]

Step-Inv : {b c : Barrier} → Step b c → Inv b → Inv c
Step-Inv {b} (initialise l u n e) inv = subst Inv (sym e) (initbarrier-Inv b l u n inv)
Step-Inv {b} (arriving l t u i p e) inv = subst Inv (sym e) (arrive-Inv l t u b i p inv)
Step-Inv {b} (spurious i p e) inv = subst Inv (sym e) (record {
  counted = inv.counted;
  unset = inv.unset;
  waits = (λ j q. ground (arith, inv.waits j, inv.waits i));
  held = (λ j q. ground (arith, inv.held j));
  stay = λ j q. Held-put b i woken (λ e. ground arith) (inv.stay i p);
})
Step-Inv {b} (running t u i p e) inv =
    subst Inv (sym e)
      (continue-Inv t u i b inv.counted (inv.waits i (inr p)) (λ j q. (inv.held j q).1))
Step-Inv {b} (wait_fails i er p e) inv = subst Inv (sym e) (record {
  counted = inv.counted;
  unset = inv.unset;
  waits = (λ j q. ground (arith, inv.waits j));
  held = (λ j q. ground (arith, inv.held j));
  stay = λ j q. inr (i, er, ground arith);
})
Step-Inv {b} (again i p e) inv = subst Inv (sym e) (record {
  counted = inv.counted;
  unset = inv.unset;
  waits = (λ j q. ground (arith, inv.waits j));
  held = (λ j q. ground (arith, inv.held j));
  stay = λ j q. Held-put b i outside (λ e. ground arith) (inv.stay j (ground arith));
})

Reach-Inv : {b : Barrier} → Reach b → Inv b
Reach-Inv start = record {
  counted = refl;
  unset = (λ _. refl);
  waits = (λ i p. ground arith);
  held = (λ i p. cc);
  stay = λ i p. cc;
}
Reach-Inv (later r st) = Step-Inv st (Reach-Inv r)

-- No thread passes the barrier before it is initialised and `limit` arrivals were made.
pub passed-arrivals :
    {b : Barrier}
    → Reach b
    → (i : ℕ) → b.place i ≡ passed
    → (0 < b.limit) × (b.limit ≤ length b.arrivals)
passed-arrivals r i p = let inv = Reach-Inv r in omega (arith, inv.held i p, inv.counted)

-- In every reachable state in which `limit` arrivals were made and no thread has failed, no thread is
-- asleep in its wait: each that has not left `waitbarrier` was woken, and when it runs it passes. So no
-- wake-up is lost.
pub woken_when_full :
    {b : Barrier}
    → Reach b
    → ((j : ℕ) (e : Errno) → b.place j ≢ failed e)
    → b.limit ≤ length b.arrivals
    → (i : ℕ) → (b.place i ≡ waiting) ⊎ (b.place i ≡ woken)
    → (b.place i ≡ woken) × ((continue none none i b).place i ≡ passed)
unfolding continue
woken_when_full {b} r none_failed full i place = (
  elim place [ inl asleep ↦ absurd (awake (inv.stay i asleep)) | inr up ↦ up ],
  ground (arith, inv.counted),
)
  where
    inv : Inv b
    inv = Reach-Inv r

    awake : Held b → ⊥
    awake (inl less) = omega (arith, inv.counted)
    awake (inr (j, e, bad)) = none_failed j e bad
