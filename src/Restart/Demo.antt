-- ===== src/Restart/Demo.antt =====
-- A small system for the laws: one input, one output, signals that interrupt calls, reads
-- of at most three bytes and writes of at most two.
use usp.Base.{ℕ, zero, suc, ◌≤◌, ◌<◌, ◌≡◌, ◌∙◌, refl, List, [], ◌∷◌, ◌++◌, length, take, arith}
use usp.Base.Int.{ℤ, pos}
use usp.Os.{Errno, Reply, ok, fail, Os, Timeval}
use usp.Restart.Laws.{Source, Sink}
use usp.Restart.Copy.{Apart, SameInput, SameOutput}
use usp.Restart.Frame.{Leaves}

pub record Machine : Type 0 where
  pub input : List ℕ
  pub output : List ℕ
  pub signals : ℕ

abbrev pub small_read : ℕ → List ℕ → ℕ → List ℕ → Reply Machine (List ℕ)
small_read zero input zero output = ok [] (record { input = input; output = output; signals = 0 })
small_read (suc n) [] zero output = ok [] (record { input = []; output = output; signals = 0 })
small_read (suc n) (b ∷ bs) zero output =
    ok (b ∷ []) (record { input = bs; output = output; signals = 0 })
small_read n bs (suc k) output =
    fail Errno.eintr (record { input = bs; output = output; signals = k })

abbrev pub small_write : List ℕ → List ℕ → ℕ → List ℕ → Reply Machine ℕ
small_write [] input zero output = ok 0 (record { input = input; output = output; signals = 0 })
small_write (b ∷ []) input zero output =
    ok 1 (record { input = input; output = output ++ (b ∷ []); signals = 0 })
small_write (b ∷ c ∷ bs) input zero output =
    ok 2 (record { input = input; output = output ++ (b ∷ c ∷ []); signals = 0 })
small_write bs input (suc k) output =
    fail Errno.eintr (record { input = input; output = output; signals = k })

abbrev pub noon : Timeval
noon = record { tv_sec = pos 43200; tv_usec = pos 750000 }

abbrev pub machine : Os
machine = record {
  World = Machine;
  pipe_buf = 16;
  fd_setsize = 1024;
  read = λ fd n w. small_read n w.input w.signals w.output;
  write = λ fd bs w. small_write bs w.input w.signals w.output;
  close = λ fd w. ok tt w;
  dup2 = λ a b w. ok b w;
  open2 = λ p f w. ok (pos 3) w;
  open3 = λ p f m w. ok (pos 3) w;
  wait = λ w. ok (pos 100, 0) w;
  waitpid = λ p o w. ok (p, 0) w;
  gettimeofday = λ w. (noon, w);
  select = λ fds t w. ok fds w;
}

pub small_read-ok :
    (n : ℕ) (i : List ℕ) (k : ℕ) (o : List ℕ) (v : Machine) (bs : List ℕ)
    → small_read n i k o ≡ ok bs v
    → (length bs ≤ n) × (i ≡ bs ++ v.input) × (v.signals ≤ k) × (v.output ≡ o)
small_read-ok zero i zero o v bs e = ground arith
small_read-ok (suc n) [] zero o v bs e = ground arith
small_read-ok (suc n) (b ∷ i) zero o v bs e = ground arith
small_read-ok zero i (suc k) o v bs e = ground arith
small_read-ok (suc n) [] (suc k) o v bs e = ground arith
small_read-ok (suc n) (b ∷ i) (suc k) o v bs e = ground arith

pub small_read-end :
    (n : ℕ) (i : List ℕ) (k : ℕ) (o : List ℕ) (v : Machine)
    → small_read n i k o ≡ ok [] v
    → 0 < n
    → i ≡ []
small_read-end zero i zero o v e p = ground arith
small_read-end (suc n) [] zero o v e p = ground arith
small_read-end (suc n) (b ∷ i) zero o v e p = ground arith
small_read-end zero i (suc k) o v e p = ground arith
small_read-end (suc n) [] (suc k) o v e p = ground arith
small_read-end (suc n) (b ∷ i) (suc k) o v e p = ground arith

pub small_read-fail :
    (n : ℕ) (i : List ℕ) (k : ℕ) (o : List ℕ) (v : Machine) (er : Errno)
    → small_read n i k o ≡ fail er v
    → (i ≡ v.input) × (v.signals < k) × (v.output ≡ o)
small_read-fail zero i zero o v bs e = ground arith
small_read-fail (suc n) [] zero o v bs e = ground arith
small_read-fail (suc n) (b ∷ i) zero o v bs e = ground arith
small_read-fail zero i (suc k) o v bs e = ground arith
small_read-fail (suc n) [] (suc k) o v bs e = ground arith
small_read-fail (suc n) (b ∷ i) (suc k) o v bs e = ground arith

pub small_write-ok :
    (bs i : List ℕ) (k : ℕ) (o : List ℕ) (v : Machine) (n : ℕ)
    → small_write bs i k o ≡ ok n v
    → 0 < length bs
    → (0 < n) × (n ≤ length bs) × (v.output ≡ o ++ take n bs) × (v.signals ≤ k) × (v.input ≡ i)
small_write-ok [] i zero o v n e p = ground arith
small_write-ok (b ∷ []) i zero o v n e p = ground arith
small_write-ok (b ∷ c ∷ bs) i zero o v n e p = ground arith
small_write-ok [] i (suc k) o v n e p = ground arith
small_write-ok (b ∷ []) i (suc k) o v n e p = ground arith
small_write-ok (b ∷ c ∷ bs) i (suc k) o v n e p = ground arith

pub small_write-fail :
    (bs i : List ℕ) (k : ℕ) (o : List ℕ) (v : Machine) (er : Errno)
    → small_write bs i k o ≡ fail er v
    → (v.output ≡ o) × (v.signals < k) × (v.input ≡ i)
small_write-fail [] i zero o v n e = ground arith
small_write-fail (b ∷ []) i zero o v n e = ground arith
small_write-fail (b ∷ c ∷ bs) i zero o v n e = ground arith
small_write-fail [] i (suc k) o v n e = ground arith
small_write-fail (b ∷ []) i (suc k) o v n e = ground arith
small_write-fail (b ∷ c ∷ bs) i (suc k) o v n e = ground arith

abbrev pub source : (fd : ℤ) → Source machine fd
source fd = record {
  input = λ w. w.input;
  patience = λ w. w.signals;
  read_ok =
      λ n w v bs e. let r = small_read-ok n w.input w.signals w.output v bs e in (r.0, r.1, r.2);
  read_end = λ n w v e p. small_read-end n w.input w.signals w.output v e p;
  read_fail = λ n w v er e. (small_read-fail n w.input w.signals w.output v er e).0;
  read_eintr = λ n w v e. (small_read-fail n w.input w.signals w.output v Errno.eintr e).1;
}

abbrev pub sink : (fd : ℤ) → Sink machine fd
sink fd = record {
  output = λ w. w.output;
  patience = λ w. w.signals;
  write_ok = λ bs w v k e p.
      let r = small_write-ok bs w.input w.signals w.output v k e p in (r.0, r.1, r.2, r.3);
  write_fail = λ bs w v er e. (small_write-fail bs w.input w.signals w.output v er e).0;
  write_eintr = λ bs w v e. (small_write-fail bs w.input w.signals w.output v Errno.eintr e).1;
}

keeps_output :
    (u : Machine) (r : Reply Machine (List ℕ)) (w : Machine)
    → SameOutput (source (pos 0)) (sink (pos 1)) u w
    → ((bs : List ℕ) (v : Machine) → r ≡ ok bs v → (v.output ≡ w.output) × (v.signals ≤ w.signals))
    → ((er : Errno) (v : Machine) → r ≡ fail er v → (v.output ≡ w.output) × (v.signals < w.signals))
    → Leaves (SameOutput (source (pos 0)) (sink (pos 1)) u) r
keeps_output u (ok bs v) w (o, less) h k = (let h' = h bs v refl in (h'.0 ∙ o, omega (arith, h'.1)))
keeps_output u (fail er v) w (o, less) h k =
    (let k' = k er v refl in (k'.0 ∙ o, omega (arith, k'.1)))

keeps_input :
    (u : Machine) (r : Reply Machine ℕ) (w : Machine)
    → SameInput (source (pos 0)) (sink (pos 1)) u w
    → ((n : ℕ) (v : Machine) → r ≡ ok n v → (v.input ≡ w.input) × (v.signals ≤ w.signals))
    → ((er : Errno) (v : Machine) → r ≡ fail er v → (v.input ≡ w.input) × (v.signals < w.signals))
    → Leaves (SameInput (source (pos 0)) (sink (pos 1)) u) r
keeps_input u (ok n v) w (o, less) h k = (let h' = h n v refl in (h'.0 ∙ o, omega (arith, h'.1)))
keeps_input u (fail er v) w (o, less) h k =
    (let k' = k er v refl in (k'.0 ∙ o, omega (arith, k'.1)))

small_write-keeps :
    (bs i : List ℕ) (k : ℕ) (o : List ℕ) (v : Machine) (n : ℕ)
    → small_write bs i k o ≡ ok n v
    → (v.input ≡ i) × (v.signals ≤ k)
small_write-keeps [] i zero o v n e = ground arith
small_write-keeps (b ∷ []) i zero o v n e = ground arith
small_write-keeps (b ∷ c ∷ bs) i zero o v n e = ground arith
small_write-keeps [] i (suc k) o v n e = ground arith
small_write-keeps (b ∷ []) i (suc k) o v n e = ground arith
small_write-keeps (b ∷ c ∷ bs) i (suc k) o v n e = ground arith

pub apart : Apart (source (pos 0)) (sink (pos 1))
apart = record {
  reading = λ u n w p.
      keeps_output u (machine.read (pos 0) n w) w p
        (λ bs v e. let r = small_read-ok n w.input w.signals w.output v bs e in (r.3, r.2))
        (λ er v e. let r = small_read-fail n w.input w.signals w.output v er e in (r.2, r.1));
  writing = λ u bs w p.
      keeps_input u (machine.write (pos 1) bs w) w p
        (λ n v e. small_write-keeps bs w.input w.signals w.output v n e)
        (λ er v e. let r = small_write-fail bs w.input w.signals w.output v er e in (r.2, r.1));
}
