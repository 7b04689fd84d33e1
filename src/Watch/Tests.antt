-- ===== src/Watch/Tests.antt =====
-- The theorem on `monitorselect` for a small system, in which `select` is interrupted by signals.
use usp.Base.{
  ℕ, zero, suc, ◌+◌, ◌≤◌, ◌<◌, ◌≡◌, refl, true, some, List, [], ◌∷◌, ◌++◌, length, arith,
}
use usp.Base.Int.{ℤ, pos, negsuc}
use usp.Os.{Errno, Reply, ok, fail, Os}
use usp.Restart.Demo.{Machine, machine, small_read-ok, small_read-fail}
use usp.Watch.{fd_isset, monitorselect}
use usp.Watch.Endings.{hits, Endings}
use usp.Watch.Select.{Monitored, monitorselect-Monitored}

-- The first descriptor of the set is ready, when no signal comes.
abbrev first_ready : List ℤ → ℕ → List ℕ → List ℕ → Reply Machine (List ℤ)
first_ready fds (suc k) input output =
    fail Errno.eintr (record { input = input; output = output; signals = k })
first_ready [] zero input output =
    fail (Errno.other 22) (record { input = input; output = output; signals = 0 })
first_ready (negsuc n ∷ fds) zero input output = first_ready fds zero input output
first_ready (pos n ∷ fds) zero input output =
    ok (pos n ∷ []) (record { input = input; output = output; signals = 0 })

abbrev selecting : Os
selecting = record machine { select = λ fds t w. first_ready fds w.signals w.input w.output }

abbrev echo : List ℕ → Machine → Machine
echo bs w = record w { output = w.output ++ bs }

hits_self : (n : ℕ) (fds : List ℤ) → hits (pos n ∷ []) (pos n ∷ fds) ≡ true
unfolding fd_isset
hits_self n fds = ground arith

first_ready-ok :
    (fds : List ℤ) (k : ℕ) (i o : List ℕ) (s : List ℤ) (v : Machine)
    → first_ready fds k i o ≡ ok s v
    → (length v.input + v.signals ≤ length i + k) × (0 < length s) × (hits s fds ≡ true)
first_ready-ok fds (suc k) i o s v e = ground arith
first_ready-ok [] zero i o s v e = ground arith
first_ready-ok (negsuc n ∷ fds) zero i o s v e = first_ready-ok fds zero i o s v e
first_ready-ok (pos n ∷ fds) zero i o s v e = ground (arith, hits_self n fds)

first_ready-fail :
    (fds : List ℤ) (k : ℕ) (i o : List ℕ) (er : Errno) (v : Machine)
    → first_ready fds k i o ≡ fail er v
    → (length v.input + v.signals ≤ length i + k)
first_ready-fail fds (suc k) i o er v e = ground arith
first_ready-fail [] zero i o er v e = ground arith
first_ready-fail (negsuc n ∷ fds) zero i o er v e = first_ready-fail fds zero i o er v e
first_ready-fail (pos n ∷ fds) zero i o er v e = ground arith

first_ready-eintr :
    (fds : List ℤ) (k : ℕ) (i o : List ℕ) (v : Machine)
    → first_ready fds k i o ≡ fail Errno.eintr v
    → (length v.input + v.signals < length i + k)
first_ready-eintr fds (suc k) i o v e = ground arith
first_ready-eintr [] zero i o v e = ground arith
first_ready-eintr (negsuc n ∷ fds) zero i o v e = first_ready-eintr fds zero i o v e
first_ready-eintr (pos n ∷ fds) zero i o v e = ground arith

endings : Endings selecting echo
endings = record {
  left = λ w. length w.input + w.signals;
  read_ok = λ fd n w v bs e. ground (arith, small_read-ok n w.input w.signals w.output v bs e);
  read_fail = λ fd n w v er e. ground (arith, small_read-fail n w.input w.signals w.output v er e);
  read_eintr =
      λ fd n w v e. ground (arith, small_read-fail n w.input w.signals w.output v Errno.eintr e);
  close_ok = λ fd w v e. ground arith;
  close_fail = λ fd w v er e. ground arith;
  close_eintr = λ fd w v e. ground arith;
  select_ok = λ fds s w v e. first_ready-ok fds w.signals w.input w.output s v e;
  select_fail = λ fds w v er e. first_ready-fail fds w.signals w.input w.output er v e;
  select_eintr = λ fds w v e. first_ready-eintr fds w.signals w.input w.output v e;
  docommand_law = λ bs w. omega arith;
}

abbrev start : Machine
start = record { input = 104 ∷ 105 ∷ []; output = []; signals = 2 }

monitorselect-Monitored_example :
    Monitored Machine 1024
      (pos 3 ∷ pos 5 ∷ [])
      start
      (monitorselect selecting echo 9 9 (pos 3 ∷ pos 5 ∷ []) start)
unfolding endings
monitorselect-Monitored_example =
    monitorselect-Monitored endings 9 9 (pos 3 ∷ pos 5 ∷ []) start (omega arith) (omega arith)

-- Both descriptors are closed, and the input is copied.
monitorselect_run :
    monitorselect selecting echo 9 9 (pos 3 ∷ pos 5 ∷ []) start
    ≡ some (pos 3 ∷ pos 5 ∷ [], record { input = []; output = 104 ∷ 105 ∷ []; signals = 0 })
unfolding monitorselect usp.Watch.watch usp.Restart.r_read usp.Restart.restart usp.Restart.r_close
monitorselect_run = refl
