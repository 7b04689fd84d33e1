-- ===== src/AtomicLog/Tests.antt =====
-- The theorems on the atomic log at concrete inputs.
use usp.Base.{refl, true, [], ◌∷◌, arith}
use usp.Base.Int.{pos}
use usp.Restart.Demo.{machine, sink, Machine}
use usp.AtomicLog.{Log, atomic_log_send}
use usp.AtomicLog.Laws.{Sent, atomic_log_send-Sent}

abbrev two_entries : Log
two_entries = record {
  fd = pos 4;
  entries = record { entry = 104 ∷ []; len = 1 } ∷ record { entry = 105 ∷ []; len = 1 } ∷ [];
}

abbrev start : Machine
start = record { input = []; output = 1 ∷ []; signals = 1 }

atomic_log_send-Sent_example :
    Sent two_entries (sink (pos 4)) start true (atomic_log_send machine 2 true two_entries start)
atomic_log_send-Sent_example =
    atomic_log_send-Sent two_entries (sink (pos 4)) 2 true start (refl, (refl, tt)) (omega arith)
