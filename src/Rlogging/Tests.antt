-- ===== src/Rlogging/Tests.antt =====
-- The theorems on rlogging.c on a small system, with a format without arguments.
use usp.Base.{◌≡◌, refl, true, false, some, [], arith}
use usp.Base.Int.{pos}
use usp.Os.{ok}
use usp.Restart.Demo.{Machine, machine, sink}
use usp.Text.{codes}
use usp.Rlogging.{expand_gen, expanded, pack}
use usp.Rlogging.Generator.{pid_tid, Expanded, expand_gen-Expanded}
use usp.Rlogging.Connection.{Lfile, Logging, lprintfgen}
use usp.Rlogging.Laws.{Quiet, Logged, lprintfgen-Logged}

expand_gen-Expanded_example : Expanded (codes "a71b1") 6 (expand_gen 71 (codes "a%pb%t") 6)
unfolding usp.Text.decimal
expand_gen-Expanded_example =
    expand_gen-Expanded 71 (pid_tid (codes "a") (codes "b") []) 6 ((refl, tt), (refl, tt), tt)
      (omega arith)

-- The text of the generator.
expand_gen_run : expand_gen 71 (codes "main %p") 50 ≡ (codes "main 71", false)
unfolding expand_gen usp.Rlogging.strstr usp.Text.decimal
expand_gen_run = refl

abbrev logging : Logging machine
logging = record {
  getpid = 71;
  set_times = λ w. ok (9, 5) w;
  ctime = λ sec. codes "Thu Jan  1 00:00:09 1970";
  fract = λ usec. codes "0.000";
  pipe = λ w. ok (pos 4, pos 5) w;
  fork = λ w. ok 72 w;
}

abbrev log : Lfile
log = record { id = 0; fd = pos 1; tmode = true; gen = codes "g" }

abbrev idle : Machine
idle = record { input = []; output = []; signals = 1 }

quiet : Quiet logging log (sink (pos 1))
quiet = record {
  clock_ok = λ w v t e. (ground arith, ground arith);
  clock_fail = λ w v er e. absurd (ground arith);
}

lprintfgen-Logged_example :
    Logged logging log
      (sink (pos 1))
      idle
      (lprintfgen logging 2 (some log) (codes "g") (codes "up") (λ f. some f) idle)
lprintfgen-Logged_example =
    lprintfgen-Logged logging log (sink (pos 1)) 2 (codes "g") (codes "up") (λ f. some f) idle quiet
      (omega arith)
