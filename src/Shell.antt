-- ===== src/Shell.antt =====
-- How the shells of chapter11 run a line: parseandredirect.c, executeredirect.c, and the three versions
-- of `executecmd` in executecmdsimple.c, executecmdredirect.c and executecmdpipe.c. A process ends in
-- `execvp` or in `exit`; what it prints is left out, but for the error that it prints.
pub mod Laws
pub mod Redirect
pub mod Plan
pub mod Execute
pub mod Pipeline
pub mod Order
pub mod Demo
mod Tests
use usp.Base.{
  ℕ, suc, ◌+◌, ◌<◌, Bool, true, false, not, ◌&&◌, Option, none, some, List, [], ◌∷◌, length, ◌==◌,
  ltb, if◌then◌else◌,
}
use usp.Base.Int.{ℤ, pos}
use usp.Os.{Errno, Reply, ok, fail, Os}
use usp.Text.{codes, strtok}
use usp.Makeargv.{Made, failed, made, makeargv}

-- `strchr`: what stands before and behind the first `c`.
unfoldable pub strchr : ℕ → List ℕ → Option (List ℕ × List ℕ)
strchr c [] = none
strchr c (d ∷ s) = elim (d == c) [
  | true ↦ some ([], s)
  | false ↦ elim (strchr c s) [ none ↦ none | some p ↦ some (d ∷ p.0, p.1) ]
]

abbrev pub blanks : List ℕ
blanks = codes " \t"

-- `fork` gives the world of the child and that of the parent: a world is what one process sees. The
-- rest are constants, and whether the two calls of `malloc` in `makeargv` succeed for a string.
pub record Processes (os : Os) : Type 1 where
  pub pipe : os.World → Reply os.World (ℤ × ℤ)
  pub fork : os.World → Reply os.World os.World
  pub o_rdonly : ℕ
  pub fflag : ℕ
  pub fmode : ℕ
  pub copy_granted : List ℕ → Bool
  pub array_granted : List ℕ → Bool

-- Why a process exits: a call failed, or there was no command to be found.
pub data Reason : Type 0 where
  failure : Errno → Reason
  no_command : Reason

-- How a process goes on after its part of the line: it calls `execvp`, exits, or returns.
pub data End (W : Type 0) : Type 0 where
  execvp : List (List ℕ) → W → End W
  exit : Reason → W → End W
  return : Reason → W → End W

-- The strings of an array up to NULL.
unfoldable pub strings : List (Option (List ℕ)) → List (List ℕ)
strings [] = []
strings (none ∷ a) = []
strings (some s ∷ a) = s ∷ strings a

module _ {os : Os} (sys : Processes os) where
  open os use {World, dup2, close, open2, open3}
  open sys use {pipe, fork, o_rdonly, fflag, fmode, copy_granted, array_granted}

  -- The statements after the `open` of a redirection.
  unfoldable pub redirect : Reply World ℤ → ℤ → Reply World (Unit {0})
  redirect (fail e w) target = fail e w
  redirect (ok fd w) target = elim (dup2 fd target w) [
    | ok _ w' ↦ close fd w'
    | fail e w' ↦ elim (close fd w') [ ok _ w'' ↦ fail e w'' | fail _ w'' ↦ fail e w'' ]
  ]

  -- What is left of the command, where nothing fails.
  unfoldable pub keep_command : List ℕ → Reply World (Unit {0}) → Reply World (List ℕ)
  keep_command cmd (ok _ w) = ok cmd w
  keep_command cmd (fail e w) = fail e w

  -- The common text of the two functions below: `symbol` is looked for, and `opener` is the call of
  -- `open`.
  unfoldable pub parse_and_redirect :
      ℕ → (List ℕ → World → Reply World ℤ) → ℤ → List ℕ → World → Reply World (List ℕ)
  unfolding strchr strtok redirect keep_command
  parse_and_redirect symbol opener target cmd w = elim (strchr symbol cmd) [
    | none ↦ ok cmd w
    | some (before, after) ↦ elim (strtok blanks after) [
      | none ↦ ok before w
      | some (file, rest) ↦ keep_command before (redirect (opener file w) target)
    ]
  ]

  unfoldable pub parseandredirectin : List ℕ → World → Reply World (List ℕ)
  unfolding parse_and_redirect
  parseandredirectin = parse_and_redirect b'<' (λ infile. open2 infile o_rdonly) (pos 0)

  unfoldable pub parseandredirectout : List ℕ → World → Reply World (List ℕ)
  unfolding parse_and_redirect
  parseandredirectout = parse_and_redirect b'>' (λ outfile. open3 outfile fflag fmode) (pos 1)

  -- `makeargv` with enough fuel, then `execvp` if there is an argument.
  unfoldable pub exec_array : Option Made → World → End World
  unfolding strings
  exec_array none w = exit no_command w
  exec_array (some (failed e)) w = exit (failure e) w
  exec_array (some (made n argv)) w = if ltb 0 n then execvp (strings argv) w else exit no_command w

  unfoldable pub parse_and_exec : List ℕ → List ℕ → World → End World
  unfolding exec_array makeargv
  parse_and_exec delimiters s w =
      exec_array
        (makeargv (suc (length s)) true (copy_granted s) (array_granted s) (some s)
          (some delimiters))
        w

  -- `parseandredirectin` where `inp` is set.
  unfoldable pub redirect_in : Bool → List ℕ → World → Reply World (List ℕ)
  unfolding parseandredirectin
  redirect_in false s w = ok s w
  redirect_in true s w = parseandredirectin s w

  unfoldable pub redirect_out : Bool → List ℕ → World → Reply World (List ℕ)
  unfolding parseandredirectout
  redirect_out false s w = ok s w
  redirect_out true s w = parseandredirectout s w

  -- `executeredirect` from its second test on.
  unfoldable pub execute_rest : Bool → Bool → List ℕ → World → End World
  unfolding redirect_in redirect_out parse_and_exec
  execute_rest inp outp s w = elim (redirect_out outp s w) [
    | fail e w' ↦ exit (failure e) w'
    | ok s' w' ↦ elim (redirect_in inp s' w') [
      | fail e w'' ↦ exit (failure e) w''
      | ok s'' w'' ↦ parse_and_exec blanks s'' w''
    ]
  ]

  -- `pin` and `pout` exist and `pin > pout`.
  unfoldable pub input_last : List ℕ → Bool
  unfolding strchr
  input_last s = elim (strchr b'<' s) [
    | none ↦ false
    | some i ↦ elim (strchr b'>' s) [ none ↦ false | some o ↦ ltb (length o.0) (length i.0) ]
  ]

  unfoldable pub executeredirect : List ℕ → Bool → Bool → World → End World
  unfolding input_last parseandredirectin execute_rest
  executeredirect s inp outp w = elim (inp && outp && input_last s) [
    | false ↦ execute_rest inp outp s w
    | true ↦ elim (parseandredirectin s w) [
      | fail e w' ↦ return (failure e) w'
      | ok s' w' ↦ execute_rest false outp s' w'
    ]
  ]

  -- `exit(1)` behind a call of `executeredirect`.
  unfoldable pub exit_after : End World → End World
  exit_after (return r w) = exit r w
  exit_after (execvp argv w) = execvp argv w
  exit_after (exit r w) = exit r w

  -- `dup2` of one end of the pipe and the two calls of `close`.
  unfoldable pub connect : ℤ × ℤ → ℤ → ℤ → World → Reply World (Unit {0})
  connect fds from target w = elim (dup2 from target w) [
    | fail e w' ↦ fail e w'
    | ok _ w' ↦ elim (close fds.0 w') [ fail e w'' ↦ fail e w'' | ok _ w'' ↦ close fds.1 w'' ]
  ]

  -- The parent of a round runs the command at hand.
  unfoldable pub run_parent : List ℕ → Bool → Reply World (Unit {0}) → End World
  unfolding exit_after executeredirect
  run_parent cmd first (fail e w) = exit (failure e) w
  run_parent cmd first (ok _ w) = exit_after (executeredirect cmd first false w)

  -- The loop of `executecmd` in executecmdpipe.c over the commands that are left: how each process
  -- ends, in the order of the commands. The child of a round goes on with the next one.
  unfoldable pub run_pipeline : List (List ℕ) → Bool → World → List (End World)
  unfolding connect run_parent
  run_pipeline [] first w = []
  run_pipeline (cmd ∷ []) first w = exit_after (executeredirect cmd first true w) ∷ []
  run_pipeline (cmd ∷ next ∷ cmds) first w = elim (pipe w) [
    | fail e w' ↦ exit (failure e) w' ∷ []
    | ok fds w' ↦ elim (fork w') [
      | fail e w'' ↦ exit (failure e) w'' ∷ []
      | ok child parent ↦
          run_parent cmd first (connect fds fds.1 (pos 1) parent)
          ∷ elim (connect fds fds.0 (pos 0) child) [
            | fail e v ↦ exit (failure e) v ∷ []
            | ok _ v ↦ run_pipeline (next ∷ cmds) false v
          ]
    ]
  ]

  -- `executecmd` of executecmdpipe.c.
  unfoldable pub executecmd_array : Option Made → World → List (End World)
  unfolding run_pipeline strings
  executecmd_array none w = exit no_command w ∷ []
  executecmd_array (some (failed e)) w = exit (failure e) w ∷ []
  executecmd_array (some (made count pipelist)) w =
      if ltb 0 count then run_pipeline (strings pipelist) true w else exit no_command w ∷ []

  unfoldable pub executecmd : List ℕ → World → List (End World)
  unfolding executecmd_array makeargv
  executecmd cmds w =
      executecmd_array
        (makeargv (suc (length cmds)) true (copy_granted cmds) (array_granted cmds) (some cmds)
          (some (codes "|")))
        w

  -- `executecmd` of executecmdredirect.c, and of executecmdsimple.c.
  unfoldable pub executecmd_redirect : List ℕ → World → End World
  unfolding redirect_in redirect_out parse_and_exec
  executecmd_redirect incmd w = elim (redirect_out true incmd w) [
    | fail e w' ↦ exit (failure e) w'
    | ok s w' ↦ elim (redirect_in true s w') [
      | fail e w'' ↦ exit (failure e) w''
      | ok s' w'' ↦ parse_and_exec blanks s' w''
    ]
  ]

  unfoldable pub executecmd_simple : List ℕ → World → End World
  unfolding parse_and_exec
  executecmd_simple incmd w = parse_and_exec (codes " ") incmd w
