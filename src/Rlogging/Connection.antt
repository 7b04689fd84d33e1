-- ===== src/Rlogging/Connection.antt =====
-- The functions of appendixD/rlogging.c on a connection. A result of -1 or NULL is `none`; what the
-- code prints on standard error is left out.
use usp.Base.{
  ℕ, zero, suc, ◌+◌, Bool, true, false, ◌||◌, Option, none, some, List, [], ◌∷◌, length, ◌==◌, ltb,
  leb, if◌then◌else◌,
}
use usp.Base.Int.{ℤ}
use usp.Os.{Reply, ok, fail, Os}
use usp.Restart.{restart, r_read, r_write}
use usp.Net.{Net}
use usp.Uici.{u_connect}
use usp.Text.{codes}
use usp.Rlogging.{strstr, make_time_string, message}

abbrev pub lfile_genlength : ℕ
lfile_genlength = 16

-- `LFILE`
pub record Lfile : Type 0 where
  pub id : ℕ
  pub fd : ℤ
  pub tmode : Bool
  pub gen : List ℕ

-- `set_times` is `gettimeofday` as two numbers, `ctime` and `fract` are the printed forms of the
-- seconds and of the fraction, and `fork` gives the parent the process number of the child.
pub record Logging (os : Os) : Type 1 where
  pub getpid : ℕ
  pub set_times : os.World → Reply os.World (ℕ × ℕ)
  pub ctime : ℕ → List ℕ
  pub fract : ℕ → List ℕ
  pub pipe : os.World → Reply os.World (ℤ × ℤ)
  pub fork : os.World → Reply os.World ℕ

-- The system after a call whose result is not looked at.
abbrev pub after : {W A : Type 0} → Reply W A → W
after (ok a w) = w
after (fail e w) = w

module _ {os : Os} (sys : Logging os) where
  open os use {World, pipe_buf, write, close}
  open sys use {getpid, set_times, ctime, fract, pipe, fork}

  -- The child of `go_through_pipe`.
  unfoldable pub readwriteall : ℕ → ℕ → ℤ → ℤ → World → Option World
  readwriteall zero calls infd outfd w = none
  readwriteall (suc fuel) calls infd outfd w = elim (r_read os calls infd pipe_buf w) [
    | none ↦ none
    | some (fail e w') ↦ some (after (close outfd (after (close infd w'))))
    | some (ok buf w') ↦ elim (ltb 0 (length buf)) [
      | false ↦ some (after (close outfd (after (close infd w'))))
      | true ↦ elim (r_write os calls outfd buf w') [
        | none ↦ none
        | some (fail e w'') ↦ some (after (close outfd (after (close infd w''))))
        | some (ok n w'') ↦ elim (n == length buf) [
          | true ↦ readwriteall fuel calls infd outfd w''
          | false ↦ some (after (close outfd (after (close infd w''))))
        ]
      ]
    ]
  ]

  -- `go_through_pipe` in the parent.
  unfoldable pub go_through_pipe : Lfile → World → Lfile × World
  go_through_pipe mf w = elim (pipe w) [
    | fail e w' ↦ (mf, w')
    | ok fds w' ↦ elim (fork w') [
      | fail e w'' ↦ (mf, after (close fds.1 (after (close fds.0 w''))))
      | ok childpid w'' ↦ (record mf { fd = fds.1 }, after (close mf.fd (after (close fds.0 w''))))
    ]
  ]

  -- The write of a message.
  unfoldable pub write_message :
      ℕ → ℤ → Option (List ℕ) → World → Option (Option (Unit {0}) × World)
  write_message fuel fd none w = some (none, w)
  write_message fuel fd (some buf) w = elim (restart fuel (write fd buf) w) [
    | none ↦ none
    | some (fail e w') ↦ some (none, w')
    | some (ok written w') ↦ elim (written == length buf) [
      | true ↦ some (some tt, w')
      | false ↦ some (none, w')
    ]
  ]

  -- The message at the time `sec` and `usec`.
  unfoldable pub message_at :
      Lfile → List ℕ → List ℕ → (List ℕ → Option (List ℕ)) → ℕ × ℕ → Option (List ℕ)
  unfolding message make_time_string
  message_at mf gen fmt vsnprintf (sec, usec) =
      message pipe_buf getpid mf.tmode sec usec (make_time_string (ctime sec) (fract usec)) gen fmt
        vsnprintf

  -- `(strstr(fmt, "%t") != NULL)`
  unfoldable pub has_time : Option (List ℕ × List ℕ) → Bool
  has_time none = false
  has_time (some p) = true

  unfoldable pub lprintfgen_to :
      ℕ
      → Lfile
      → List ℕ
      → List ℕ
      → (List ℕ → Option (List ℕ))
      → World
      → Option (Option (Unit {0}) × World)
  unfolding write_message message_at has_time
  lprintfgen_to fuel mf gen fmt vsnprintf w = elim (mf.tmode || has_time (strstr b't' fmt)) [
    | false ↦ write_message fuel mf.fd (message_at mf gen fmt vsnprintf (0, 0)) w
    | true ↦ elim (set_times w) [
      | fail e w' ↦ some (none, w')
      | ok t w' ↦ write_message fuel mf.fd (message_at mf gen fmt vsnprintf t) w'
    ]
  ]

  unfoldable pub lprintfgen :
      ℕ
      → Option Lfile
      → List ℕ
      → List ℕ
      → (List ℕ → Option (List ℕ))
      → World
      → Option (Option (Unit {0}) × World)
  unfolding lprintfgen_to
  lprintfgen fuel none gen fmt vsnprintf w = some (none, w)
  lprintfgen fuel (some mf) gen fmt vsnprintf w = lprintfgen_to fuel mf gen fmt vsnprintf w

  unfoldable pub lprintf :
      ℕ
      → Option Lfile
      → List ℕ
      → (List ℕ → Option (List ℕ))
      → World
      → Option (Option (Unit {0}) × World)
  unfolding lprintfgen_to
  lprintf fuel none fmt vsnprintf w = some (none, w)
  lprintf fuel (some mf) fmt vsnprintf w = lprintfgen_to fuel mf mf.gen fmt vsnprintf w

  unfoldable pub lprintfg :
      ℕ
      → Option Lfile
      → List ℕ
      → List ℕ
      → (List ℕ → Option (List ℕ))
      → World
      → Option (Option (Unit {0}) × World)
  unfolding lprintfgen_to
  lprintfg fuel none gen fmt vsnprintf w = some (none, w)
  lprintfg fuel (some mf) gen fmt vsnprintf w = lprintfgen_to fuel mf gen fmt vsnprintf w

  unfoldable pub lclose : Option Lfile → World → Option (Unit {0}) × World
  lclose none w = (none, w)
  lclose (some mf) w = (some tt, after (close mf.fd w))

  -- The log with its new mode, and the result.
  unfoldable pub lsendtime :
      ℕ → Option Lfile → World → Option (Option Lfile × Option (Unit {0}) × World)
  lsendtime fuel none w = some (none, none, w)
  lsendtime fuel (some mf) w = elim (r_write os fuel mf.fd (b'-' ∷ []) w) [
    | none ↦ none
    | some (fail e w') ↦ some (some (record mf { tmode = true }), none, w')
    | some (ok n w') ↦ some (some (record mf { tmode = true }), some tt, w')
  ]

  -- `lopen` on the connection `fd`, where `granted` is whether `malloc` succeeds.
  unfoldable pub opened : Bool → ℤ → ℕ → World → Option Lfile × ℕ × World
  unfolding go_through_pipe
  opened false fd next_id w = (none, next_id, w)
  opened true fd next_id w =
      let (mf, w') =
        go_through_pipe (record { id = next_id; fd = fd; tmode = false; gen = [] }) w in
      (some mf, next_id + 1, w')

  -- The environment gives LOGGINGHOST, and LOGGINGPORT as a number. The result has `nextID` after it.
  unfoldable pub lopen :
      Net os
      → ℕ
      → Bool
      → Option (List ℕ)
      → Option ℕ
      → Option (List ℕ)
      → ℕ
      → ℕ
      → World
      → Option (Option Lfile × ℕ × World)
  unfolding opened
  lopen net fuel granted logginghost loggingport host port next_id w =
      elim (u_connect net fuel (port_or loggingport port) (host_or logginghost host) w) [
        | none ↦ none
        | some (fail e w') ↦ some (none, next_id, w')
        | some (ok fd w') ↦ some (opened granted fd next_id w')
      ]
    where
      host_or : Option (List ℕ) → Option (List ℕ) → List ℕ
      host_or env (some host) = host
      host_or (some host) none = host
      host_or none none = codes "localhost"

      port_or : Option ℕ → ℕ → ℕ
      port_or env (suc port) = suc port
      port_or (some port) zero = port
      port_or none zero = 20100

-- `lgenerator`: the log after it and whether it returned 0, or `none` where `strlen` reads through
-- NULL.
unfoldable pub lgenerator : Option Lfile → Option (List ℕ) → Option (Option Lfile × Bool)
lgenerator none gen = some (none, false)
lgenerator (some mf) none = none
lgenerator (some mf) (some gen) =
    if leb lfile_genlength (length gen)
    then some (some mf, false)
    else some (some (record mf { gen = gen }), true)
