-- ===== src/Rlogging/Laws.antt =====
-- What `lprintfgen` of appendixD/rlogging.c leaves on the connection.
use usp.Base.{
  ℕ, ◌+◌, ◌≤◌, ◌<◌, ◌≡◌, ◌⊎◌, ◌∙◌, ap, refl, sym, subst, Bool, true, false, Bool-cases, ◌||◌,
  Option, none, some, List, ◌∷◌, ◌++◌, length, length-append, take, take_all, ◌==◌, ==_iff, leb,
  inl, inr, arith,
}
use usp.Text.{decimal}
use usp.Os.{Errno, Reply, ok, fail, Os}
use usp.Restart.Laws.{Sink}
use usp.Restart.Retry.{FirstReply, returned, failed, interrupted, restart-FirstReply}
use usp.Rlogging.{
  logging_genmax, expand_gen, make_time_string, fitting, format_text, pack, strstr, times_prefix,
  message,
}
use usp.Rlogging.Message.{unpack, body_of, unpack-pack}
use usp.Rlogging.Connection.{
  Lfile, Logging, write_message, message_at, has_time, lprintfgen_to, lprintfgen,
}

fitting-some :
    (bufsize : ℕ) (text buf : List ℕ)
    → fitting bufsize (some text) ≡ some buf
    → (buf ≡ text) × (length buf < bufsize)
unfolding fitting
fitting-some bufsize text buf e = go (Bool-cases (leb bufsize (length text)))
  where
    go :
        (leb bufsize (length text) ≡ true) ⊎ (leb bufsize (length text) ≡ false)
        → (buf ≡ text) × (length buf < bufsize)
    go (inl long) = ground arith
    go (inr fits) = ground arith

pack-positive : (t g m : List ℕ) → 0 < length (pack t g m)
unfolding pack
pack-positive t g m = omega (
  arith,
  length-append (decimal (length m + length g + length t + 1)) (b':' ∷ (t ++ (g ++ (b';' ∷ m)))),
)

-- A message that fits.
abbrev pub IsMessage : ℕ → List ℕ → Type 0
IsMessage bufsize buf =
    (t : List ℕ) × (g : List ℕ) × (m : List ℕ) × (buf ≡ pack t g m) × (length buf < bufsize)

message-IsMessage :
    (bufsize pid : ℕ) (tmode : Bool) (sec usec : ℕ) (timebuf gen fmt : List ℕ)
    (vsnprintf : List ℕ → Option (List ℕ)) (buf : List ℕ)
    → message bufsize pid tmode sec usec timebuf gen fmt vsnprintf ≡ some buf
    → IsMessage bufsize buf
unfolding message
message-IsMessage bufsize pid tmode sec usec timebuf gen fmt vsnprintf buf e =
    go (format_text bufsize vsnprintf fmt timebuf (strstr b't' fmt)) refl
  where
    go :
        (r : Option (List ℕ))
        → format_text bufsize vsnprintf fmt timebuf (strstr b't' fmt) ≡ r
        → IsMessage bufsize buf
    go none run = absurd (ground arith)
    go (some text) run =
        let all = pack (times_prefix tmode sec usec) (expand_gen pid gen logging_genmax).0 text in
        let (same, fits) = fitting-some bufsize all buf (sym (rw (run, message) refl) ∙ e) in
        (times_prefix tmode sec usec, (expand_gen pid gen logging_genmax).0, text, same, fits)

module _ {os : Os} (sys : Logging os) where
  open os use {World, pipe_buf, write}
  open sys use {set_times}

  -- Reading the clock leaves the connection as it is.
  pub record Quiet (mf : Lfile) (s : Sink os mf.fd) : Type 0 where
    pub clock_ok :
        (w v : World) (t : ℕ × ℕ)
        → set_times w ≡ ok t v
        → (s.output v ≡ s.output w) × (s.patience v ≤ s.patience w)
    pub clock_fail : (w v : World) (e : Errno) → set_times w ≡ fail e v → s.output v ≡ s.output w

  module _ (mf : Lfile) (s : Sink os mf.fd) where
    open s use {output, patience}

    -- What one call of `lprintf` has done. It returned 0 with one whole message on the connection, or -1
    -- with a part of a message, perhaps none, on it.
    abbrev pub Logged : World → Option (Option (Unit {0}) × World) → Type 0
    Logged w none = ⊥
    Logged w (some (some _, v)) =
        (buf : List ℕ) × IsMessage pipe_buf buf
        × (output v ≡ output w ++ buf)
        × ((rest : List ℕ) → (body : List ℕ) × (unpack (buf ++ rest) ≡ some (body, rest)))
    Logged w (some (none, v)) =
        (output v ≡ output w)
        ⊎ ((buf : List ℕ) × (k : ℕ) × IsMessage pipe_buf buf
            × (k < length buf)
            × (output v ≡ output w ++ take k buf))

    -- One restarted `write` of `buf`, from a state with the output of `w`.
    abbrev WroteOnce : World → List ℕ → Reply World ℕ → Type 0
    WroteOnce w buf (ok k v) = (k ≤ length buf) × (output v ≡ output w ++ take k buf)
    WroteOnce w buf (fail e v) = output v ≡ output w

    FirstReply-WroteOnce :
        (w : World) (buf : List ℕ) {u : World} {r : Reply World ℕ}
        → 0 < length buf
        → output u ≡ output w
        → FirstReply (write mf.fd buf) u r
        → WroteOnce w buf r
    FirstReply-WroteOnce w buf {u} h same (returned {a} {w'} e is) =
        let (more, le, out, less) = s.write_ok buf u w' a e h in
        subst (WroteOnce w buf) (sym is) (le, out ∙ ap (λ o. o ++ take a buf) same)
    FirstReply-WroteOnce w buf {u} h same (failed {e = er} {w'} e ne is) =
        subst (WroteOnce w buf) (sym is) (s.write_fail buf u w' er e ∙ same)
    FirstReply-WroteOnce w buf {u} h same (interrupted {w'} e first) =
        FirstReply-WroteOnce w buf h (s.write_fail buf u w' Errno.eintr e ∙ same) first

    IsMessage-positive : (buf : List ℕ) → IsMessage pipe_buf buf → 0 < length buf
    IsMessage-positive buf (t, g, m, is, fits) =
        subst (λ b. 0 < length b) (sym is) (pack-positive t g m)

    IsMessage-unpack :
        (buf rest : List ℕ)
        → IsMessage pipe_buf buf
        → (body : List ℕ) × (unpack (buf ++ rest) ≡ some (body, rest))
    IsMessage-unpack buf rest (t, g, m, is, fits) =
        (body_of t g m, ap (λ b. unpack (b ++ rest)) is ∙ unpack-pack t g m rest)

    write_message-Logged :
        (fuel : ℕ) (w u : World) (text : Option (List ℕ))
        → ((buf : List ℕ) → text ≡ some buf → IsMessage pipe_buf buf)
        → output u ≡ output w
        → patience u < fuel
        → Logged w (write_message sys fuel mf.fd text u)
    unfolding write_message
    write_message-Logged fuel w u none m same h = inl same
    write_message-Logged fuel w u (some buf) m same h =
        let is = m buf refl in
        let (r, run, first) =
          restart-FirstReply (write mf.fd buf) patience (s.write_eintr buf) fuel u h in
        rw (run, write_message)
          (go is r (FirstReply-WroteOnce w buf (IsMessage-positive buf is) same first))
      where
        go :
            IsMessage pipe_buf buf
            → (r : Reply World ℕ) → WroteOnce w buf r
            → Logged w (elim r as (λ _. Option (Option (Unit {0}) × World)) [
              | ok written w' ↦ elim (written == length buf) [
                | true ↦ some (some tt, w')
                | false ↦ some (none, w')
              ]
              | fail e w' ↦ some (none, w')
            ])
        go is (fail e v) out = inl out
        go is (ok k v) (le, out) = elim (Bool-cases (k == length buf)) [
          | inl whole ↦ rw whole (
            buf,
            is,
            out
                ∙ ap (λ n. output w ++ take n buf) ((==_iff k (length buf)).0 whole)
                ∙ ap (λ b. output w ++ b) (take_all buf),
            (λ rest. IsMessage-unpack buf rest is),
          )
          | inr part ↦ rw part (inr (buf, k, is, ground arith, out))
        ]

    message_at-IsMessage :
        (gen fmt : List ℕ) (vsnprintf : List ℕ → Option (List ℕ)) (sec usec : ℕ) (buf : List ℕ)
        → message_at sys mf gen fmt vsnprintf (sec, usec) ≡ some buf
        → IsMessage pipe_buf buf
    unfolding message_at
    message_at-IsMessage gen fmt vsnprintf sec usec buf e =
        message-IsMessage pipe_buf sys.getpid mf.tmode sec usec
          (make_time_string (sys.ctime sec) (sys.fract usec)) gen fmt vsnprintf buf e

    lprintfgen_to-Logged :
        (fuel : ℕ) (gen fmt : List ℕ) (vsnprintf : List ℕ → Option (List ℕ)) (w : World)
        → Quiet mf s
        → patience w < fuel
        → Logged w (lprintfgen_to sys fuel mf gen fmt vsnprintf w)
    unfolding lprintfgen_to
    lprintfgen_to-Logged fuel gen fmt vsnprintf w q h =
        elim (Bool-cases (mf.tmode || has_time sys (strstr b't' fmt))) [
          | inr plain ↦
              rw (plain, lprintfgen_to)
                (write_message-Logged fuel w w (message_at sys mf gen fmt vsnprintf (0, 0))
                  (message_at-IsMessage gen fmt vsnprintf 0 0) refl h)
          | inl timed ↦ rw (timed, lprintfgen_to) (clock (set_times w) refl)
        ]
      where
        clock :
            (r : Reply World (ℕ × ℕ))
            → set_times w ≡ r
            → Logged w (elim r as (λ _. Option (Option (Unit {0}) × World)) [
              | fail e w' ↦ some (none, w')
              | ok t w' ↦ write_message sys fuel mf.fd (message_at sys mf gen fmt vsnprintf t) w'
            ])
        clock (fail e v) run = inl (q.clock_fail w v e run)
        clock (ok (sec, usec) v) run =
            let (same, less) = q.clock_ok w v (sec, usec) run in
            write_message-Logged fuel w v (message_at sys mf gen fmt vsnprintf (sec, usec))
              (message_at-IsMessage gen fmt vsnprintf sec usec) same (omega arith)

    -- With fuel for every interruption one call of `lprintf` ends. Where it returns 0, it has put one
    -- whole message on the connection, shorter than `PIPE_BUF`, which a receiver can cut off from
    -- whatever follows it. Otherwise it has put nothing on it, or less than a whole message.
    pub lprintfgen-Logged :
        (fuel : ℕ) (gen fmt : List ℕ) (vsnprintf : List ℕ → Option (List ℕ)) (w : World)
        → Quiet mf s
        → patience w < fuel
        → Logged w (lprintfgen sys fuel (some mf) gen fmt vsnprintf w)
    unfolding lprintfgen
    lprintfgen-Logged fuel gen fmt vsnprintf w q h =
        lprintfgen_to-Logged fuel gen fmt vsnprintf w q h
