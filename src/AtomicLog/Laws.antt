-- ===== src/AtomicLog/Laws.antt =====
-- The bytes that the log of appendixD/atomic_logger.c holds, and what logging and sending do to them.
use usp.Base.{
  ℕ, ◌+◌, ◌≤◌, ◌<◌, ◌≡◌, ◌⊎◌, ◌∙◌, ap, ap₂, refl, sym, subst, Bool, true, false, Bool-cases, Option,
  none, some, List, [], ◌∷◌, ◌++◌, length, take, take_all, length-append, append-nil, append_assoc,
  All, All-append, inl, inr, ◌==◌, ==_iff, if◌then◌else◌, arith, eq_nil,
}
use usp.Os.{Errno, Reply, ok, fail, Os}
use usp.Restart.Laws.{Sink}
use usp.Restart.Retry.{FirstReply, returned, failed, interrupted, restart-FirstReply}
use usp.AtomicLog.{
  Entry, Log, insert_new_entry, get_length, get_length_loop, clear, is_closed, atomic_log_array,
  gather, my_write, atomic_log_send,
}

-- The message that the log holds: the entries behind one another.
abbrev pub message : List Entry → List ℕ
message [] = []
message (e ∷ es) = e.entry ++ message es

-- Each entry is as long as it says.
abbrev pub IsMeasured : List Entry → Type 0
IsMeasured = All (λ e. length e.entry ≡ e.len)

message-append : (es : List Entry) (e : Entry) → message (es ++ (e ∷ [])) ≡ message es ++ e.entry
message-append [] e = append-nil e.entry
message-append (d ∷ es) e =
    ap (λ l. d.entry ++ l) (message-append es e) ∙ sym (append_assoc d.entry (message es) e.entry)

gather-message : (es : List Entry) (buf : List ℕ) → gather es buf ≡ buf ++ message es
unfolding gather
gather-message [] buf = sym (append-nil buf)
gather-message (e ∷ es) buf =
    gather-message es (buf ++ e.entry) ∙ append_assoc buf e.entry (message es)

get_length_loop-message :
    (es : List Entry) (len : ℕ) → IsMeasured es → get_length_loop es len ≡ len + length (message es)
unfolding get_length_loop
get_length_loop-message [] len m = omega arith
get_length_loop-message (e ∷ es) len (me, m) =
    get_length_loop-message es (len + e.len) m ∙ omega (arith, length-append e.entry (message es))

-- Logging an array adds its bytes to the message, or changes nothing.
abbrev pub Logged : Bool → List ℕ → Log → Reply Log (Unit {0}) → Type 0
Logged granted s l (ok _ l') =
    (l'.fd ≡ l.fd) × (message l'.entries ≡ message l.entries ++ s) × IsMeasured l'.entries
Logged granted s l (fail e l') =
    (l' ≡ l)
    × (((e ≡ Errno.einval) × (is_closed l ≡ true)) ⊎ ((e ≡ Errno.enomem) × (granted ≡ false)))

-- Logging an array adds its bytes to the end of the message and keeps the lengths right, or changes
-- nothing and fails: with EINVAL for a closed log, with ENOMEM where memory is refused.
pub atomic_log_array-Logged :
    (granted : Bool) (s : List ℕ) (l : Log)
    → IsMeasured l.entries
    → Logged granted s l (atomic_log_array granted s l)
unfolding atomic_log_array
atomic_log_array-Logged granted s l m = elim (Bool-cases (is_closed l)) [
  | inl closed ↦ rw closed (refl, inl (refl, closed))
  | inr opened ↦ rw opened (go granted)
]
  where
    go :
        (granted : Bool)
        → Logged granted s l
            (elim (insert_new_entry granted (record { entry = s; len = length s }) l) [
              | none ↦ fail Errno.enomem l
              | some l' ↦ ok tt l'
            ])
    go false = (refl, inr (refl, refl))
    go true = (refl, message-append l.entries _, All-append _ l.entries _ m (refl, tt))

module _ {os : Os} (l : Log) (s : Sink os l.fd) where
  open os use {World}
  open s use {output, patience}

  -- A call of `write` took `k` bytes and left `w`, or took none and failed.
  abbrev pub LastWrite : ℕ → World → Type 0
  LastWrite k w =
      (u : World) × (buf : List ℕ) × ((os.write l.fd buf u ≡ ok k w)
        ⊎ ((k ≡ 0) × ((e : Errno) × (os.write l.fd buf u ≡ fail e w))))

  -- What `atomic_log_send` has done. On success the whole message is in the file and the log is
  -- empty, or as before where the message is empty; an error keeps the log. EAGAIN says that at most a part of the message was written.
  abbrev pub Sent : World → Bool → Option (Reply (Log × World) (Unit {0})) → Type 0
  Sent w granted none = ⊥
  Sent w granted (some (ok _ (l', w'))) =
      (l'.fd ≡ l.fd)
      × ((l'.entries ≡ []) ⊎ ((l' ≡ l) × (message l.entries ≡ [])))
      × (output w' ≡ output w ++ message l.entries)
  Sent w granted (some (fail e (l', w'))) =
      (l' ≡ l)
      × (((e ≡ Errno.einval) × (is_closed l ≡ true) × (w' ≡ w))
          ⊎ ((e ≡ Errno.enomem) × (granted ≡ false) × (w' ≡ w))
          ⊎ ((e ≡ Errno.eagain)
              × ((k : ℕ) × (output w' ≡ output w ++ take k (message l.entries))
                  × (k < length (message l.entries))
                  × LastWrite k w')))

  -- One restarted write of a nonempty buffer.
  abbrev OneWrite : World → List ℕ → Reply World ℕ → Type 0
  OneWrite w buf (ok n w') =
      (n ≤ length buf) × (output w' ≡ output w ++ take n buf) × LastWrite n w'
  OneWrite w buf (fail e w') = (output w' ≡ output w) × LastWrite 0 w'

  FirstReply-OneWrite :
      (buf : List ℕ) {w : World} {r : Reply World ℕ}
      → 0 < length buf
      → FirstReply (os.write l.fd buf) w r
      → OneWrite w buf r
  FirstReply-OneWrite buf {w} some_bytes (returned {a} {w'} e same) =
      let law = s.write_ok buf w w' a e some_bytes in
      subst (OneWrite w buf) (sym same) (law.1, law.2, (w, buf, inl e))
  FirstReply-OneWrite buf {w} some_bytes (failed {e = er} {w'} e ne same) =
      subst (OneWrite w buf) (sym same) (s.write_fail buf w w' er e, (w, buf, inr (refl, (er, e))))
  FirstReply-OneWrite buf {w} {r} some_bytes (interrupted {w'} e first) =
      later r (FirstReply-OneWrite buf some_bytes first)
    where
      same : output w' ≡ output w
      same = s.write_fail buf w w' Errno.eintr e

      later : (r : Reply World ℕ) → OneWrite w' buf r → OneWrite w buf r
      later (ok n v) (le, out, last) = (le, out ∙ ap (λ o. o ++ take n buf) same, last)
      later (fail er v) (out, last) = (out ∙ same, last)

  length-message : IsMeasured l.entries → get_length l ≡ length (message l.entries)
  unfolding get_length
  length-message m = get_length_loop-message l.entries 0 m ∙ omega arith

  -- The reply to the write, turned into the reply of `atomic_log_send`.
  OneWrite-Sent :
      (w : World) (granted : Bool) (r : Reply World ℕ)
      → IsMeasured l.entries
      → 0 < length (message l.entries)
      → OneWrite w (gather l.entries []) r
      → Sent w granted (elim r [
        | fail e w' ↦ some (fail Errno.eagain (l, w'))
        | ok n w' ↦
            if n == get_length l
            then some (ok tt (clear l, w'))
            else some (fail Errno.eagain (l, w'))
      ])
  unfolding clear
  OneWrite-Sent w granted (fail e w') m long (out, last) =
      (refl, inr (inr (refl, (0, out ∙ sym (append-nil _), long, last))))
  OneWrite-Sent w granted (ok n w') m long (le, out, last) = elim (Bool-cases (n == get_length l)) [
    | inl whole ↦ rw whole (
      refl,
      inl refl,
      out
          ∙ ap (λ b. output w ++ b)
              (ap₂ take ((==_iff _ _).0 whole ∙ length-message m) (gather-message l.entries [])
                ∙ take_all _),
    )
    | inr part ↦ rw part (
      refl,
      inr (
          inr (
            refl,
            (
              n,
              out ∙ ap (λ b. output w ++ take n b) (gather-message l.entries []),
              ground (arith, length-message m, ap length (gather-message l.entries [])),
              last,
            ),
          )),
    )
  ]

  -- With entries whose `len` is their length and fuel for every interruption `atomic_log_send` ends. On
  -- success the file has the whole message more, and the log is empty, but entries that have no bytes
  -- between them all stay in it; an error keeps the log: EINVAL, for
  -- a closed log, and ENOMEM, where memory is refused, write nothing; with EAGAIN the one `write` failed
  -- or took only a part of the message.
  pub atomic_log_send-Sent :
      (fuel : ℕ) (granted : Bool) (w : World)
      → IsMeasured l.entries
      → patience w < fuel
      → Sent w granted (atomic_log_send os fuel granted l w)
  unfolding atomic_log_send my_write
  atomic_log_send-Sent fuel granted w m h = elim (Bool-cases (is_closed l)) [
    | inl closed ↦ rw closed (refl, inl (refl, closed, refl))
    | inr opened ↦ rw opened (elim (Bool-cases (get_length l == 0)) [
      | inl empty ↦
          let none_left : message l.entries ≡ [] =
            eq_nil _ (sym (length-message m) ∙ (==_iff _ _).0 empty) in
          rw empty
            (refl, inr (refl, none_left), sym (ap (λ b. output w ++ b) none_left ∙ append-nil _))
      | inr some_bytes ↦ rw some_bytes (elim (Bool-cases granted) [
        | inl room ↦
            let (r, run, first) =
              restart-FirstReply (os.write l.fd (gather l.entries [])) patience
                (s.write_eintr (gather l.entries [])) fuel w h in
            let long : 0 < length (gather l.entries []) =
              ground (arith, length-message m, ap length (gather-message l.entries [])) in
            rw room (
              rw run (
                OneWrite-Sent w true r m (ground (arith, length-message m))
                  (FirstReply-OneWrite (gather l.entries []) long first)))
        | inr no_room ↦ rw no_room (refl, inr (inl (refl, refl, refl)))
      ])
    ])
  ]
