-- ===== src/Restart/Copy.antt =====
-- `readwrite` and `copyfile` of appendixB/restart.c, from a source to a sink that is another file.
use usp.Base.{
  ℕ, zero, suc, ◌+◌, ◌≤◌, ◌<◌, ◌≡◌, ◌⊎◌, ◌∙◌, ap, refl, sym, Option, none, some, List, [], ◌++◌,
  length, inl, inr, Bool-cases, take, append-nil, append_assoc, length-append, arith, ltb, eq_nil,
  ◌==◌, ==_iff,
}
use usp.Base.Int.{ℤ}
use usp.Os.{Errno, Reply, ok, fail, Os}
use usp.Restart.{r_read, readwrite, copyfile, copyfile_loop}
use usp.Restart.Laws.{ReadFailed, WriteFailed, Source, Sink}
use usp.Restart.Retry.{DidRead, r_read_lem}
use usp.Restart.Write.{Wrote, r_write_lem}
use usp.Restart.Frame.{Leaves, Ends, r_read-Ends, r_write-Ends}

module _ {os : Os} {fromfd tofd : ℤ} (s : Source os fromfd) (t : Sink os tofd) where
  open os use {World, pipe_buf}
  open s use {input}
  open t use {output}

  -- The sink is as at `w`.
  abbrev pub SameOutput : World → World → Type 0
  SameOutput w v = (output v ≡ output w) × (t.patience v ≤ t.patience w)

  abbrev pub SameInput : World → World → Type 0
  SameInput w v = (input v ≡ input w) × (s.patience v ≤ s.patience w)

  -- The descriptors do not share a file: using one has no effect on the other.
  pub record Apart : Type 0 where
    pub reading :
        (u : World) (n : ℕ) (w : World)
        → SameOutput u w
        → Leaves (SameOutput u) (os.read fromfd n w)
    pub writing :
        (u : World) (bs : List ℕ) (w : World)
        → SameInput u w
        → Leaves (SameInput u) (os.write tofd bs w)

  -- The error `e` comes from a `read` or a `write` that was not interrupted and left `w`.
  abbrev pub Failed : Errno → World → Type 0
  Failed e w = ReadFailed os fromfd e w ⊎ WriteFailed os tofd e w

  -- What `readwrite` has done: it moved `bs`, or failed with bytes read of which it wrote a part.
  abbrev pub Moved : World → Option (Reply World ℕ) → Type 0
  Moved w none = ⊥
  Moved w (some (ok n w')) =
      (bs : List ℕ) × (n ≡ length bs)
      × (input w ≡ bs ++ input w')
      × (output w' ≡ output w ++ bs)
      × (s.patience w' ≤ s.patience w)
      × (t.patience w' ≤ t.patience w)
      × (n ≡ 0 → input w ≡ [])
  Moved w (some (fail e w')) =
      (lost : List ℕ) × (k : ℕ) × Failed e w'
      × (input w ≡ lost ++ input w')
      × (output w' ≡ output w ++ take k lost)

  module _ (apart : Apart) where
    Moved-write :
        (calls : ℕ) (w v : World) (buf : List ℕ)
        → (input w ≡ buf ++ input v) × (s.patience v ≤ s.patience w)
        → SameOutput w v
        → 0 < length buf
        → (r : Option (Reply World ℕ)) → Wrote t v buf 0 r
        → Ends (SameInput v) r
        → Moved w (elim r [
          | none ↦ none
          | some (fail e w'') ↦ some (fail e w'')
          | some (ok n w'') ↦ some (ok (length buf) w'')
        ])
    Moved-write calls w v buf (split, less) (out, less') pos none x i = x
    Moved-write calls w v buf (split, less) (out, less') pos (some (ok n w'')) (count, put, down)
          (i, down') =
        (
          buf,
          refl,
          split ∙ ap (λ l. buf ++ l) (sym i),
          put ∙ ap (λ o. o ++ buf) out,
          omega arith,
          omega arith,
          (λ z. absurd (omega arith)),
        )
    Moved-write calls w v buf (split, less) (out, less') pos (some (fail e w'')) (ne, (k, lt, put))
          (i, down') =
        (buf, k, inr ne, split ∙ ap (λ l. buf ++ l) (sym i), put ∙ ap (λ o. o ++ take k buf) out)

    -- Under the same laws `readwrite` ends: it moves the bytes of one read, none only at the end of the
    -- input, or fails with an error of `read` or of `write`, no interruption, having written a part of
    -- what it read.
    pub readwrite-Moved :
        (calls : ℕ) (w : World)
        → 0 < pipe_buf
        → pipe_buf + s.patience w + t.patience w < calls
        → Moved w (readwrite os calls fromfd tofd w)
    unfolding readwrite
    readwrite-Moved calls w room h =
        go (r_read os calls fromfd pipe_buf w) refl (r_read_lem s calls pipe_buf w (omega arith)) (
          r_read-Ends os (SameOutput w) fromfd pipe_buf (apart.reading w pipe_buf) calls w
            (refl, omega arith))
      where
        go :
            (r : Option (Reply World (List ℕ)))
            → r_read os calls fromfd pipe_buf w ≡ r
            → DidRead s w pipe_buf r
            → Ends (SameOutput w) r
            → Moved w (readwrite os calls fromfd tofd w)
        go none e x o = absurd x
        go (some (fail er v)) e (ne, same) (o, down) =
            rw (e, readwrite) ([], 0, inl ne, same, o ∙ sym (append-nil _))
        go (some (ok buf v)) e (le, split, end, down) o = elim (Bool-cases (length buf == 0)) [
          | inl none_read ↦
              let empty : buf ≡ [] = eq_nil buf ((==_iff _ _).0 none_read) in
              rw (e, readwrite)
                (rw (none_read, readwrite)
                  (
                    [],
                    refl,
                    split ∙ ap (λ l. l ++ input v) empty,
                    o.0 ∙ sym (append-nil _),
                    down,
                    o.1,
                    (λ z. end empty room),
                  ))
          | inr some_read ↦
              rw (e, readwrite)
                (rw (some_read, readwrite)
                  (Moved-write calls w v buf (split, down) o (ground arith) _
                    (r_write_lem t calls buf v (omega (arith, o.1)))
                    (r_write-Ends os (SameInput v) tofd (apart.writing v) calls buf v
                      (refl, omega arith))))
        ]

    -- What `copyfile` has done: `n` bytes went over. The whole input did, or a call failed, which lost the bytes `lost` after writing some of them.
    abbrev pub Copied : ℕ → World → Option (ℕ × World) → Type 0
    Copied total w none = ⊥
    Copied total w (some (n, w')) =
        (bs : List ℕ) × (lost : List ℕ) × (k : ℕ) × (n ≡ total + length bs)
        × (input w ≡ bs ++ (lost ++ input w'))
        × (output w' ≡ output w ++ (bs ++ take k lost))
        × (((lost ≡ []) × (input w' ≡ [])) ⊎ ((e : Errno) × Failed e w'))

    Copied-more :
        (total n : ℕ) (w v : World) (r : Option (ℕ × World))
        → Moved w (some (ok n v))
        → Copied (total + n) v r
        → Copied total w r
    Copied-more total n w v none moved x = x
    Copied-more total n w v (some (m, w')) (cs, len, split, out, _, _, _)
          (bs, lost, k, count, i, o, d) =
        (
          cs ++ bs,
          lost,
          k,
          omega (arith, length-append cs bs),
          split ∙ ap (λ l. cs ++ l) i ∙ sym (append_assoc cs bs (lost ++ input w')),
          o ∙ (rw (out, append_assoc, append_assoc)),
          d,
        )

    copyfile_loop-Copied :
        (fuel calls total : ℕ) (w : World)
        → 0 < pipe_buf
        → pipe_buf + s.patience w + t.patience w < calls
        → length (input w) < fuel
        → Copied total w (copyfile_loop os fuel calls fromfd tofd total w)
    unfolding copyfile_loop
    copyfile_loop-Copied zero calls total w room h k = absurd (omega arith)
    copyfile_loop-Copied (suc fuel) calls total w room h k =
        go (copyfile_loop-Copied fuel calls) (readwrite os calls fromfd tofd w) refl
          (readwrite-Moved calls w room h)
      where
        go :
            ((total' : ℕ) (v : World)
              → 0 < pipe_buf
              → pipe_buf + s.patience v + t.patience v < calls
              → length (input v) < fuel
              → Copied total' v (copyfile_loop os fuel calls fromfd tofd total' v))
            → (r : Option (Reply World ℕ)) → readwrite os calls fromfd tofd w ≡ r
            → Moved w r
            → Copied total w (copyfile_loop os (suc fuel) calls fromfd tofd total w)
        go ih none e x = absurd x
        go ih (some (fail er v)) e (lost, j, ne, split, out) =
            rw (e, copyfile_loop) ([], lost, j, omega arith, split, out, inr (er, ne))
        go ih (some (ok n v)) e (cs, len, split, out, down, down', end) =
            elim (Bool-cases (ltb 0 n)) [
              | inl more ↦
                  rw (e, copyfile_loop)
                    (rw (more, copyfile_loop)
                      (Copied-more total n w v _ (cs, len, split, out, down, down', end)
                        (ih (total + n) v room (omega arith)
                          (ground (arith, ap length split, length-append cs (input v))))))
              | inr none_read ↦
                  let none_left = end (ground arith) in
                  let empty : cs ≡ [] = eq_nil cs (ground arith) in
                  let left : input v ≡ [] =
                    ap (λ l. l ++ input v) (sym empty) ∙ sym split ∙ none_left in
                  rw (e, copyfile_loop)
                    (rw (none_read, copyfile_loop)
                      (
                        [],
                        [],
                        0,
                        omega arith,
                        none_left ∙ sym left,
                        out ∙ ap (λ l. output w ++ l) empty,
                        inl (refl, left),
                      ))
            ]

    -- Where `read` and `write` keep their laws and each leaves the other side alone, PIPE_BUF is positive,
    -- and the fuel covers the input and, for each call, the interruptions, `copyfile` ends. It returns the
    -- number of bytes that it read and wrote, in order, and it stops when the input is at its end or when
    -- a `read` or a `write` failed, not by an interruption; then bytes may be lost that were read and not
    -- all written.
    pub copyfile-Copied :
        (fuel calls : ℕ) (w : World)
        → 0 < pipe_buf
        → pipe_buf + s.patience w + t.patience w < calls
        → length (input w) < fuel
        → Copied 0 w (copyfile os fuel calls fromfd tofd w)
    unfolding copyfile
    copyfile-Copied fuel calls w room h k = copyfile_loop-Copied fuel calls 0 w room h k
