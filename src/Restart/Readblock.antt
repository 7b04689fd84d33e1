-- ===== src/Restart/Readblock.antt =====
-- `readblock` of appendixB/restart.c: a block of the size that is asked for.
use usp.Base.{
  ℕ, zero, suc, ◌+◌, ◌-◌, ◌≤◌, ◌<◌, ◌≡◌, ◌⊎◌, ◌∙◌, ap, refl, sym, subst, Option, none, some, List,
  [], ◌++◌, length, inl, inr, Bool-cases, length-append, append-nil, append_assoc, arith, ltb,
  ltb→lt, eq_nil, ◌==◌, ==_iff,
}
use usp.Base.Int.{ℤ}
use usp.Os.{Errno, is_eintr, Reply, ok, fail, Os}
use usp.Restart.{readblock, readblock_loop}
use usp.Restart.Laws.{ReadFailed, Source, Reply-cases, is_eintr-eq, is_eintr-ne}

module _ {os : Os} {fd : ℤ} (s : Source os fd) where
  open os use {World}
  open s use {input, patience}

  -- Why `readblock` fails with `e` after reading `n` bytes: `read` failed, or the input ended.
  abbrev pub Stopped : Errno → World → ℕ → Type 0
  Stopped e w n = ReadFailed os fd e w ⊎ ((e ≡ Errno.einval) × (input w ≡ []) × (0 < n))

  Stopped-eq : {e : Errno} {w : World} {m n : ℕ} → m ≡ n → Stopped e w m → Stopped e w n
  Stopped-eq {e} {w} same stop = subst (Stopped e w) same stop

  -- What the loop has done when it stops, started at `w` with `togo` bytes to read. On success `bs`
  -- are the bytes that it added to the buffer; on failure `bs` are those that were read and lost.
  abbrev pub Loop : World → ℕ → ℕ → List ℕ → Option (Reply World (ℕ × List ℕ)) → Type 0
  Loop w togo total buf none = ⊥
  Loop w togo total buf (some (ok (n, out) w')) =
      (bs : List ℕ) × (out ≡ buf ++ bs)
      × (input w ≡ bs ++ input w')
      × (patience w' ≤ patience w)
      × (((n ≡ total + togo) × (length bs ≡ togo))
          ⊎ ((n ≡ 0) × (total ≡ 0) × (0 < togo) × (bs ≡ []) × (input w ≡ [])))
  Loop w togo total buf (some (fail e w')) =
      (bs : List ℕ) × Stopped e w' (total + length bs)
      × (input w ≡ bs ++ input w')
      × (length bs < togo)

  -- A read of some bytes that leaves `v`, then the loop on the rest.
  Loop-ok :
      (w v : World) (togo total : ℕ) (buf got : List ℕ) (r : Option (Reply World (ℕ × List ℕ)))
      → 0 < length got
      → (length got ≤ togo) × (input w ≡ got ++ input v) × (patience v ≤ patience w)
      → Loop v (togo - length got) (total + length got) (buf ++ got) r
      → Loop w togo total buf r
  Loop-ok w v togo total buf got none some_read h x = x
  Loop-ok w v togo total buf got (some (ok (n, out) w')) some_read (le, split, less)
        (bs, o, i, down, c) =
      (
        got ++ bs,
        o ∙ append_assoc buf got bs,
        (split ∙ ap (λ l. got ++ l) i ∙ sym (append_assoc got bs (input w'))),
        omega arith,
        elim c [
          | inl (count, len) ↦ inl (omega arith, omega (arith, length-append got bs))
          | inr (z, none_before, more, b, rest) ↦ absurd (omega arith)
        ],
      )
  Loop-ok w v togo total buf got (some (fail e w')) some_read (le, split, less) (bs, ne, i, lt) = (
    got ++ bs,
    Stopped-eq (omega (arith, length-append got bs)) ne,
    (split ∙ ap (λ l. got ++ l) i ∙ sym (append_assoc got bs (input w'))),
    omega (arith, length-append got bs),
  )

  Loop-from :
      (w v : World) (togo total : ℕ) (buf : List ℕ) (r : Option (Reply World (ℕ × List ℕ)))
      → input w ≡ input v
      → patience v ≤ patience w
      → Loop v togo total buf r
      → Loop w togo total buf r
  Loop-from w v togo total buf none same less x = x
  Loop-from w v togo total buf (some (ok (n, out) w')) same less (bs, o, i, down, c) = (
    bs,
    o,
    same ∙ i,
    omega arith,
    elim c [ inl x ↦ inl x | inr (z, t, p, b, none_left) ↦ inr (z, t, p, b, same ∙ none_left) ],
  )
  Loop-from w v togo total buf (some (fail e w')) same less (bs, ne, i, lt) = (bs, ne, same ∙ i, lt)

  readblock_loop-Loop :
      (fuel togo total : ℕ) (buf : List ℕ) (w : World)
      → togo + patience w < fuel
      → Loop w togo total buf (readblock_loop os fuel fd togo total buf w)
  unfolding readblock_loop
  readblock_loop-Loop zero togo total buf w h = absurd (omega arith)
  readblock_loop-Loop (suc fuel) togo total buf w h = elim (Bool-cases (ltb 0 togo)) [
    | inr done ↦
        rw (done, readblock_loop)
          ([], sym (append-nil buf), refl, omega arith, inl (ground arith, ground arith))
    | inl more ↦
        rw (more, readblock_loop)
          (elim (Reply-cases (os.read fd togo w)) [
            | inl (got, v, e) ↦
                let law = s.read_ok togo w v got e in
                rw (e, readblock_loop)
                  (elim (Bool-cases (length got == 0)) [
                    | inr some_read ↦
                        rw (some_read, readblock_loop)
                          (Loop-ok w v togo total buf got _ (ground arith) law (
                            readblock_loop-Loop fuel (togo - length got) (total + length got)
                              (buf ++ got) v (ground (arith, law))))
                    | inl end ↦
                        let empty : got ≡ [] = eq_nil got ((==_iff _ _).0 end) in
                        let out : input w ≡ [] =
                          s.read_end togo w v (e ∙ ap (λ x. ok x v) empty) (ltb→lt _ _ more) in
                        let same : input w ≡ input v = law.1 ∙ ap (λ l. l ++ input v) empty in
                        rw (end, readblock_loop)
                          (elim (Bool-cases (total == 0)) [
                            | inl first ↦
                                rw (first, readblock_loop)
                                  (
                                    [],
                                    sym (append-nil buf),
                                    same,
                                    law.2,
                                    inr (refl, (==_iff _ _).0 first, ltb→lt _ _ more, refl, out),
                                  )
                            | inr later ↦
                                rw (later, readblock_loop)
                                  (
                                    [],
                                    inr (refl, sym same ∙ out, ground arith),
                                    same,
                                    ltb→lt _ _ more,
                                  )
                          ])
                  ])
            | inr (er, v, e) ↦
                rw (e, readblock_loop)
                  (elim (Bool-cases (is_eintr er)) [
                    | inl int ↦
                        let less =
                          s.read_eintr togo w v (e ∙ ap (λ x. fail x v) (is_eintr-eq er int)) in
                        rw (int, readblock_loop)
                          (Loop-from w v togo total buf _ (s.read_fail togo w v er e)
                            (omega (arith, less))
                            (readblock_loop-Loop fuel togo total buf v (omega (arith, less))))
                    | inr real ↦
                        rw (real, readblock_loop)
                          (
                            [],
                            inl (is_eintr-ne er real, (w, togo, e)),
                            s.read_fail togo w v er e,
                            ltb→lt _ _ more,
                          )
                  ])
          ])
  ]

  -- What `readblock` of `size` bytes has done: a whole block, or 0 at the end of the input, or a
  -- failure after reading less than a block.
  abbrev pub Block : World → ℕ → Option (Reply World (ℕ × List ℕ)) → Type 0
  Block w size none = ⊥
  Block w size (some (ok (n, buf) w')) =
      (input w ≡ buf ++ input w')
      × (patience w' ≤ patience w)
      × (((n ≡ size) × (length buf ≡ size)) ⊎ ((n ≡ 0) × (0 < size) × (buf ≡ []) × (input w ≡ [])))
  Block w size (some (fail e w')) =
      (lost : List ℕ) × Stopped e w' (length lost)
      × (input w ≡ lost ++ input w')
      × (length lost < size)

  -- With fuel for every byte and every interruption `readblock` ends. It returns `size` with the next
  -- `size` bytes of the input, or 0 if the input was at its end, or fails after reading less than a block:
  -- with an error that `read` gave, no interruption, or with EINVAL where the input ended in a block.
  pub readblock-Block :
      (fuel size : ℕ) (w : World)
      → size + patience w < fuel
      → Block w size (readblock os fuel fd size w)
  unfolding readblock
  readblock-Block fuel size w h =
      whole (readblock_loop os fuel fd size 0 [] w) (readblock_loop-Loop fuel size 0 [] w h)
    where
      whole : (r : Option (Reply World (ℕ × List ℕ))) → Loop w size 0 [] r → Block w size r
      whole none x = x
      whole (some (ok (n, buf) w')) (bs, o, i, down, c) = (
        i ∙ ap (λ l. l ++ input w') (sym o),
        down,
        elim c [
          | inl (count, len) ↦ inl (omega arith, ap length o ∙ len)
          | inr (z, t, p, b, none_left) ↦ inr (z, p, o ∙ b, none_left)
        ],
      )
      whole (some (fail e w')) (lost, stop, i, lt) = (lost, Stopped-eq (omega arith) stop, i, lt)
