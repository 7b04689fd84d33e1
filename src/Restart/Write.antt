-- ===== src/Restart/Write.antt =====
-- `r_write` of appendixB/restart.c: what it has written when it returns.
use usp.Base.{
  ℕ, zero, suc, ◌+◌, ◌≤◌, ◌<◌, ◌≡◌, ◌∙◌, ap, sym, Option, none, some, List, [], ◌++◌, length, drop,
  take, inl, inr, Bool-cases, take-append-drop, length-drop, append-nil, append_assoc, arith, ltb,
  ltb→lt, eq_nil, take-append-take,
}
use usp.Base.Int.{ℤ}
use usp.Os.{is_eintr, Reply, ok, fail, Os}
use usp.Restart.{r_write, r_write_loop}
use usp.Restart.Laws.{WriteFailed, Sink, Reply-cases, is_eintr-eq, is_eintr-ne}

module _ {os : Os} {fd : ℤ} (s : Sink os fd) where
  open os use {World}
  open s use {output, patience}

  -- What the loop has done when it stops, started at `w` with `bufp` to write.
  abbrev pub Wrote : World → List ℕ → ℕ → Option (Reply World ℕ) → Type 0
  Wrote w bufp total none = ⊥
  Wrote w bufp total (some (ok n w')) =
      (n ≡ total + length bufp) × (output w' ≡ output w ++ bufp) × (patience w' ≤ patience w)
  Wrote w bufp total (some (fail e w')) =
      WriteFailed os fd e w' × ((k : ℕ) × (k < length bufp) × (output w' ≡ output w ++ take k bufp))

  -- What holds from `w'` on holds from `w` on, if the calls between them had no effect.
  Wrote-from :
      (w w' : World) (bufp : List ℕ) (total : ℕ) (r : Option (Reply World ℕ))
      → output w' ≡ output w
      → patience w' ≤ patience w
      → Wrote w' bufp total r
      → Wrote w bufp total r
  Wrote-from w w' bufp total none same less x = x
  Wrote-from w w' bufp total (some (ok n v)) same less x =
      (x.0, x.1 ∙ ap (λ o. o ++ bufp) same, omega arith)
  Wrote-from w w' bufp total (some (fail e v)) same less (ne, (k, lt, out)) =
      (ne, (k, lt, out ∙ ap (λ o. o ++ take k bufp) same))

  -- One accepted write of `k` bytes, then the loop on the rest.
  Wrote-ok :
      (w w' : World) (bufp : List ℕ) (total k : ℕ) (r : Option (Reply World ℕ))
      → (0 < k)
        × (k ≤ length bufp)
        × (output w' ≡ output w ++ take k bufp)
        × (patience w' ≤ patience w)
      → Wrote w' (drop k bufp) (total + k) r
      → Wrote w bufp total r
  Wrote-ok w w' bufp total k none h x = x
  Wrote-ok w w' bufp total k (some (ok n v)) (pos, le, out, less) (count, put, less') = (
    omega (arith, length-drop k bufp),
    put ∙ (rw (out, append_assoc, take-append-drop)),
    omega arith,
  )
  Wrote-ok w w' bufp total k (some (fail e v)) (pos, le, out, less) (ne, (j, lt, put)) = (
    ne,
    (k + j, omega (arith, length-drop k bufp), put ∙ (rw (out, append_assoc, take-append-take))),
  )

  pub r_write_loop-Wrote :
      (fuel : ℕ) (bufp : List ℕ) (total : ℕ) (w : World)
      → length bufp + patience w < fuel
      → Wrote w bufp total (r_write_loop os fuel fd bufp total w)
  unfolding r_write_loop
  r_write_loop-Wrote zero bufp total w h = absurd (omega arith)
  r_write_loop-Wrote (suc fuel) bufp total w h = elim (Bool-cases (ltb 0 (length bufp))) [
    | inl more ↦
        rw (more, r_write_loop)
          (elim (Reply-cases (os.write fd bufp w)) [
            | inl (k, w', e) ↦
                let put = s.write_ok bufp w w' k e (ltb→lt _ _ more) in
                rw (e, r_write_loop)
                  (Wrote-ok w w' bufp total k _ put (
                    r_write_loop-Wrote fuel (drop k bufp) (total + k) w'
                      (omega (arith, length-drop k bufp, put.0, put.1, put.3))))
            | inr (er, w', e) ↦
                rw (e, r_write_loop)
                  (elim (Bool-cases (is_eintr er)) [
                    | inl int ↦
                        let less =
                          s.write_eintr bufp w w' (e ∙ ap (λ x. fail x w') (is_eintr-eq er int)) in
                        rw (int, r_write_loop)
                          (Wrote-from w w' bufp total _ (s.write_fail bufp w w' er e)
                            (omega (arith, less))
                            (r_write_loop-Wrote fuel bufp total w' (omega (arith, less))))
                    | inr real ↦
                        rw (real, r_write_loop)
                          (
                            (is_eintr-ne er real, (w, bufp, e)),
                            (0, ltb→lt _ _ more, s.write_fail bufp w w' er e ∙ sym (append-nil _)),
                          )
                  ])
          ])
    | inr done ↦
        let empty : bufp ≡ [] = eq_nil bufp (ground arith) in
        rw (done, r_write_loop) (rw empty (omega arith, sym (append-nil _), omega arith))
  ]

  -- With fuel for every byte and every interruption `r_write` ends. It returns the size of the
  -- buffer after writing exactly its bytes, or fails with an error that `write` gave, no interruption,
  -- after writing fewer.
  pub r_write_lem :
      (fuel : ℕ) (buf : List ℕ) (w : World)
      → length buf + patience w < fuel
      → Wrote w buf 0 (r_write os fuel fd buf w)
  unfolding r_write
  r_write_lem fuel buf w h = r_write_loop-Wrote fuel buf 0 w h
