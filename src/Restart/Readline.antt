-- ===== src/Restart/Readline.antt =====
-- `readline` of appendixB/restart.c: one line with its newline.
use usp.Base.{
  ℕ, zero, suc, ◌+◌, ◌-◌, ◌≤◌, ◌<◌, ◌≡◌, ◌≢◌, ◌⊎◌, ◌∙◌, ap, refl, sym, subst, Option, none, some,
  List, [], ◌∷◌, ◌++◌, length, inl, inr, Bool-cases, append-nil, append_assoc, arith, ltb, eq_nil,
  ◌==◌, ==_iff, All,
}
use usp.Base.Int.{ℤ}
use usp.Os.{Errno, is_eintr, Reply, ok, fail, Os}
use usp.Restart.{readline, readline_loop}
use usp.Restart.Laws.{ReadFailed, Source, Reply-cases, is_eintr-eq, is_eintr-ne}

abbrev pub NoNewline : List ℕ → Type 0
NoNewline = All (λ c. c ≢ b'\n')

module _ {os : Os} {fd : ℤ} (s : Source os fd) where
  open os use {World}
  open s use {input, patience}

  -- Why `readline` fails with `e` after reading `n` bytes: `read` failed, or the input ended, or
  -- there is no room for a longer line.
  abbrev pub Stopped : Errno → World → ℕ → ℕ → Type 0
  Stopped e w nbytes n =
      ReadFailed os fd e w ⊎ ((e ≡ Errno.einval) × (((input w ≡ []) × (0 < n)) ⊎ (nbytes ≤ n + 1)))

  Stopped-eq :
      {e : Errno} {w : World} {nbytes m n : ℕ} → m ≡ n → Stopped e w nbytes m → Stopped e w nbytes n
  Stopped-eq {e} {w} {nbytes} same stop = subst (Stopped e w nbytes) same stop

  -- What the loop has done when it stops, started at `w` with `numread` bytes in the buffer.
  abbrev Loop : World → ℕ → ℕ → List ℕ → Option (Reply World (ℕ × List ℕ)) → Type 0
  Loop w nbytes numread buf none = ⊥
  Loop w nbytes numread buf (some (ok (n, out) w')) =
      (bs : List ℕ) × (out ≡ buf ++ bs)
      × (input w ≡ bs ++ input w')
      × (patience w' ≤ patience w)
      × (((body : List ℕ) × (bs ≡ body ++ (b'\n' ∷ []))
            × NoNewline body
            × (n ≡ numread + length bs)
            × (n < nbytes))
          ⊎ ((n ≡ 0) × (numread ≡ 0) × (bs ≡ []) × (input w ≡ [])))
  Loop w nbytes numread buf (some (fail e w')) =
      (lost : List ℕ) × Stopped e w' nbytes (numread + length lost)
      × (input w ≡ lost ++ input w')
      × NoNewline lost

  -- One byte `c` that is no newline, then the loop.
  Loop-byte :
      (w v : World) (nbytes numread c : ℕ) (buf : List ℕ) (r : Option (Reply World (ℕ × List ℕ)))
      → c ≢ b'\n'
      → input w ≡ c ∷ input v
      → patience v ≤ patience w
      → Loop v nbytes (numread + 1) (buf ++ (c ∷ [])) r
      → Loop w nbytes numread buf r
  Loop-byte w v nbytes numread c buf none ne split less x = x
  Loop-byte w v nbytes numread c buf (some (ok (n, out) w')) ne split less (bs, o, i, down, d) = (
    c ∷ bs,
    o ∙ append_assoc buf (c ∷ []) bs,
    split ∙ ap (λ l. c ∷ l) i,
    omega arith,
    elim d [
      | inl (body, shape, clean, count, fits) ↦
          inl (c ∷ body, ap (λ l. c ∷ l) shape, (ne, clean), omega arith, fits)
      | inr (z, first, none_read, none_left) ↦ absurd (omega arith)
    ],
  )
  Loop-byte w v nbytes numread c buf (some (fail e w')) ne split less (lost, real, i, clean) =
      (c ∷ lost, Stopped-eq (omega arith) real, split ∙ ap (λ l. c ∷ l) i, (ne, clean))

  Loop-from :
      (w v : World) (nbytes numread : ℕ) (buf : List ℕ) (r : Option (Reply World (ℕ × List ℕ)))
      → input w ≡ input v
      → patience v ≤ patience w
      → Loop v nbytes numread buf r
      → Loop w nbytes numread buf r
  Loop-from w v nbytes numread buf none same less x = x
  Loop-from w v nbytes numread buf (some (ok (n, out) w')) same less (bs, o, i, down, d) = (
    bs,
    o,
    same ∙ i,
    omega arith,
    elim d [
      | inl x ↦ inl x
      | inr (z, first, none_read, none_left) ↦ inr (z, first, none_read, same ∙ none_left)
    ],
  )
  Loop-from w v nbytes numread buf (some (fail e w')) same less (lost, real, i, clean) =
      (lost, real, same ∙ i, clean)

  one_byte :
      {w v : World} (c : ℕ) (rest : List ℕ)
      → (length (c ∷ rest) ≤ 1) × (input w ≡ (c ∷ rest) ++ input v) × (patience v ≤ patience w)
      → input w ≡ c ∷ input v
  one_byte {v} c rest law = law.1 ∙ ap (λ l. c ∷ (l ++ input v)) (eq_nil rest (omega arith))

  readline_loop-Loop :
      (fuel nbytes numread : ℕ) (buf : List ℕ) (w : World)
      → nbytes + patience w < fuel + numread
      → numread ≤ nbytes
      → Loop w nbytes numread buf (readline_loop os fuel fd nbytes numread buf w)
  unfolding readline_loop
  readline_loop-Loop zero nbytes numread buf w h k = absurd (omega arith)
  readline_loop-Loop (suc fuel) nbytes numread buf w h k =
      elim (Bool-cases (ltb numread (nbytes - 1))) [
        | inr full ↦ rw (full, readline_loop) ([], inr (refl, inr (ground arith)), refl, tt)
        | inl room ↦
            rw (room, readline_loop)
              (elim (Reply-cases (os.read fd 1 w)) [
                | inr (er, v, e) ↦
                    rw (e, readline_loop)
                      (elim (Bool-cases (is_eintr er)) [
                        | inl int ↦
                            let less =
                              s.read_eintr 1 w v (e ∙ ap (λ x. fail x v) (is_eintr-eq er int)) in
                            rw (int, readline_loop)
                              (Loop-from w v nbytes numread buf _ (s.read_fail 1 w v er e)
                                (omega (arith, less))
                                (readline_loop-Loop fuel nbytes numread buf v (omega (arith, less))
                                  k))
                        | inr real ↦
                            rw (real, readline_loop)
                              ([], inl (is_eintr-ne er real, (w, 1, e)), s.read_fail 1 w v er e, tt)
                      ])
                | inl ([], v, e) ↦
                    let none_left = s.read_end 1 w v e (omega arith) in
                    let law = s.read_ok 1 w v [] e in
                    rw (e, readline_loop)
                      (elim (Bool-cases (numread == 0)) [
                        | inl first ↦
                            rw (first, readline_loop)
                              (
                                [],
                                sym (append-nil buf),
                                law.1,
                                law.2,
                                inr (refl, (==_iff _ _).0 first, refl, none_left),
                              )
                        | inr later ↦
                            rw (later, readline_loop)
                              ([], inr (refl, inl (sym law.1 ∙ none_left, ground arith)), law.1, tt)
                      ])
                | inl (c ∷ rest, v, e) ↦
                    let law = s.read_ok 1 w v (c ∷ rest) e in
                    rw (e, readline_loop)
                      (elim (Bool-cases (c == b'\n')) [
                        | inl newline ↦
                            rw (newline, readline_loop)
                              (
                                c ∷ [],
                                refl,
                                one_byte c rest law,
                                law.2,
                                inl (
                                  [],
                                  ap (λ x. x ∷ []) ((==_iff _ _).0 newline),
                                  tt,
                                  refl,
                                  ground arith,
                                ),
                              )
                        | inr other ↦
                            rw (other, readline_loop)
                              (Loop-byte w v nbytes numread c buf _
                                (λ q. cc (other, (==_iff c b'\n').1 q)) (one_byte c rest law) law.2
                                (readline_loop-Loop fuel nbytes (numread + 1) (buf ++ (c ∷ [])) v
                                  (ground (arith, law)) (ground arith)))
                      ])
              ])
      ]

  -- What `readline` has done: it read one whole line that fits, or 0 at the end of the input, or
  -- failed after reading bytes with no newline among them.
  abbrev pub Line : World → ℕ → Option (Reply World (ℕ × List ℕ)) → Type 0
  Line w nbytes none = ⊥
  Line w nbytes (some (ok (n, buf) w')) =
      (input w ≡ buf ++ input w')
      × (((body : List ℕ) × (buf ≡ body ++ (b'\n' ∷ []))
            × NoNewline body
            × (n ≡ length buf)
            × (n < nbytes))
          ⊎ ((n ≡ 0) × (buf ≡ []) × (input w ≡ [])))
  Line w nbytes (some (fail e w')) =
      (lost : List ℕ) × Stopped e w' nbytes (length lost)
      × (input w ≡ lost ++ input w')
      × NoNewline lost

  -- With fuel for every byte and every interruption `readline` ends. It returns the next line, up to its
  -- newline and shorter than `nbytes`, or 0 if the input was at its end, or fails after
  -- reading bytes with no newline among them: with an error that `read` gave, no interruption, or with
  -- EINVAL where the input ended in a line or the line does not fit.
  pub readline-Line :
      (fuel nbytes : ℕ) (w : World)
      → nbytes + patience w < fuel
      → Line w nbytes (readline os fuel fd nbytes w)
  unfolding readline
  readline-Line fuel nbytes w h =
      whole (readline_loop os fuel fd nbytes 0 [] w)
        (readline_loop-Loop fuel nbytes 0 [] w (omega arith) (omega arith))
    where
      whole : (r : Option (Reply World (ℕ × List ℕ))) → Loop w nbytes 0 [] r → Line w nbytes r
      whole none x = x
      whole (some (ok (n, buf) w')) (bs, o, i, down, d) = (
        i ∙ ap (λ l. l ++ input w') (sym o),
        elim d [
          | inl (body, shape, clean, count, fits) ↦
              inl (body, o ∙ shape, clean, omega (arith, ap length o), fits)
          | inr (z, first, none_read, none_left) ↦ inr (z, o ∙ none_read, none_left)
        ],
      )
      whole (some (fail e w')) (lost, stop, i, clean) =
          (lost, Stopped-eq (omega arith) stop, i, clean)
