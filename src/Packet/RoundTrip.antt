-- ===== src/Packet/RoundTrip.antt =====
-- What `putpacket` of chapter17 writes, and what `getpacket` reads back.
use usp.Base.{
  All, ℕ, ◌+◌, ◌≤◌, ◌<◌, ◌≡◌, ◌⊎◌, ◌∙◌, ap, refl, sym, subst, true, false, Bool-cases, Option, none,
  some, List, [], ◌∷◌, ◌++◌, append_assoc, length, length-append, take, drop, take_all, ◌==◌,
  ==_iff, ltb, inl, inr, arith,
}
use usp.Base.Int.{ℤ, pos, negsuc}
use usp.Os.{Errno, Reply, ok, fail, Os}
use usp.Restart.{r_write, readblock}
use usp.Restart.Laws.{Source, Sink, ReadFailed, WriteFailed}
use usp.Restart.Write.{Wrote, r_write_lem}
use usp.Restart.Readblock.{Block, readblock-Block}
use usp.Packet.{
  Header, Layout, Packet, checked, max_pack_size, put_parts, putpacket, get_data, getpacket,
}

-- `int` has 32 bits.
abbrev pub IsInt : ℤ → Type 0
IsInt (pos n) = n < 2147483648
IsInt (negsuc n) = n < 2147483648

abbrev pub IsHeader : Header → Type 0
IsHeader h = IsInt h.compid × IsInt h.taskid × IsInt h.type × IsInt h.length

-- The layout keeps every header whose numbers are `int`s, in bytes.
pub record Lossless (layout : Layout) : Type 0 where
  pub length_law : (h : Header) → IsHeader h → length (layout.encode h) ≡ layout.headlen
  pub bytes_law : (h : Header) → IsHeader h → All (λ b. b < 256) (layout.encode h)
  pub decode_law : (h : Header) → IsHeader h → layout.decode (layout.encode h) ≡ h

take_prefix : (a x : List ℕ) → take (length a) (a ++ x) ≡ a
take_prefix [] x = refl
take_prefix (c ∷ a) x = ap (λ l. c ∷ l) (take_prefix a x)

drop_prefix : (a x : List ℕ) → drop (length a) (a ++ x) ≡ x
drop_prefix [] x = refl
drop_prefix (c ∷ a) x = drop_prefix a x

-- A list splits in one way at a length.
same_split : (a b x y : List ℕ) → length a ≡ length b → a ++ x ≡ b ++ y → (a ≡ b) × (x ≡ y)
same_split a b x y len e = (
  sym (take_prefix a x)
      ∙ (ap (take (length a)) e ∙ ap (λ n. take n (b ++ y)) len)
      ∙ take_prefix b y,
  sym (drop_prefix a x)
      ∙ (ap (drop (length a)) e ∙ ap (λ n. drop n (b ++ y)) len)
      ∙ drop_prefix b y,
)

module _ {os : Os} {fd : ℤ} (s : Source os fd) where
  open os use {World}
  open s use {input, patience}

  -- What a read of a block gives where the block stands in the input.
  abbrev There : List ℕ → List ℕ → ℕ → Option (Reply World (ℕ × List ℕ)) → Type 0
  There block rest p none = ⊥
  There block rest p (some (ok (n, bytes) v)) =
      (n ≡ length block) × (bytes ≡ block) × (input v ≡ rest) × (patience v ≤ p)
  There block rest p (some (fail e v)) = ReadFailed os fd e v

  Block-There :
      (block rest : List ℕ) (w : World) (r : Option (Reply World (ℕ × List ℕ)))
      → input w ≡ block ++ rest
      → Block s w (length block) r
      → There block rest (patience w) r
  Block-There block rest w none e x = x
  Block-There block rest w (some (ok (n, bytes) v)) e (i, down, inl (count, len)) =
      let (same, left) = same_split bytes block (input v) rest len (sym i ∙ e) in
      (count, same, left, down)
  Block-There block rest w (some (ok (n, bytes) v)) e (i, down, inr (z, more, b, none_left)) =
      absurd (omega (arith, length-append block rest, ap length e, ap length none_left))
  Block-There block rest w (some (fail er v)) e (lost, inl bad, i, lt) = bad
  Block-There block rest w (some (fail er v)) e (lost, inr (inval, none_left, more), i, lt) =
      absurd (
        omega (
          arith,
          length-append block rest,
          ap length e,
          ap length i,
          length-append lost (input v),
          ap length none_left,
        ))

  readblock-There :
      (fuel : ℕ) (block rest : List ℕ) (n : ℕ) (w : World)
      → length block ≡ n
      → n + patience w < fuel
      → input w ≡ block ++ rest
      → There block rest (patience w) (readblock os fuel fd n w)
  readblock-There fuel block rest n w len h e =
      Block-There block rest w (readblock os fuel fd n w) e (
        subst (λ k. Block s w k (readblock os fuel fd n w)) (sym len)
          (readblock-Block s fuel n w h))

  -- The packet came back whole, and what follows it in the stream is left, or a `read` failed.
  abbrev pub Got : Packet → List ℕ → Option (Option Packet × World) → Type 0
  Got p rest none = ⊥
  Got p rest (some (some q, v)) = (q ≡ p) × (input v ≡ rest)
  Got p rest (some (none, v)) = (e : Errno) × ReadFailed os fd e v

  module _ (layout : Layout) (law : Lossless layout) where
    get_data-Got :
        (fuel n : ℕ) (h : Header) (buf rest : List ℕ) (w : World)
        → checked h.length ≡ some n
        → length buf ≡ n
        → n + patience w < fuel
        → input w ≡ buf ++ rest
        → Got (record { header = h; buf = buf }) rest (get_data os layout fuel fd h w)
    unfolding get_data
    get_data-Got fuel n h buf rest w ok_length len enough e =
        go (readblock os fuel fd n w) refl (readblock-There fuel buf rest n w len enough e)
      where
        go :
            (r : Option (Reply World (ℕ × List ℕ)))
            → readblock os fuel fd n w ≡ r
            → There buf rest (patience w) r
            → Got (record { header = h; buf = buf }) rest (get_data os layout fuel fd h w)
        go none run x = absurd x
        go (some (fail er v)) run x = rw (ok_length, get_data) (rw (run, get_data) (er, x))
        go (some (ok (k, bytes) v)) run (count, same, left, down) =
            let test : (k == n) ≡ true = (==_iff _ _).1 (count ∙ len) in
            rw (ok_length, get_data)
              (rw (run, get_data)
                (rw (test, get_data) (ap (λ b. record { header = h; buf = b }) same, left)))

    getpacket-Got :
        (fuel n : ℕ) (h : Header) (buf rest : List ℕ) (w : World)
        → IsHeader h
        → checked h.length ≡ some n
        → length buf ≡ n
        → layout.headlen + n + patience w < fuel
        → input w ≡ layout.encode h ++ (buf ++ rest)
        → Got (record { header = h; buf = buf }) rest (getpacket os layout fuel fd w)
    unfolding getpacket
    getpacket-Got fuel n h buf rest w int ok_length len enough e =
        go (readblock os fuel fd layout.headlen w) refl (
          readblock-There fuel (layout.encode h) (buf ++ rest) layout.headlen w
            (law.length_law h int) (omega arith) e)
      where
        go :
            (r : Option (Reply World (ℕ × List ℕ)))
            → readblock os fuel fd layout.headlen w ≡ r
            → There (layout.encode h) (buf ++ rest) (patience w) r
            → Got (record { header = h; buf = buf }) rest (getpacket os layout fuel fd w)
        go none run x = absurd x
        go (some (fail er v)) run x = rw (run, getpacket) (er, x)
        go (some (ok (k, bytes) v)) run (count, same, left, down) =
            let test : (k == layout.headlen) ≡ true =
              (==_iff _ _).1 (count ∙ law.length_law h int) in
            let back : layout.decode bytes ≡ h = ap layout.decode same ∙ law.decode_law h int in
            rw (run, getpacket)
              (rw (test, getpacket)
                (subst
                  (λ g.
                    Got (record { header = h; buf = buf }) rest (get_data os layout fuel fd g v))
                  (sym back)
                  (get_data-Got fuel n h buf rest v ok_length len (omega (arith, down)) left)))

checked-long : (n : ℕ) → ltb max_pack_size n ≡ true → checked (pos n) ≡ none
unfolding checked
checked-long n long = rw (long, checked) refl

checked-fits : (n : ℕ) → ltb max_pack_size n ≡ false → checked (pos n) ≡ some n
unfolding checked
checked-fits n fits = rw (fits, checked) refl

module _ {os : Os} {fd : ℤ} (t : Sink os fd) (layout : Layout) (law : Lossless layout) where
  open os use {World}
  open t use {output, patience}

  -- What `putpacket` has done: it wrote the header and the data, or nothing since the packet is too
  -- long, or a `write` failed.
  abbrev pub Sent : Header → List ℕ → World → Option (Option (Unit {0}) × World) → Type 0
  Sent h buf w none = ⊥
  Sent h buf w (some (some _, v)) =
      (output v ≡ output w ++ (layout.encode h ++ buf)) × (length buf ≤ max_pack_size)
  Sent h buf w (some (none, v)) =
      ((max_pack_size < length buf) × (v ≡ w)) ⊎ ((e : Errno) × WriteFailed os fd e v)

  put_parts-Sent :
      (fuel : ℕ) (h : Header) (buf : List ℕ) (w : World)
      → IsHeader h
      → layout.headlen + length buf + patience w < fuel
      → length buf ≤ max_pack_size
      → Sent h buf w (put_parts os layout fuel fd h buf w)
  unfolding put_parts
  put_parts-Sent fuel h buf w int enough fits =
      go (r_write os fuel fd (layout.encode h) w) refl
        (r_write_lem t fuel (layout.encode h) w (omega (arith, law.length_law h int)))
    where
      go :
          (r : Option (Reply World ℕ))
          → r_write os fuel fd (layout.encode h) w ≡ r
          → Wrote t w (layout.encode h) 0 r
          → Sent h buf w (put_parts os layout fuel fd h buf w)
      go none e x = absurd x
      go (some (fail er v)) e (bad, part) = rw (e, put_parts) (inr (er, bad))
      go (some (ok n v)) e (count, out, less) =
          let test : (n == layout.headlen) ≡ true =
            (==_iff _ _).1 (omega (arith, law.length_law h int)) in
          rw (e, put_parts)
            (rw (test, put_parts)
              (body (r_write os fuel fd buf v) refl (r_write_lem t fuel buf v (omega arith))))
        where
          body :
              (r : Option (Reply World ℕ))
              → r_write os fuel fd buf v ≡ r
              → Wrote t v buf 0 r
              → Sent h buf w
                  (elim (r_write os fuel fd buf v) as (λ _. Option (Option (Unit {0}) × World)) [
                    | none ↦ none
                    | some (fail e w'') ↦ some (none, w'')
                    | some (ok k w'') ↦ elim (k == length buf) [
                      | true ↦ some (some tt, w'')
                      | false ↦ some (none, w'')
                    ]
                  ])
          body none e' x = absurd x
          body (some (fail er z)) e' (bad, part) = rw e' (inr (er, bad))
          body (some (ok k z)) e' (count', out', less') =
              let test' : (k == length buf) ≡ true = (==_iff _ _).1 (omega arith) in
              rw e' (
                rw test' (
                  out' ∙ ap (λ o. o ++ buf) out ∙ append_assoc (output w) (layout.encode h) buf,
                  fits,
                ))

  -- With fuel for every byte and every interruption and a header of `int`s whose `length` is that of the data,
  -- `putpacket` writes the header and then the data, or fails: with nothing written for more than
  -- `MAX_PACK_SIZE` bytes of data, or where a `write` failed, not by an interruption.
  pub putpacket-Sent :
      (fuel : ℕ) (h : Header) (buf : List ℕ) (w : World)
      → IsHeader h
      → h.length ≡ pos (length buf)
      → layout.headlen + length buf + patience w < fuel
      → Sent h buf w (putpacket os layout fuel fd h buf w)
  unfolding putpacket
  putpacket-Sent fuel h buf w int len enough = elim (Bool-cases (ltb max_pack_size (length buf))) [
    | inl long ↦
        let none_fits = ap checked len ∙ checked-long (length buf) long in
        rw (none_fits, putpacket) (inl (ground arith, refl))
    | inr fits ↦
        let n_fits = ap checked len ∙ checked-fits (length buf) fits in
        rw (n_fits, putpacket)
          (subst (λ b. Sent h buf w (put_parts os layout fuel fd h b w)) (sym (take_all buf))
            (put_parts-Sent fuel h buf w int enough (ground arith)))
  ]

  -- Where the numbers of the header are `int`s, for which the layout has its bytes, and its `length` is
  -- that of the data, and `putpacket` has succeeded, the bytes that it
  -- wrote, at the front of the input of some descriptor, are what `getpacket` needs there: with
  -- fuel for every byte and interruption it returns the same packet and leaves what follows, unless a
  -- `read` fails.
  pub getpacket-putpacket :
      {from : ℤ} (s : Source os from) (fuel fuel' : ℕ) (h : Header) (buf bytes rest : List ℕ)
      (w v u : World)
      → IsHeader h
      → h.length ≡ pos (length buf)
      → layout.headlen + length buf + patience w < fuel
      → putpacket os layout fuel fd h buf w ≡ some (some tt, v)
      → output v ≡ output w ++ bytes
      → s.input u ≡ bytes ++ rest
      → layout.headlen + length buf + s.patience u < fuel'
      → Got s (record { header = h; buf = buf }) rest (getpacket os layout fuel' from u)
  getpacket-putpacket s fuel fuel' h buf bytes rest w v u int len enough run wrote there enough' =
      let (out, fits) = subst (Sent h buf w) run (putpacket-Sent fuel h buf w int len enough) in
      let (_, same) = same_split (output w) (output w) _ _ refl (sym wrote ∙ out) in
      let test : ltb max_pack_size (length buf) ≡ false = ground arith in
      let ok_length = ap checked len ∙ checked-fits (length buf) test in
      getpacket-Got s layout law fuel' (length buf) h buf rest u int ok_length refl enough'
        (there ∙ ap (λ b. b ++ rest) same ∙ append_assoc (layout.encode h) buf rest)
