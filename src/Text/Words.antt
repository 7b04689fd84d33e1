-- ===== src/Text/Words.antt =====
-- The words of a string: the pieces between its delimiters that are not empty. Calls of `strtok`
-- on the string give them one by one.
use usp.Base.{
  ℕ, ◌≤◌, ◌<◌, ◌≡◌, ◌∙◌, ap, refl, true, false, Bool-cases, Option, none, some, List, [], ◌∷◌, ◌++◌,
  drop, length, All, inl, inr, arith,
}
use usp.Text.{is_in, strspn, take_token, strtok}

abbrev pub extend : ℕ → List (List ℕ) → List (List ℕ)
extend c [] = (c ∷ []) ∷ []
extend c (p ∷ ps) = (c ∷ p) ∷ ps

-- The string cut at every delimiter.
abbrev pub pieces : List ℕ → List ℕ → List (List ℕ)
pieces delimiters [] = [] ∷ []
pieces delimiters (c ∷ s) = elim (is_in c delimiters) [
  | true ↦ [] ∷ pieces delimiters s
  | false ↦ extend c (pieces delimiters s)
]

abbrev pub nonempty : List (List ℕ) → List (List ℕ)
nonempty [] = []
nonempty ([] ∷ ps) = nonempty ps
nonempty ((c ∷ p) ∷ ps) = (c ∷ p) ∷ nonempty ps

abbrev pub words : List ℕ → List ℕ → List (List ℕ)
words delimiters s = nonempty (pieces delimiters s)

-- The first piece is what `take_token` takes.
pieces-take_token :
    (d s : List ℕ)
    → (qs : List (List ℕ)) × (pieces d s ≡ (take_token d s).0 ∷ qs)
      × (nonempty qs ≡ words d (take_token d s).1)
      × (length (take_token d s).1 ≤ length s)
      × (length (take_token d s).0 ≤ length s)
unfolding take_token
pieces-take_token d [] = ([], refl, refl, omega arith, omega arith)
pieces-take_token d (c ∷ s) = elim (Bool-cases (is_in c d)) [
  | inl sep ↦ rw (sep, take_token, pieces) (pieces d s, refl, refl, omega arith, omega arith)
  | inr plain ↦
      let (qs, e, n, le, le') = pieces-take_token d s in
      rw (plain, take_token, pieces) (qs, ap (extend c) e, n, omega arith, omega arith)
]

-- What a call of `strtok` gives of the words.
abbrev pub FirstWord : List ℕ → List ℕ → Option (List ℕ × List ℕ) → Type 0
FirstWord d s none = words d s ≡ []
FirstWord d s (some (t, rest)) =
    (words d s ≡ t ∷ words d rest) × (length rest < length s) × (length t ≤ length s)

FirstWord-skip :
    (d s : List ℕ) (c : ℕ) (r : Option (List ℕ × List ℕ))
    → words d (c ∷ s) ≡ words d s
    → FirstWord d s r
    → FirstWord d (c ∷ s) r
FirstWord-skip d s c none e x = e ∙ x
FirstWord-skip d s c (some (t, rest)) e (x, lt, le) = (e ∙ x, omega arith, omega arith)

pub strtok-FirstWord : (d s : List ℕ) → FirstWord d s (strtok d s)
unfolding strtok
strtok-FirstWord d [] = refl
strtok-FirstWord d (c ∷ s) = elim (Bool-cases (is_in c d)) [
  | inl sep ↦
      let skip : words d (c ∷ s) ≡ words d s = rw (sep, pieces) refl in
      rw (sep, strtok) (FirstWord-skip d s c (strtok d s) skip (strtok-FirstWord d s))
  | inr plain ↦
      let (qs, e, n, le, le') = pieces-take_token d s in
      let first : words d (c ∷ s) ≡ (c ∷ (take_token d s).0) ∷ words d (take_token d s).1 =
        rw (plain, pieces)
          (ap (λ ps. nonempty (extend c ps)) e ∙ ap (λ ws. (c ∷ (take_token d s).0) ∷ ws) n) in
      rw (plain, strtok) (first, omega arith, omega arith)
]

-- Leading delimiters do not change the words.
pub words-drop-strspn : (d s : List ℕ) → words d (drop (strspn s d) s) ≡ words d s
unfolding strspn
words-drop-strspn d [] = refl
words-drop-strspn d (c ∷ s) = elim (Bool-cases (is_in c d)) [
  | inl sep ↦ rw (sep, strspn, pieces) (words-drop-strspn d s)
  | inr plain ↦ rw (plain, strspn) refl
]

-- A word: not empty, and without delimiters.
abbrev pub Clean : List ℕ → List ℕ → Type 0
Clean d = All (λ c. is_in c d ≡ false)

abbrev pub IsWord : List ℕ → List ℕ → Type 0
IsWord d [] = ⊥
IsWord d (c ∷ w) = Clean d (c ∷ w)

-- The words with the byte `c` behind each.
abbrev pub join : ℕ → List (List ℕ) → List ℕ
join c [] = []
join c (w ∷ ws) = w ++ (c ∷ join c ws)

pieces-Clean :
    (d w : List ℕ) (c : ℕ) (s : List ℕ)
    → Clean d w
    → is_in c d ≡ true
    → pieces d (w ++ (c ∷ s)) ≡ w ∷ pieces d s
pieces-Clean d [] c s clean h = rw (h, pieces) refl
pieces-Clean d (b ∷ w) c s (plain, clean) h =
    rw (plain, pieces) (ap (extend b) (pieces-Clean d w c s clean h))

pub words-join :
    (d : List ℕ) (c : ℕ) (ws : List (List ℕ))
    → is_in c d ≡ true
    → All (IsWord d) ws
    → words d (join c ws) ≡ ws
words-join d c [] h all = refl
words-join d c ([] ∷ ws) h all = absurd all.0
words-join d c ((b ∷ w) ∷ ws) h (word, all) =
    ap nonempty (pieces-Clean d (b ∷ w) c (join c ws) word h)
    ∙ ap (λ vs. (b ∷ w) ∷ vs) (words-join d c ws h all)
