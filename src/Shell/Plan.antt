-- ===== src/Shell/Plan.antt =====
-- What the text of a command means to executeredirect.c of chapter11.
use usp.Base.{
  ℕ, ◌≡◌, ◌∙◌, inl, inr, refl, sym, ap, Bool, true, false, Bool-cases, ◌&&◌, ◌||◌, if◌then◌else◌,
  Option, none, some, List, [], ◌∷◌, ◌==◌, arith,
}
use usp.Shell.{strchr}
use usp.Shell.Redirect.{parsed, first_word}

-- What a command means: the text whose words are executed, and the files that it names for standard
-- input and output.
pub record Plan : Type 0 where
  pub text : List ℕ
  pub infile : Option (List ℕ)
  pub outfile : Option (List ℕ)

abbrev pub parsed_if : Bool → ℕ → List ℕ → List ℕ × Option (List ℕ)
parsed_if false ch c = (c, none)
parsed_if true ch c = parsed ch c

-- The symbol that stands last is taken off first, so that its file is not read as a part of the other.
abbrev pub out_then_in : Bool → Bool → List ℕ → Plan
out_then_in inp outp c =
    let o = parsed_if outp b'>' c in
    let i = parsed_if inp b'<' o.0 in record { text = i.0; infile = i.1; outfile = o.1 }

abbrev pub in_then_out : List ℕ → Plan
in_then_out c =
    let i = parsed b'<' c in
    let o = parsed b'>' i.0 in record { text = o.0; infile = i.1; outfile = o.1 }

-- The text of a command: all that stands before the first symbol that counts.
abbrev pub front : Bool → Bool → List ℕ → List ℕ
front inp outp [] = []
front inp outp (d ∷ s) =
    let rest = front inp outp s in
    if (inp && (d == b'<')) || (outp && (d == b'>')) then [] else d ∷ rest

front-nothing : (s : List ℕ) → front false false s ≡ s
front-nothing [] = refl
front-nothing (d ∷ s) = ap (λ l. d ∷ l) (front-nothing s)

abbrev before : List ℕ → Option (List ℕ × List ℕ) → List ℕ
before s none = s
before s (some p) = p.0

parsed-before : (ch : ℕ) (s : List ℕ) → (parsed ch s).0 ≡ before s (strchr ch s)
parsed-before ch s = go (strchr ch s)
  where
    go :
        (r : Option (List ℕ × List ℕ))
        → (elim r as (λ _. List ℕ × Option (List ℕ)) [
          | none ↦ (s, none)
          | some p ↦ (p.0, first_word p.1)
        ]).0
          ≡ before s r
    go none = refl
    go (some p) = refl

before-later :
    (d : ℕ) (s : List ℕ) (r : Option (List ℕ × List ℕ))
    → before
        (d ∷ s)
        (elim r as (λ _. Option (List ℕ × List ℕ)) [ none ↦ none | some p ↦ some (d ∷ p.0, p.1) ])
      ≡ d ∷ before s r
before-later d s none = refl
before-later d s (some p) = refl

before-in : (s : List ℕ) → before s (strchr b'<' s) ≡ front true false s
unfolding strchr
before-in [] = refl
before-in (d ∷ s) = elim (Bool-cases (d == b'<')) [
  | inl here ↦ rw (here, strchr) refl
  | inr further ↦
      rw (further, strchr) (before-later d s (strchr b'<' s) ∙ ap (λ l. d ∷ l) (before-in s))
]

before-out : (s : List ℕ) → before s (strchr b'>' s) ≡ front false true s
unfolding strchr
before-out [] = refl
before-out (d ∷ s) = elim (Bool-cases (d == b'>')) [
  | inl here ↦ rw (here, strchr) refl
  | inr further ↦
      rw (further, strchr) (before-later d s (strchr b'>' s) ∙ ap (λ l. d ∷ l) (before-out s))
]

parsed_if-in : (inp : Bool) (s : List ℕ) → (parsed_if inp b'<' s).0 ≡ front inp false s
parsed_if-in false s = sym (front-nothing s)
parsed_if-in true s = parsed-before b'<' s ∙ before-in s

parsed_if-out : (outp : Bool) (s : List ℕ) → (parsed_if outp b'>' s).0 ≡ front false outp s
parsed_if-out false s = sym (front-nothing s)
parsed_if-out true s = parsed-before b'>' s ∙ before-out s

front-front-in :
    (inp outp : Bool) (s : List ℕ) → front inp false (front false outp s) ≡ front inp outp s
front-front-in inp outp [] = refl
front-front-in inp outp (d ∷ s) = ground (arith, front-front-in inp outp s)

front-front-out :
    (inp outp : Bool) (s : List ℕ) → front false outp (front inp false s) ≡ front inp outp s
front-front-out inp outp [] = refl
front-front-out inp outp (d ∷ s) = ground (arith, front-front-out inp outp s)

pub out_then_in-front :
    (inp outp : Bool) (c : List ℕ) → (out_then_in inp outp c).text ≡ front inp outp c
out_then_in-front inp outp c =
    parsed_if-in inp (parsed_if outp b'>' c).0
    ∙ ap (front inp false) (parsed_if-out outp c)
    ∙ front-front-in inp outp c

pub in_then_out-front : (c : List ℕ) → (in_then_out c).text ≡ front true true c
in_then_out-front c =
    parsed_if-out true (parsed b'<' c).0
    ∙ ap (front false true) (parsed_if-in true c)
    ∙ front-front-out true true c
