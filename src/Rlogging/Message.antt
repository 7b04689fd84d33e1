-- ===== src/Rlogging/Message.antt =====
-- The messages of appendixD/rlogging.c as a receiver reads them.
use usp.Base.{
  ℕ, zero, suc, ◌+◌, ◌-◌, ◌*◌, ◌/◌, ◌%◌, ◌≤◌, ◌<◌, ◌≡◌, ◌∙◌, ap, refl, true, false, Bool-cases,
  Option, none, some, List, [], ◌∷◌, ◌++◌, append_assoc, length, length-append, take, drop, ◌==◌,
  ltb, inl, inr, arith,
}
use usp.Text.{digits, decimal}
use usp.Rlogging.{pack}

-- A number up to the colon behind it, and what follows.
abbrev pub scan : List ℕ → ℕ → Option (ℕ × List ℕ)
scan [] n = none
scan (c ∷ s) n = elim (c == b':') [ true ↦ some (n, s) | false ↦ scan s (n * 10 + (c - b'0')) ]

abbrev pub cut : Option (ℕ × List ℕ) → Option (List ℕ × List ℕ)
cut none = none
cut (some (n, s)) = some (take n s, drop n s)

-- The body of the first message of a stream, and the rest of the stream.
abbrev pub unpack : List ℕ → Option (List ℕ × List ℕ)
unpack s = cut (scan s 0)

scan-digit : (d : ℕ) (s : List ℕ) (n : ℕ) → d < 10 → scan ((b'0' + d) ∷ s) n ≡ scan s (n * 10 + d)
scan-digit d s n h =
    let other : ((b'0' + d) == b':') ≡ false = ground arith in
    rw (other, scan) (ap (scan s) (omega arith))

scan-digits :
    (fuel n : ℕ) (out s : List ℕ) → n < fuel → scan (digits fuel n out ++ s) 0 ≡ scan (out ++ s) n
unfolding digits
scan-digits zero n out s h = absurd (omega arith)
scan-digits (suc fuel) n out s h = elim (Bool-cases (ltb n 10)) [
  | inl small ↦
      rw (small, digits)
        (scan-digit n (out ++ s) 0 (ground arith) ∙ ap (scan (out ++ s)) (omega arith))
  | inr big ↦
      let large : 10 ≤ n = ground arith in
      rw (big, digits)
        (scan-digits fuel (n / 10) ((b'0' + n % 10) ∷ out) s (omega arith)
          ∙ scan-digit (n % 10) (out ++ s) (n / 10) (omega arith)
          ∙ ap (scan (out ++ s)) (omega arith))
]

scan-decimal : (n : ℕ) (s : List ℕ) → scan (decimal n ++ s) 0 ≡ scan s n
unfolding decimal
scan-decimal n s = scan-digits (n + 1) n [] s (omega arith)

pub take_front : (a b : List ℕ) → take (length a) (a ++ b) ≡ a
take_front [] b = refl
take_front (c ∷ a) b = ap (λ l. c ∷ l) (take_front a b)

drop_front : (a b : List ℕ) → drop (length a) (a ++ b) ≡ b
drop_front [] b = refl
drop_front (c ∷ a) b = drop_front a b

-- The body of a message.
abbrev pub body_of : List ℕ → List ℕ → List ℕ → List ℕ
body_of timesbuf genbuf buftemp = timesbuf ++ (genbuf ++ (b';' ∷ buftemp))

-- A packed message, followed by anything, is read back: its body, and what follows it.
pub unpack-pack :
    (timesbuf genbuf buftemp rest : List ℕ)
    → unpack (pack timesbuf genbuf buftemp ++ rest) ≡ some (body_of timesbuf genbuf buftemp, rest)
unfolding pack
unpack-pack t g m rest =
    let body = body_of t g m in
    let n = length m + length g + length t + 1 in
    let len : n ≡ length body =
      omega (arith, length-append t (g ++ (b';' ∷ m)), length-append g (b';' ∷ m)) in
    ap (λ s. cut (scan s 0)) (append_assoc (decimal n) (b':' ∷ body) rest)
    ∙ ap cut (scan-decimal n (b':' ∷ (body ++ rest)))
    ∙ ap (λ k. cut (some (k, body ++ rest))) len
    ∙ ap (λ b. some (b, drop (length body) (body ++ rest))) (take_front body rest)
    ∙ ap (λ r. some (body, r)) (drop_front body rest)

pub take_fitting : (n : ℕ) (s : List ℕ) → length s ≤ n → take n s ≡ s
take_fitting zero [] le = refl
take_fitting zero (c ∷ s) le = absurd (omega arith)
take_fitting (suc n) [] le = refl
take_fitting (suc n) (c ∷ s) le = ap (λ l. c ∷ l) (take_fitting n s (omega arith))
