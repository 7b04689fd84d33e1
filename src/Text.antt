-- ===== src/Text.antt =====
-- What the sources use of string.h: a string is the list of its bytes, without the 0 at its end.
pub mod Words
use Prim.Native.Char.{code}
use Prim.Native.String.{String}
use usp.Base.{
  ℕ, zero, suc, ◌+◌, ◌/◌, ◌%◌, ltb, Bool, true, false, Option, none, some, List, [], ◌∷◌, ◌==◌,
  if◌then◌else◌,
}

unfoldable pub is_in : ℕ → List ℕ → Bool
is_in c [] = false
is_in c (d ∷ ds) = if c == d then true else is_in c ds

-- The number of bytes at the start of a string that are delimiters.
unfoldable pub strspn : List ℕ → List ℕ → ℕ
strspn [] delimiters = 0
strspn (c ∷ s) delimiters = elim (is_in c delimiters) [
  | true ↦ suc (strspn s delimiters)
  | false ↦ 0
]

-- The token at the start of a string, and what follows the delimiter that ends it.
unfoldable pub take_token : List ℕ → List ℕ → List ℕ × List ℕ
take_token delimiters [] = ([], [])
take_token delimiters (c ∷ s) = elim (is_in c delimiters) [
  | true ↦ ([], s)
  | false ↦ let (t, rest) = take_token delimiters s in (c ∷ t, rest)
]

-- One call of `strtok` on the string that is left: the token and what is left after it, or NULL.
unfoldable pub strtok : List ℕ → List ℕ → Option (List ℕ × List ℕ)
unfolding take_token
strtok delimiters [] = none
strtok delimiters (c ∷ s) = elim (is_in c delimiters) [
  | true ↦ strtok delimiters s
  | false ↦ let (t, rest) = take_token delimiters s in some (c ∷ t, rest)
]

-- The bytes of a literal of the source.
abbrev pub codes : String → List ℕ
codes String.[] = []
codes (String.◌∷◌ c s) = code c ∷ codes s

-- The digits that `%d` prints for a number that is not negative, in front of `out`, on fuel.
unfoldable pub digits : ℕ → ℕ → List ℕ → List ℕ
digits zero n out = out
digits (suc fuel) n out = elim (ltb n 10) [
  | true ↦ (b'0' + n) ∷ out
  | false ↦ digits fuel (n / 10) ((b'0' + n % 10) ∷ out)
]

unfoldable pub decimal : ℕ → List ℕ
unfolding digits
decimal n = digits (n + 1) n []
