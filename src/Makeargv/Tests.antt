-- ===== src/Makeargv/Tests.antt =====
-- The theorems on `makeargv` at concrete strings, and a run of it.
use usp.Base.{ℕ, ◌≡◌, refl, true, some, none, List, [], ◌∷◌, length, arith}
use usp.Text.{is_in, strspn}
use usp.Text.Words.{words, join}
use usp.Makeargv.{made, makeargv}
use usp.Makeargv.Tokens.{argv_of, makeargv-words, makeargv-join}

-- "  ls -l"
abbrev line : List ℕ
line = b' ' ∷ b' ' ∷ b'l' ∷ b's' ∷ b' ' ∷ b'-' ∷ b'l' ∷ []

abbrev blanks : List ℕ
blanks = b' ' ∷ b'\t' ∷ []

two_tokens :
    makeargv 8 true true true (some line) (some blanks)
    ≡ some (made 2 (some (b'l' ∷ b's' ∷ []) ∷ some (b'-' ∷ b'l' ∷ []) ∷ none ∷ []))
unfolding makeargv strspn is_in
two_tokens = refl

makeargv-words_example :
    makeargv 8 true true true (some line) (some blanks)
    ≡ some (made (length (words blanks line)) (argv_of (words blanks line)))
makeargv-words_example = makeargv-words 8 line blanks (omega arith)

abbrev two_words : List (List ℕ)
two_words = (b'c' ∷ b'd' ∷ []) ∷ (b'/' ∷ []) ∷ []

makeargv-join_example :
    makeargv 9 true true true (some (join b' ' two_words)) (some blanks)
    ≡ some (made 2 (argv_of two_words))
unfolding is_in
makeargv-join_example =
    makeargv-join 9 b' ' blanks two_words refl (((refl, (refl, tt)), ((refl, tt), tt)))
      (omega arith)
