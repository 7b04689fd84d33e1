-- ===== src/Wordaverage/Tests.antt =====
-- The theorem on `wordaverage` at a concrete string, and a run of it.
use usp.Base.{ℕ, ◌≡◌, refl, some, List, [], ◌∷◌, arith}
use usp.Text.{is_in}
use usp.Makeargv.{count_tokens}
use usp.Text.Words.{words}
use usp.Wordaverage.{line_delimiters, wordaverage}
use usp.Wordaverage.Lines.{average_of, wordaverage_lem}

-- "a b\n\nc"
abbrev text : List ℕ
text = b'a' ∷ b' ' ∷ b'b' ∷ b'\n' ∷ b'\n' ∷ b'c' ∷ []

three_words : wordaverage 7 7 text ≡ some (some (3, 2))
unfolding wordaverage is_in count_tokens
three_words = refl

wordaverage_lem_example : wordaverage 7 7 text ≡ some (average_of (words line_delimiters text))
wordaverage_lem_example = wordaverage_lem 7 7 text (omega arith) (omega arith)
