-- ===== src/Wordaverage.antt =====
-- chapter02/wordaverage.c: the average number of words in the lines of a string. Inside a line the
-- words are counted by a second use of `strtok_r`, which the first one does not see.
mod Lines
mod Tests
use usp.Base.{ℕ, zero, suc, ◌+◌, Option, none, some, List, [], ◌∷◌}
use usp.Text.{strtok}
use usp.Makeargv.{count_tokens}

abbrev pub line_delimiters : List ℕ
line_delimiters = b'\n' ∷ []

abbrev pub word_delimiters : List ℕ
word_delimiters = b' ' ∷ []

unfoldable pub wordcount : ℕ → List ℕ → Option ℕ
wordcount fuel s = count_tokens fuel word_delimiters s

-- The loop over the lines after the first one, with `words` and `linecount` so far.
unfoldable pub line_loop : ℕ → ℕ → List ℕ → ℕ → ℕ → Option (ℕ × ℕ)
unfolding wordcount strtok
line_loop zero calls rest words linecount = none
line_loop (suc fuel) calls rest words linecount = elim (strtok line_delimiters rest) [
  | none ↦ some (words, linecount)
  | some (nextline, rest') ↦ elim (wordcount calls nextline) [
    | none ↦ none
    | some k ↦ line_loop fuel calls rest' (words + k) (linecount + 1)
  ]
]

-- The average is `words / linecount`, given as the two numbers, or `none` for 0.0.
unfoldable pub wordaverage : ℕ → ℕ → List ℕ → Option (Option (ℕ × ℕ))
unfolding line_loop
wordaverage fuel calls s = elim (strtok line_delimiters s) [
  | none ↦ some none
  | some (nextline, rest) ↦ elim (wordcount calls nextline) [
    | none ↦ none
    | some k ↦ elim (line_loop fuel calls rest k 1) [ none ↦ none | some a ↦ some (some a) ]
  ]
]
