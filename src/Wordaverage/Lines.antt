-- ===== src/Wordaverage/Lines.antt =====
-- The words and the lines that `wordaverage` counts.
use usp.Base.{
  ℕ, zero, suc, ◌+◌, ◌<◌, ◌≡◌, ◌∙◌, ap, ap₂, refl, sym, Option, none, some, List, [], ◌∷◌, length,
  arith,
}
use usp.Text.{strtok}
use usp.Text.Words.{words, strtok-FirstWord, FirstWord}
use usp.Makeargv.Tokens.{count_tokens_lem}
use usp.Wordaverage.{line_delimiters, word_delimiters, wordcount, line_loop, wordaverage}

-- The number of words in all of these lines.
abbrev pub words_in : List (List ℕ) → ℕ
words_in [] = 0
words_in (l ∷ ls) = length (words word_delimiters l) + words_in ls

abbrev lines : List ℕ → List (List ℕ)
lines s = words line_delimiters s

-- A line as short as `calls` has its words counted.
wordcount_lem :
    (calls : ℕ) (l : List ℕ)
    → length l < calls
    → wordcount calls l ≡ some (length (words word_delimiters l))
unfolding wordcount
wordcount_lem calls l h = count_tokens_lem calls word_delimiters l h

line_loop_lem :
    (fuel calls : ℕ) (rest : List ℕ) (k n : ℕ)
    → length rest < fuel
    → length rest < calls
    → line_loop fuel calls rest k n ≡ some (k + words_in (lines rest), n + length (lines rest))
unfolding line_loop
line_loop_lem zero calls rest k n h c = absurd (omega arith)
line_loop_lem (suc fuel) calls rest k n h c =
    go (line_loop_lem fuel calls) (strtok line_delimiters rest) refl
      (strtok-FirstWord line_delimiters rest)
  where
    go :
        ((rest' : List ℕ) (k n : ℕ)
          → length rest' < fuel
          → length rest' < calls
          → line_loop fuel calls rest' k n
            ≡ some (k + words_in (lines rest'), n + length (lines rest')))
        → (r : Option (List ℕ × List ℕ)) → strtok line_delimiters rest ≡ r
        → FirstWord line_delimiters rest r
        → line_loop (suc fuel) calls rest k n
          ≡ some (k + words_in (lines rest), n + length (lines rest))
    go ih none e x =
        rw (e, line_loop)
          (ap some
            (ap₂ (λ a b. (a, b)) (omega (arith, ap words_in x)) (omega (arith, ap length x))))
    go ih (some (l, rest')) e (x, lt, le) =
        let count = wordcount_lem calls l (omega arith) in
        rw (e, line_loop)
          (rw (count, line_loop)
            (ih rest' (k + length (words word_delimiters l)) (n + 1) (omega arith) (omega arith)
              ∙ ap some (
                  ap₂ (λ a b. (a, b)) (omega (arith, ap words_in x)) (omega (arith, ap length x)))))

-- The words and the lines, or nothing for no lines.
abbrev pub average_of : List (List ℕ) → Option (ℕ × ℕ)
average_of [] = none
average_of (l ∷ ls) = some (words_in (l ∷ ls), length (l ∷ ls))

-- With more fuel than the string has bytes, `wordaverage` divides the number of words by the number
-- of lines that are not empty, and returns 0.0 if there is no such line.
pub wordaverage_lem :
    (fuel calls : ℕ) (s : List ℕ)
    → length s < fuel
    → length s < calls
    → wordaverage fuel calls s ≡ some (average_of (words line_delimiters s))
unfolding wordaverage
wordaverage_lem fuel calls s h c =
    go (strtok line_delimiters s) refl (strtok-FirstWord line_delimiters s)
  where
    go :
        (r : Option (List ℕ × List ℕ))
        → strtok line_delimiters s ≡ r
        → FirstWord line_delimiters s r
        → wordaverage fuel calls s ≡ some (average_of (lines s))
    go none e x = rw (e, wordaverage) (ap some (sym (ap average_of x)))
    go (some (l, rest)) e (x, lt, le) =
        let count = wordcount_lem calls l (omega arith) in
        let loop =
          line_loop_lem fuel calls rest (length (words word_delimiters l)) 1 (omega arith)
            (omega arith) in
        rw (e, wordaverage)
          (rw (count, wordaverage)
            (rw (loop, wordaverage)
              (ap (λ n. some (some (words_in (l ∷ lines rest), n))) (omega arith)
                ∙ ap (λ ls. some (average_of ls)) (sym x))))
