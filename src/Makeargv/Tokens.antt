-- ===== src/Makeargv/Tokens.antt =====
-- The array of `makeargv`, against the words of the string.
use usp.Base.{
  ℕ, zero, suc, ◌+◌, ◌<◌, ◌≡◌, ◌∙◌, ap, refl, sym, Bool, ◌&&◌, true, false, Bool-cases, Option,
  none, some, List, [], ◌∷◌, ◌++◌, drop, length, length-drop, eq_nil, map, All, ◌==◌, ==_iff, inl,
  inr, arith,
}
use usp.Os.{Errno}
use usp.Text.{is_in, strspn, strtok}
use usp.Text.Words.{words, strtok-FirstWord, FirstWord, words-drop-strspn, IsWord, join, words-join}
use usp.Makeargv.{failed, made, count_loop, count_tokens, insert_tokens, fill, makeargv}

count_loop_lem :
    (fuel : ℕ) (d rest : List ℕ) (n : ℕ)
    → length rest < fuel
    → count_loop fuel d rest n ≡ some (n + length (words d rest))
unfolding count_loop
count_loop_lem zero d rest n h = absurd (omega arith)
count_loop_lem (suc fuel) d rest n h =
    go (count_loop_lem fuel d) (strtok d rest) refl (strtok-FirstWord d rest)
  where
    go :
        ((rest' : List ℕ) (n : ℕ)
          → length rest' < fuel
          → count_loop fuel d rest' n ≡ some (n + length (words d rest')))
        → (r : Option (List ℕ × List ℕ)) → strtok d rest ≡ r
        → FirstWord d rest r
        → count_loop (suc fuel) d rest n ≡ some (n + length (words d rest))
    go ih none e x = rw (e, count_loop) (ap some (omega (arith, ap length x)))
    go ih (some (t, rest')) e (x, lt, le) =
        rw (e, count_loop) (ih rest' (n + 1) (omega arith) ∙ ap some (omega (arith, ap length x)))

pub count_tokens_lem :
    (fuel : ℕ) (d s : List ℕ) → length s < fuel → count_tokens fuel d s ≡ some (length (words d s))
unfolding count_tokens
count_tokens_lem fuel d s h = go (strtok d s) refl (strtok-FirstWord d s)
  where
    go :
        (r : Option (List ℕ × List ℕ))
        → strtok d s ≡ r
        → FirstWord d s r
        → count_tokens fuel d s ≡ some (length (words d s))
    go none e x = rw (e, count_tokens) (ap some (sym (ap length x)))
    go (some (t, rest)) e (x, lt, le) =
        rw (e, count_tokens)
          (count_loop_lem fuel d rest 1 (omega arith) ∙ ap some (omega (arith, ap length x)))

insert_tokens_lem :
    (n : ℕ) (d s : List ℕ) → length (words d s) ≡ n → insert_tokens n d s ≡ map some (words d s)
unfolding insert_tokens
insert_tokens_lem zero d s h = sym (ap (map some) (eq_nil (words d s) h))
insert_tokens_lem (suc n) d s h =
    go (insert_tokens_lem n d) (strtok d s) refl (strtok-FirstWord d s)
  where
    go :
        ((rest : List ℕ)
          → length (words d rest) ≡ n
          → insert_tokens n d rest ≡ map some (words d rest))
        → (r : Option (List ℕ × List ℕ)) → strtok d s ≡ r
        → FirstWord d s r
        → insert_tokens (suc n) d s ≡ map some (words d s)
    go ih none e x = absurd (omega (arith, ap length x))
    go ih (some (t, rest)) e (x, lt, le) =
        rw (e, insert_tokens)
          (ap (λ l. some t ∷ l) (ih rest (omega (arith, ap length x))) ∙ sym (ap (map some) x))

-- The array that ends in NULL.
abbrev pub argv_of : List (List ℕ) → List (Option (List ℕ))
argv_of ws = map some ws ++ (none ∷ [])

fill_lem :
    (d s : List ℕ)
    → fill true d s (length (words d s)) ≡ made (length (words d s)) (argv_of (words d s))
unfolding fill
fill_lem d s = elim (Bool-cases (length (words d s) == 0)) [
  | inl empty ↦
      rw (empty, fill)
        (ap (made (length (words d s))) (sym (ap argv_of (eq_nil _ ((==_iff _ _).0 empty)))))
  | inr some_words ↦
      rw (some_words, fill)
        (ap (λ l. made (length (words d s)) (l ++ (none ∷ []))) (insert_tokens_lem _ d s refl))
]

fill_refused : (d s : List ℕ) (n : ℕ) → fill false d s n ≡ failed Errno.enomem
unfolding fill
fill_refused d s n = refl

-- With arguments that are not NULL, memory granted and more fuel than the string has bytes,
-- `makeargv` returns the number of words of `s` and the array of them, in order, with NULL at its
-- end. The words are the nonempty pieces between delimiters.
pub makeargv-words :
    (fuel : ℕ) (s delimiters : List ℕ)
    → length s < fuel
    → makeargv fuel true true true (some s) (some delimiters)
      ≡ some (made (length (words delimiters s)) (argv_of (words delimiters s)))
unfolding makeargv
makeargv-words fuel s d h =
    let snew = drop (strspn s d) s in
    let same : words d snew ≡ words d s = words-drop-strspn d s in
    let count = count_tokens_lem fuel d snew (omega (arith, length-drop (strspn s d) s)) in
    rw (count, makeargv) (ap some (fill_lem d snew ∙ ap (λ ws. made (length ws) (argv_of ws)) same))

-- Where memory is refused for the copy or for the array, it fails with ENOMEM.
pub makeargv-refused :
    (fuel : ℕ) (copy array : Bool) (s delimiters : List ℕ)
    → copy && array ≡ false
    → length s < fuel
    → makeargv fuel true copy array (some s) (some delimiters) ≡ some (failed Errno.enomem)
unfolding makeargv
makeargv-refused fuel false array s d e h = refl
makeargv-refused fuel true true s d e h = absurd (ground arith)
makeargv-refused fuel true false s d e h =
    let snew = drop (strspn s d) s in
    let count = count_tokens_lem fuel d snew (omega (arith, length-drop (strspn s d) s)) in
    rw (count, makeargv) (ap some (fill_refused d snew (length (words d snew))))

-- A string made of words, each followed by a delimiter, is taken apart into these words again.
pub makeargv-join :
    (fuel c : ℕ) (delimiters : List ℕ) (ws : List (List ℕ))
    → is_in c delimiters ≡ true
    → All (IsWord delimiters) ws
    → length (join c ws) < fuel
    → makeargv fuel true true true (some (join c ws)) (some delimiters)
      ≡ some (made (length ws) (argv_of ws))
makeargv-join fuel c d ws h all enough =
    makeargv-words fuel (join c ws) d enough
    ∙ ap (λ vs. some (made (length vs) (argv_of vs))) (words-join d c ws h all)
