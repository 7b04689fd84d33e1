-- ===== src/Makeargv.antt =====
-- chapter02/makeargv.c: a string cut into an array of tokens. What `malloc` grants is given to each
-- call; the loop that counts the tokens runs on fuel, and `none` says that it ran out.
pub mod Tokens
mod Tests
use usp.Base.{
  ℕ, zero, suc, ◌+◌, Bool, true, false, Option, none, some, List, [], ◌∷◌, ◌++◌, drop, ◌==◌,
  if◌then◌else◌,
}
use usp.Os.{Errno}
use usp.Text.{strspn, strtok}

-- What `makeargv` returns: -1 with `errno`, or `numtokens` with the array `*argvp`, in which `none`
-- is NULL.
pub data Made : Type 0 where
  failed : Errno → Made
  made : ℕ → List (Option (List ℕ)) → Made

-- `for (numtokens = 1; strtok(NULL, delimiters) != NULL; numtokens++) ;`
unfoldable pub count_loop : ℕ → List ℕ → List ℕ → ℕ → Option ℕ
unfolding strtok
count_loop zero delimiters rest numtokens = none
count_loop (suc fuel) delimiters rest numtokens = elim (strtok delimiters rest) [
  | none ↦ some numtokens
  | some (t, rest') ↦ count_loop fuel delimiters rest' (numtokens + 1)
]

-- The number of tokens in the copy `t` of the string.
unfoldable pub count_tokens : ℕ → List ℕ → List ℕ → Option ℕ
unfolding count_loop
count_tokens fuel delimiters t = elim (strtok delimiters t) [
  | none ↦ some 0
  | some (token, rest) ↦ count_loop fuel delimiters rest 1
]

-- The pointers that `n` calls of `strtok` put into the array, the first one on `rest`.
unfoldable pub insert_tokens : ℕ → List ℕ → List ℕ → List (Option (List ℕ))
unfolding strtok
insert_tokens zero delimiters rest = []
insert_tokens (suc n) delimiters rest = elim (strtok delimiters rest) [
  | none ↦ none ∷ insert_tokens n delimiters []
  | some (t, rest') ↦ some t ∷ insert_tokens n delimiters rest'
]

-- The array of `numtokens + 1` pointers.
unfoldable pub fill : Bool → List ℕ → List ℕ → ℕ → Made
unfolding insert_tokens
fill granted delimiters snew numtokens =
    if granted
    then made numtokens
        ((if numtokens == 0 then [] else insert_tokens numtokens delimiters snew) ++ (none ∷ []))
    else failed Errno.enomem

-- `argvp` is whether the pointer is not NULL, `copy` and `array` are whether `malloc` succeeds.
unfoldable pub makeargv : ℕ → Bool → Bool → Bool → Option (List ℕ) → Option (List ℕ) → Option Made
unfolding fill count_tokens
makeargv fuel argvp copy array none delimiters = some (failed Errno.einval)
makeargv fuel argvp copy array (some s) none = some (failed Errno.einval)
makeargv fuel false copy array (some s) (some delimiters) = some (failed Errno.einval)
makeargv fuel true false array (some s) (some delimiters) = some (failed Errno.enomem)
makeargv fuel true true array (some s) (some delimiters) =
    let snew = drop (strspn s delimiters) s in
    elim (count_tokens fuel delimiters snew) [
      | none ↦ none
      | some numtokens ↦ some (fill array delimiters snew numtokens)
    ]
