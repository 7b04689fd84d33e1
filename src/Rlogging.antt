-- ===== src/Rlogging.antt =====
-- appendixD/rlogging.c, logging over the network, as it is compiled without threads. The environment,
-- the arguments of a format and the results of `malloc` are given to the functions.
pub mod Message
pub mod Generator
pub mod Connection
pub mod Laws
mod Tests
use usp.Base.{
  ℕ, zero, suc, ◌+◌, ◌-◌, Bool, true, false, ◌||◌, Option, none, some, List, [], ◌∷◌, ◌++◌, length,
  take, drop, ◌==◌, ltb, leb, if◌then◌else◌,
}
use usp.Text.{codes, decimal}

abbrev pub logging_genmax : ℕ
logging_genmax = 50

-- `get_threadid` without threads.
abbrev pub threadid : ℕ
threadid = 1

abbrev pub keep_front : ℕ → Option (List ℕ × List ℕ) → Option (List ℕ × List ℕ)
keep_front c none = none
keep_front c (some (before, after)) = some (c ∷ before, after)

-- `strstr(s, "%l")` for a letter `l`: what stands before and behind the first place.
unfoldable pub strstr : ℕ → List ℕ → Option (List ℕ × List ℕ)
strstr l [] = none
strstr l (c ∷ []) = none
strstr l (c ∷ e ∷ s) =
    let later = strstr l (e ∷ s) in
    if c == b'%' then (if e == l then some ([], s) else keep_front c later) else keep_front c later

-- The text that `expand_gen` prints for a format, `pp` and `pt` being the places of %p and %t.
unfoldable pub expansion : ℕ → List ℕ → Option (List ℕ × List ℕ) → Option (List ℕ × List ℕ) → List ℕ
expansion pid gen_fmt none none = gen_fmt
expansion pid gen_fmt (some (before, after)) none = before ++ (decimal pid ++ after)
expansion pid gen_fmt none (some (before, after)) = before ++ (decimal threadid ++ after)
expansion pid gen_fmt (some (bp, ap)) (some (bt, at)) =
    if ltb (length bp) (length bt)
    then bp ++ (decimal pid ++ (take (length bt - length bp - 2) ap ++ (decimal threadid ++ at)))
    else bt ++ (decimal threadid ++ (take (length bp - length bt - 2) at ++ (decimal pid ++ ap)))

unfoldable pub expanded : ℕ → List ℕ → List ℕ
unfolding expansion
expanded pid [] = decimal pid
expanded pid (c ∷ g) = expansion pid (c ∷ g) (strstr b'p' (c ∷ g)) (strstr b't' (c ∷ g))

-- What `snprintf` puts into `gen`, and whether the text does not fit.
unfoldable pub expand_gen : ℕ → List ℕ → ℕ → List ℕ × Bool
unfolding expanded
expand_gen pid gen_fmt gensize =
    let needed = expanded pid gen_fmt in (take (gensize - 1) needed, leb gensize (length needed))

-- The string of 12 bytes that `make_time_string` makes: `ctime` is the line of `ctime`, and `fract`
-- the five bytes of the fraction, of which the first is overwritten.
unfoldable pub make_time_string : List ℕ → List ℕ → List ℕ
make_time_string ctime fract = take 8 (drop 11 ctime) ++ drop 1 fract

-- The time that a message starts with, if it does: "%lu;%lu;".
unfoldable pub times_prefix : Bool → ℕ → ℕ → List ℕ
times_prefix false sec usec = []
times_prefix true sec usec = decimal sec ++ (b';' ∷ (decimal usec ++ (b';' ∷ [])))

-- `ret < 0` or `ret >= LOGGING_BUFSIZE` is an error.
unfoldable pub fitting : ℕ → Option (List ℕ) → Option (List ℕ)
fitting bufsize none = none
fitting bufsize (some text) = if leb bufsize (length text) then none else some text

-- The message text, with %t replaced by `timebuf`. `vsnprintf` is what the arguments make of a
-- format, `none` for a negative result.
unfoldable pub format_text :
    ℕ → (List ℕ → Option (List ℕ)) → List ℕ → List ℕ → Option (List ℕ × List ℕ) → Option (List ℕ)
unfolding fitting
format_text bufsize vsnprintf fmt timebuf none = fitting bufsize (vsnprintf fmt)
format_text bufsize vsnprintf fmt timebuf (some (before, after)) =
    if leb bufsize (length fmt + 13)
    then none
    else fitting bufsize (vsnprintf (before ++ (timebuf ++ after)))

-- "%d:%s%s;%s"
unfoldable pub pack : List ℕ → List ℕ → List ℕ → List ℕ
pack timesbuf genbuf buftemp =
    let blen = length buftemp + length genbuf + length timesbuf in
    decimal (blen + 1) ++ (b':' ∷ (timesbuf ++ (genbuf ++ (b';' ∷ buftemp))))

-- The message that `lprintfgen` writes, unless something does not fit.
unfoldable pub message :
    ℕ → ℕ → Bool → ℕ → ℕ → List ℕ → List ℕ → List ℕ → (List ℕ → Option (List ℕ)) → Option (List ℕ)
unfolding format_text pack expand_gen times_prefix
message bufsize pid tmode sec usec timebuf gen fmt vsnprintf =
    elim (format_text bufsize vsnprintf fmt timebuf (strstr b't' fmt)) [
      | none ↦ none
      | some buftemp ↦
          fitting bufsize (
            some (pack (times_prefix tmode sec usec) (expand_gen pid gen logging_genmax).0 buftemp))
    ]
