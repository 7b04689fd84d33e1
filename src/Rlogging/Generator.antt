-- ===== src/Rlogging/Generator.antt =====
-- What `expand_gen` of appendixD/rlogging.c makes of a format, compiled without threads.
use usp.Base.{
  ℕ, ◌-◌, ◌≤◌, ◌<◌, ◌≡◌, ◌≢◌, ◌⊎◌, ◌∙◌, ap, ap₂, subst, Bool, append-nil, refl, true, false,
  Bool-cases, All, Option, none, some, List, [], ◌∷◌, ◌++◌, length, length-append, take, ◌==◌, ltb,
  leb, inl, inr, arith,
}
use usp.Text.{decimal}
use usp.Rlogging.{threadid, keep_front, strstr, expansion, expanded, expand_gen}
use usp.Rlogging.Message.{take_front, take_fitting}

-- A text without a percent sign.
abbrev pub Plain : List ℕ → Type 0
Plain s = All (λ c. (c == b'%') ≡ false) s

-- The formats with at most one %p and one %t between plain texts.
pub data Format : Type 0 where
  default : Format
  plain : ℕ → List ℕ → Format
  pid_only tid_only : List ℕ → List ℕ → Format
  pid_tid tid_pid : List ℕ → List ℕ → List ℕ → Format

abbrev pub IsFormat : Format → Type 0
IsFormat default = Unit
IsFormat (plain c a) = Plain (c ∷ a)
IsFormat (pid_only a b) = Plain a × Plain b
IsFormat (tid_only a b) = Plain a × Plain b
IsFormat (pid_tid a b c) = Plain a × Plain b × Plain c
IsFormat (tid_pid a b c) = Plain a × Plain b × Plain c

abbrev pub text : Format → List ℕ
text default = []
text (plain c a) = c ∷ a
text (pid_only a b) = a ++ (b'%' ∷ b'p' ∷ b)
text (tid_only a b) = a ++ (b'%' ∷ b't' ∷ b)
text (pid_tid a b c) = a ++ (b'%' ∷ b'p' ∷ (b ++ (b'%' ∷ b't' ∷ c)))
text (tid_pid a b c) = a ++ (b'%' ∷ b't' ∷ (b ++ (b'%' ∷ b'p' ∷ c)))

-- What a format stands for: the process ID for %p, and the number that stands for the thread for %t.
abbrev pub meant : ℕ → Format → List ℕ
meant pid default = decimal pid
meant pid (plain c a) = c ∷ a
meant pid (pid_only a b) = a ++ (decimal pid ++ b)
meant pid (tid_only a b) = a ++ (decimal threadid ++ b)
meant pid (pid_tid a b c) = a ++ (decimal pid ++ (b ++ (decimal threadid ++ c)))
meant pid (tid_pid a b c) = a ++ (decimal threadid ++ (b ++ (decimal pid ++ c)))

abbrev behind : List ℕ → Option (List ℕ × List ℕ) → Option (List ℕ × List ℕ)
behind a none = none
behind a (some (before, after)) = some (a ++ before, after)

behind-nil : (r : Option (List ℕ × List ℕ)) → r ≡ behind [] r
behind-nil none = refl
behind-nil (some p) = refl

keep_front-behind :
    (c : ℕ) (a : List ℕ) (r : Option (List ℕ × List ℕ))
    → keep_front c (behind a r) ≡ behind (c ∷ a) r
keep_front-behind c a none = refl
keep_front-behind c a (some p) = refl

strstr-none : (l : ℕ) (s : List ℕ) → Plain s → strstr l s ≡ none
unfolding strstr
strstr-none l [] h = refl
strstr-none l (c ∷ []) h = refl
strstr-none l (c ∷ e ∷ s) h = rw (h.0, strstr, strstr-none l (e ∷ s) h.1) refl

-- Plain text is passed over.
strstr-Plain :
    (l : ℕ) (a s : List ℕ) → Plain a → strstr l (a ++ (b'%' ∷ s)) ≡ behind a (strstr l (b'%' ∷ s))
unfolding strstr
strstr-Plain l [] s h = behind-nil (strstr l (b'%' ∷ s))
strstr-Plain l (c ∷ []) s h =
    rw (h.0, strstr)
      (ap (keep_front c) (behind-nil (strstr l (b'%' ∷ s))) ∙ keep_front-behind c [] _)
strstr-Plain l (c ∷ e ∷ a) s h =
    rw (h.0, strstr)
      (ap (keep_front c) (strstr-Plain l (e ∷ a) s h.1) ∙ keep_front-behind c (e ∷ a) _)

strstr-found : (l : ℕ) (s : List ℕ) → strstr l (b'%' ∷ l ∷ s) ≡ some ([], s)
unfolding strstr
strstr-found l s = let same : (l == l) ≡ true = ground arith in rw (same, strstr) refl

strstr-letter :
    (l m : ℕ) (s : List ℕ) → (m == b'%') ≡ false → strstr l (m ∷ s) ≡ behind (m ∷ []) (strstr l s)
unfolding strstr
strstr-letter l m [] h = refl
strstr-letter l m (c ∷ s) h =
    rw (h, strstr) (ap (keep_front m) (behind-nil (strstr l (c ∷ s))) ∙ keep_front-behind m [] _)

-- The other conversion is passed over.
strstr-other :
    (l m : ℕ) (s : List ℕ)
    → (m == l) ≡ false
    → (m == b'%') ≡ false
    → strstr l (b'%' ∷ m ∷ s) ≡ behind (b'%' ∷ m ∷ []) (strstr l s)
unfolding strstr
strstr-other l m s h k =
    rw (h, strstr)
      (ap (keep_front b'%') (strstr-letter l m s k) ∙ keep_front-behind b'%' (m ∷ []) _)

-- The place of a conversion behind plain text, and behind the other one.
strstr-first : (l : ℕ) (a s : List ℕ) → Plain a → strstr l (a ++ (b'%' ∷ l ∷ s)) ≡ some (a, s)
strstr-first l a s h =
    strstr-Plain l a (l ∷ s) h
    ∙ ap (behind a) (strstr-found l s)
    ∙ ap (λ x. some (x, s)) (append-nil a)

strstr-second :
    (l m : ℕ) (a s : List ℕ)
    → Plain a
    → (m == l) ≡ false
    → (m == b'%') ≡ false
    → strstr l (a ++ (b'%' ∷ m ∷ s)) ≡ behind a (behind (b'%' ∷ m ∷ []) (strstr l s))
strstr-second l m a s h k k' = strstr-Plain l a (m ∷ s) h ∙ ap (behind a) (strstr-other l m s k k')

expanded-text :
    (pid : ℕ) (s : List ℕ)
    → s ≢ []
    → expanded pid s ≡ expansion pid s (strstr b'p' s) (strstr b't' s)
unfolding expanded
expanded-text pid [] h = absurd (h refl)
expanded-text pid (c ∷ s) h = refl

append-ne : (a : List ℕ) (c : ℕ) (s : List ℕ) → a ++ (c ∷ s) ≢ []
append-ne [] c s e = ground arith
append-ne (d ∷ a) c s e = ground arith

-- What stands between the two conversions.
between-before : (a b : List ℕ) (x y : ℕ) → ltb (length a) (length (a ++ (x ∷ y ∷ b))) ≡ true
between-before a b x y = ground (arith, length-append a (x ∷ y ∷ b))

between-after : (a b : List ℕ) (x y : ℕ) → ltb (length (a ++ (x ∷ y ∷ b))) (length a) ≡ false
between-after a b x y = ground (arith, length-append a (x ∷ y ∷ b))

between-take :
    (a b z : List ℕ) (x y : ℕ) → take (length (a ++ (x ∷ y ∷ b)) - length a - 2) (b ++ z) ≡ b
between-take a b z x y =
    ap (λ n. take n (b ++ z)) (omega (arith, length-append a (x ∷ y ∷ b))) ∙ take_front b z

strstr-absent :
    (l m : ℕ) (a b : List ℕ)
    → Plain a
    → Plain b
    → (m == l) ≡ false
    → (m == b'%') ≡ false
    → strstr l (a ++ (b'%' ∷ m ∷ b)) ≡ none
strstr-absent l m a b ha hb k k' =
    strstr-second l m a b ha k k'
    ∙ ap (λ r. behind a (behind (b'%' ∷ m ∷ []) r)) (strstr-none l b hb)

strstr-last :
    (l m : ℕ) (a b c : List ℕ)
    → Plain a
    → Plain b
    → (m == l) ≡ false
    → (m == b'%') ≡ false
    → strstr l (a ++ (b'%' ∷ m ∷ (b ++ (b'%' ∷ l ∷ c)))) ≡ some (a ++ (b'%' ∷ m ∷ b), c)
strstr-last l m a b c ha hb k k' =
    strstr-second l m a (b ++ (b'%' ∷ l ∷ c)) ha k k'
    ∙ ap (λ r. behind a (behind (b'%' ∷ m ∷ []) r)) (strstr-first l b c hb)

expanded-meant : (pid : ℕ) (f : Format) → IsFormat f → expanded pid (text f) ≡ meant pid f
unfolding expansion expanded
expanded-meant pid default h = refl
expanded-meant pid (plain c a) h = rw (strstr-none b'p' (c ∷ a) h, strstr-none b't' (c ∷ a) h) refl
expanded-meant pid (pid_only a b) (ha, hb) =
    expanded-text pid (text (pid_only a b)) (append-ne a b'%' (b'p' ∷ b))
    ∙ ap₂ (expansion pid (text (pid_only a b))) (strstr-first b'p' a b ha)
        (strstr-absent b't' b'p' a b ha hb refl refl)
expanded-meant pid (tid_only a b) (ha, hb) =
    expanded-text pid (text (tid_only a b)) (append-ne a b'%' (b't' ∷ b))
    ∙ ap₂ (expansion pid (text (tid_only a b))) (strstr-absent b'p' b't' a b ha hb refl refl)
        (strstr-first b't' a b ha)
expanded-meant pid (pid_tid a b c) (ha, hb, hc) =
    expanded-text pid (text (pid_tid a b c)) (append-ne a b'%' (b'p' ∷ (b ++ (b'%' ∷ b't' ∷ c))))
    ∙ ap₂ (expansion pid (text (pid_tid a b c))) (strstr-first b'p' a (b ++ (b'%' ∷ b't' ∷ c)) ha)
        (strstr-last b't' b'p' a b c ha hb refl refl)
    ∙ rw (between-before a b b'%' b'p') (
        ap (λ m. a ++ (decimal pid ++ (m ++ (decimal threadid ++ c))))
          (between-take a b (b'%' ∷ b't' ∷ c) b'%' b'p'))
expanded-meant pid (tid_pid a b c) (ha, hb, hc) =
    expanded-text pid (text (tid_pid a b c)) (append-ne a b'%' (b't' ∷ (b ++ (b'%' ∷ b'p' ∷ c))))
    ∙ ap₂ (expansion pid (text (tid_pid a b c))) (strstr-last b'p' b't' a b c ha hb refl refl)
        (strstr-first b't' a (b ++ (b'%' ∷ b'p' ∷ c)) ha)
    ∙ rw (between-after a b b'%' b't') (
        ap (λ m. a ++ (decimal threadid ++ (m ++ (decimal pid ++ c))))
          (between-take a b (b'%' ∷ b'p' ∷ c) b'%' b't'))

-- What `expand_gen` leaves of a text in a buffer of `size` bytes: all of it, with the 0 at its end, and
-- the result 0; or, where that does not fit, what fits, and the result 1.
abbrev pub Expanded : List ℕ → ℕ → List ℕ × Bool → Type 0
Expanded t size r =
    ((length t < size) × (r ≡ (t, false))) ⊎ ((size ≤ length t) × (r ≡ (take (size - 1) t, true)))

-- For a format with at most one %p and one %t, in any order between texts without a percent sign, and
-- for the empty one: `expand_gen` puts the process ID for %p and, compiled without threads, a fixed
-- number for %t, and the process ID alone for the empty format. It returns 0 where the text fits into
-- the buffer with the 0 at its end, and otherwise 1 with the text cut to what fits.
pub expand_gen-Expanded :
    (pid : ℕ) (f : Format) (gensize : ℕ)
    → IsFormat f
    → 0 < gensize
    → Expanded (meant pid f) gensize (expand_gen pid (text f) gensize)
unfolding expand_gen
expand_gen-Expanded pid f gensize plain_texts some_room =
    subst
      (λ t.
        Expanded t gensize (
          take (gensize - 1) (expanded pid (text f)),
          leb gensize (length (expanded pid (text f))),
        ))
      (expanded-meant pid f plain_texts) (go (expanded pid (text f)))
  where
    go : (t : List ℕ) → Expanded t gensize (take (gensize - 1) t, leb gensize (length t))
    go t = elim (Bool-cases (leb gensize (length t))) [
      | inl long ↦ inr (ground arith, ap (λ b. (take (gensize - 1) t, b)) long)
      | inr fits ↦
          inl (ground arith, ap₂ (λ u b. (u, b)) (take_fitting (gensize - 1) t (ground arith)) fits)
    ]
