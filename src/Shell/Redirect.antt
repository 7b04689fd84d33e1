-- ===== src/Shell/Redirect.antt =====
-- What the redirections of chapter11 do to the table of the process.
use usp.Base.{
  ℕ, ◌≡◌, ◌≢◌, ◌⊎◌, ◌∙◌, inl, inr, refl, sym, ap, subst, Bool-cases, Option-cases, Option, none,
  some, List, [], ◌∷◌, ◌++◌, ◌==◌, ==_iff, arith,
}
use usp.Base.Int.{ℤ, pos, negsuc}
use usp.Os.{Reply, ok, fail, Os}
use usp.Text.{strtok}
use usp.Text.Words.{words, strtok-FirstWord, FirstWord}
use usp.Shell.{
  strchr, blanks, Processes, redirect, keep_command, parse_and_redirect, parseandredirectin,
  parseandredirectout,
}
use usp.Shell.Laws.{File, Sets, Adds, Tables, Refused, by_open2, by_open3, by_dup2, by_close}

pub ℤ-cases : (a b : ℤ) → (a ≡ b) ⊎ (a ≢ b)
ℤ-cases (pos m) (pos n) = elim (Bool-cases (m == n)) [
  | inl same ↦ inl (ap pos ((==_iff m n).0 same))
  | inr other ↦ inr (λ e. absurd (ground arith))
]
ℤ-cases (pos m) (negsuc n) = inr (λ e. absurd (ground arith))
ℤ-cases (negsuc m) (pos n) = inr (λ e. absurd (ground arith))
ℤ-cases (negsuc m) (negsuc n) = elim (Bool-cases (m == n)) [
  | inl same ↦ inl (ap negsuc ((==_iff m n).0 same))
  | inr other ↦ inr (λ e. absurd (ground arith))
]

-- What `strchr` finds.
abbrev pub Found : ℕ → List ℕ → Option (List ℕ × List ℕ) → Type 0
Found c s none = Unit
Found c s (some (before, after)) = s ≡ before ++ (c ∷ after)

Found-later :
    (c d : ℕ) (s : List ℕ) (r : Option (List ℕ × List ℕ))
    → Found c s r
    → Found c (d ∷ s) (elim r [ none ↦ none | some p ↦ some (d ∷ p.0, p.1) ])
Found-later c d s none x = tt
Found-later c d s (some (b, a)) x = ap (λ l. d ∷ l) x

pub strchr-Found : (c : ℕ) (s : List ℕ) → Found c s (strchr c s)
unfolding strchr
strchr-Found c [] = tt
strchr-Found c (d ∷ s) = elim (Bool-cases (d == c)) [
  | inl here ↦ rw (here, strchr) (ap (λ x. x ∷ s) ((==_iff d c).0 here))
  | inr further ↦ rw (further, strchr) (Found-later c d s (strchr c s) (strchr-Found c s))
]

-- The first word of a text.
abbrev pub first_word : List ℕ → Option (List ℕ)
first_word s = elim (words blanks s) [ [] ↦ none | path ∷ _ ↦ some path ]

-- What is meant by a symbol in a text: the text ends before it, and the word behind it names a file.
abbrev pub parsed : ℕ → List ℕ → List ℕ × Option (List ℕ)
parsed ch s = elim (strchr ch s) [ none ↦ (s, none) | some p ↦ (p.0, first_word p.1) ]

-- What a descriptor stands for after a redirection to the named file, if one is named.
abbrev pub redirected : (List ℕ → File) → Option (List ℕ) → Option File → Option File
redirected file none old = old
redirected file (some path) old = some (file path)

module _ {os : Os} {sys : Processes os} (t : Tables sys) where
  open os use {World, dup2, close, open2, open3}
  open t use {table}

  -- The call succeeded with `Q`, or an error is reported that a call gave.
  abbrev pub Outcome : {A : Type 0} → (A → World → Type 0) → Reply World A → Type 0
  Outcome Q (ok a v) = Q a v
  Outcome Q (fail e v) = Refused sys e

  -- The three calls of a redirection from a table in which `target` is open.
  pub redirect-Sets :
      (r : Reply World ℤ) (w : World) (target : ℤ) (x file : File)
      → table w target ≡ some x
      → Outcome (λ fd v. Adds (table w) (table v) fd file) r
      → Outcome (λ _ u. Sets (table w) (table u) target (some file)) (redirect sys r target)
  unfolding redirect
  redirect-Sets (fail e v) w target x file is_open bad = bad
  redirect-Sets (ok fd v) w target x file is_open (fresh, put_new) = dup (dup2 fd target v) refl
    where
      fd_ne : target ≢ fd
      fd_ne e = absurd (cc (is_open, fresh, ap (table w) e))

      shut :
          (a : ℤ) (u : World)
          → dup2 fd target v ≡ ok a u
          → (q : Reply World (Unit {0})) → close fd u ≡ q
          → Outcome (λ _ z. Sets (table w) (table z) target (some file)) q
      shut a u e (fail er z) c = by_close fd u z c
      shut a u e (ok b z) c =
          let (put, others) = t.dup2_law fd target a v u e in
          let (gone, left) = t.close_law fd u z c in
          (
            left target fd_ne ∙ (put ∙ put_new.0),
            (λ d ne. elim (ℤ-cases d fd) [
              | inl same ↦ ap (table z) same ∙ gone ∙ sym fresh ∙ ap (table w) (sym same)
              | inr other ↦ left d other ∙ (others d ne ∙ put_new.1 d other)
            ]),
          )

      dup :
          (q : Reply World ℤ)
          → dup2 fd target v ≡ q
          → Outcome
              (λ _ z. Sets (table w) (table z) target (some file))
              (elim q as (λ _. Reply World (Unit {0})) [
                | ok _ w' ↦ close fd w'
                | fail e w' ↦ elim (close fd w') [ ok _ w'' ↦ fail e w'' | fail _ w'' ↦ fail e w'' ]
              ])
      dup (ok a u) e = shut a u e (close fd u) refl
      dup (fail er u) e = clean (close fd u)
        where
          clean :
              (q : Reply World (Unit {0}))
              → Outcome
                  (λ _ z. Sets (table w) (table z) target (some file))
                  (elim q as (λ _. Reply World (Unit {0})) [
                    | ok _ w'' ↦ fail er w''
                    | fail _ w'' ↦ fail er w''
                  ])
          clean (ok _ z) = by_dup2 fd target v u e
          clean (fail _ z) = by_dup2 fd target v u e

  -- The command ends before `ch`, and `target` is the file that is named behind it, or as before.
  abbrev pub Cut : ℕ → ℤ → (List ℕ → File) → List ℕ → World → List ℕ → World → Type 0
  Cut ch target file s w s' u =
      (s' ≡ (parsed ch s).0)
      × (table u target ≡ redirected file (parsed ch s).1 (table w target))
      × ((d : ℤ) → d ≢ target → table u d ≡ table w d)

  keep_command-Sets :
      (target : ℤ) (x : File) (w : World) (before : List ℕ) (r : Reply World (Unit {0}))
      → Outcome (λ _ u. Sets (table w) (table u) target (some x)) r
      → Outcome
          (λ s' u. (s' ≡ before) × Sets (table w) (table u) target (some x))
          (keep_command sys before r)
  unfolding keep_command
  keep_command-Sets target x w before (fail e u) bad = bad
  keep_command-Sets target x w before (ok _ u) sets = (refl, sets)

  parse_and_redirect-Cut :
      (ch : ℕ) (opener : List ℕ → World → Reply World ℤ) (target : ℤ) (file : List ℕ → File)
      (s : List ℕ) (w : World) (x : File)
      → table w target ≡ some x
      → ((path : List ℕ)
          → Outcome (λ fd v. Adds (table w) (table v) fd (file path)) (opener path w))
      → Outcome (λ s' u. Cut ch target file s w s' u) (parse_and_redirect sys ch opener target s w)
  unfolding parse_and_redirect
  parse_and_redirect-Cut ch opener target file s w x is_open law =
      elim (Option-cases (strchr ch s)) [
        | inl absent ↦
            let eq : parsed ch s ≡ (s, none) = rw (absent, parsed) refl in
            subst (λ p. Outcome (After p) (parse_and_redirect sys ch opener target s w)) (sym eq)
              (rw (absent, parse_and_redirect) (refl, refl, (λ d ne. refl)))
        | inr ((b, a), cut) ↦
            let eq : parsed ch s ≡ (b, first_word a) = rw (cut, parsed) refl in
            subst (λ p. Outcome (After p) (parse_and_redirect sys ch opener target s w)) (sym eq)
              (rw (cut, parse_and_redirect)
                (go b a (strtok blanks a) refl (strtok-FirstWord blanks a)))
      ]
    where
      After : List ℕ × Option (List ℕ) → List ℕ → World → Type 0
      After p s' u =
          (s' ≡ p.0)
          × (table u target ≡ redirected file p.1 (table w target))
          × ((d : ℤ) → d ≢ target → table u d ≡ table w d)

      put :
          (b path : List ℕ) (r : Reply World (List ℕ))
          → Outcome (λ s' u. (s' ≡ b) × Sets (table w) (table u) target (some (file path))) r
          → Outcome (After (b, some path)) r
      put b path (fail e v) bad = bad
      put b path (ok s' v) (same, (set, others)) = (same, set, others)

      go :
          (b a : List ℕ) (r : Option (List ℕ × List ℕ))
          → strtok blanks a ≡ r
          → FirstWord blanks a r
          → Outcome
              (After (b, first_word a))
              (elim (strtok blanks a) as (λ _. Reply World (List ℕ)) [
                | none ↦ ok b w
                | some p ↦ keep_command sys b (redirect sys (opener p.0 w) target)
              ])
      go b a none f word =
          let eq : first_word a ≡ none = rw (word, first_word) refl in
          rw f (refl, ap (λ n. redirected file n (table w target)) (sym eq), (λ d ne. refl))
      go b a (some (path, rest)) f word =
          let eq : first_word a ≡ some path = rw (word.0, first_word) refl in
          rw f (
            subst
              (λ n.
                Outcome (After (b, n)) (keep_command sys b (redirect sys (opener path w) target)))
              (sym eq)
              (put b path _ (
                keep_command-Sets target (file path) w b _
                  (redirect-Sets (opener path w) w target x (file path) is_open (law path)))))

  pub open_in-Adds :
      (path : List ℕ) (w : World) (r : Reply World ℤ)
      → open2 path sys.o_rdonly w ≡ r
      → Outcome (λ fd v. Adds (table w) (table v) fd (File.input path)) r
  open_in-Adds path w (ok fd v) e = t.open_in_law path fd w v e
  open_in-Adds path w (fail er v) e = by_open2 path sys.o_rdonly w v e

  pub open_out-Adds :
      (path : List ℕ) (w : World) (r : Reply World ℤ)
      → open3 path sys.fflag sys.fmode w ≡ r
      → Outcome (λ fd v. Adds (table w) (table v) fd (File.output path)) r
  open_out-Adds path w (ok fd v) e = t.open_out_law path fd w v e
  open_out-Adds path w (fail er v) e = by_open3 path sys.fflag sys.fmode w v e

  pub parseandredirectin-Cut :
      (s : List ℕ) (w : World) (x : File)
      → table w (pos 0) ≡ some x
      → Outcome (λ s' u. Cut b'<' (pos 0) File.input s w s' u) (parseandredirectin sys s w)
  unfolding parseandredirectin
  parseandredirectin-Cut s w x is_open =
      parse_and_redirect-Cut b'<' (λ infile. open2 infile sys.o_rdonly) (pos 0) File.input s w x
        is_open (λ path. open_in-Adds path w _ refl)

  pub parseandredirectout-Cut :
      (s : List ℕ) (w : World) (x : File)
      → table w (pos 1) ≡ some x
      → Outcome (λ s' u. Cut b'>' (pos 1) File.output s w s' u) (parseandredirectout sys s w)
  unfolding parseandredirectout
  parseandredirectout-Cut s w x is_open =
      parse_and_redirect-Cut b'>' (λ outfile. open3 outfile sys.fflag sys.fmode) (pos 1) File.output
        s w x is_open (λ path. open_out-Adds path w _ refl)
