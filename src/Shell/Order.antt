-- ===== src/Shell/Order.antt =====
-- Both redirections of one command of chapter11, in either order.
use usp.Base.{
  ℕ, ◌≡◌, ◌≢◌, ◌∙◌, refl, sym, ap, true, false, none, some, List, [], ◌∷◌, ◌++◌, append_assoc,
  length, length-append, ◌==◌, ltb, All, All-append, arith,
}
use usp.Base.Int.{ℤ, pos}
use usp.Os.{Reply, ok, fail, Os}
use usp.Text.{is_in, take_token, strtok}
use usp.Text.Words.{words, IsWord, Clean}
use usp.Shell.{
  strchr, blanks, Processes, failure, no_command, End, execvp, exit, return, redirect, keep_command,
  parse_and_redirect, parseandredirectin, parseandredirectout, parse_and_exec, redirect_in,
  redirect_out, execute_rest, input_last, executeredirect,
}
use usp.Shell.Laws.{File, Sets, Adds, Tables, Refused}
use usp.Shell.Redirect.{Outcome, redirect-Sets, open_in-Adds, open_out-Adds}
use usp.Shell.Execute.{Parsed, parse_and_exec-Parsed}

-- `c` is not in the string.
abbrev pub Lacks : ℕ → List ℕ → Type 0
Lacks c s = All (λ d. (d == c) ≡ false) s

strchr-first : (c : ℕ) (x y : List ℕ) → Lacks c x → strchr c (x ++ (c ∷ y)) ≡ some (x, y)
unfolding strchr
strchr-first c [] y h = let same : (c == c) ≡ true = ground arith in rw (same, strchr) refl
strchr-first c (d ∷ x) y h = rw (h.0, strchr, strchr-first c x y h.1) refl

strchr-none : (c : ℕ) (x : List ℕ) → Lacks c x → strchr c x ≡ none
unfolding strchr
strchr-none c [] h = refl
strchr-none c (d ∷ x) h = rw (h.0, strchr, strchr-none c x h.1) refl

take_token-Clean : (d w : List ℕ) → Clean d w → take_token d w ≡ (w, [])
unfolding take_token
take_token-Clean d [] h = refl
take_token-Clean d (c ∷ w) h = rw (h.0, take_token, take_token-Clean d w h.1) refl

take_token-stop :
    (d w : List ℕ) (b : ℕ) (r : List ℕ)
    → Clean d w
    → is_in b d ≡ true
    → take_token d (w ++ (b ∷ r)) ≡ (w, r)
unfolding take_token
take_token-stop d [] b r h e = rw (e, take_token) refl
take_token-stop d (c ∷ w) b r h e = rw (h.0, take_token, take_token-stop d w b r h.1 e) refl

strtok-word : (d w : List ℕ) → IsWord d w → strtok d w ≡ some (w, [])
unfolding strtok
strtok-word d [] h = absurd h
strtok-word d (c ∷ w) h = rw (h.0, strtok, take_token-Clean d w h.1) refl

strtok-stop :
    (d w : List ℕ) (b : ℕ) (r : List ℕ)
    → IsWord d w
    → is_in b d ≡ true
    → strtok d (w ++ (b ∷ r)) ≡ some (w, r)
unfolding strtok
strtok-stop d [] b r h e = absurd h
strtok-stop d (c ∷ w) b r h e = rw (h.0, strtok, take_token-stop d w b r h.1 e) refl

-- "cmd<infile >outfile" and "cmd>outfile <infile"
abbrev pub in_out : List ℕ → List ℕ → List ℕ → List ℕ
in_out cmd infile outfile = cmd ++ (b'<' ∷ (infile ++ (b' ' ∷ b'>' ∷ outfile)))

abbrev pub out_in : List ℕ → List ℕ → List ℕ → List ℕ
out_in cmd infile outfile = cmd ++ (b'>' ∷ (outfile ++ (b' ' ∷ b'<' ∷ infile)))

-- The front of a line up to its second symbol.
two_parts :
    (ch other : ℕ) (cmd first second : List ℕ)
    → (other == ch) ≡ false
    → Lacks ch cmd
    → Lacks ch first
    → (b' ' == ch) ≡ false
    → strchr ch (cmd ++ (other ∷ (first ++ (b' ' ∷ ch ∷ second))))
      ≡ some (cmd ++ (other ∷ (first ++ (b' ' ∷ []))), second)
two_parts ch other cmd first second ne hc hf sp =
    let split = append_assoc cmd (other ∷ (first ++ (b' ' ∷ []))) (ch ∷ second) in
    let inner = append_assoc first (b' ' ∷ []) (ch ∷ second) in
    ap (strchr ch) (ap (λ l. cmd ++ (other ∷ l)) (sym inner) ∙ sym split)
    ∙ strchr-first ch (cmd ++ (other ∷ (first ++ (b' ' ∷ [])))) second (
        All-append (λ d. (d == ch) ≡ false) cmd (other ∷ (first ++ (b' ' ∷ []))) hc
          (ne, All-append (λ d. (d == ch) ≡ false) first (b' ' ∷ []) hf (sp, tt)))

-- The texts that a line with both redirections is made of.
pub record Line (cmd infile outfile : List ℕ) : Type 0 where
  pub no_in : Lacks b'<' cmd
  pub no_out : Lacks b'>' cmd
  pub infile_word : IsWord blanks infile
  pub outfile_word : IsWord blanks outfile
  pub infile_plain : Lacks b'>' infile
  pub outfile_plain : Lacks b'<' outfile

module _ {os : Os} {sys : Processes os} (t : Tables sys) where
  open os use {World, open2, open3}
  open t use {table}

  -- A redirection to a named file: what is left is the text in front of the symbol.
  parse_and_redirect-Named :
      (ch : ℕ) (opener : List ℕ → World → Reply World ℤ) (target : ℤ) (file : List ℕ → File)
      (s before after name rest : List ℕ) (w : World) (x : File)
      → strchr ch s ≡ some (before, after)
      → strtok blanks after ≡ some (name, rest)
      → table w target ≡ some x
      → Outcome t (λ fd v. Adds (table w) (table v) fd (file name)) (opener name w)
      → Outcome t
          (λ s' u. (s' ≡ before) × Sets (table w) (table u) target (some (file name)))
          (parse_and_redirect sys ch opener target s w)
  unfolding parse_and_redirect keep_command
  parse_and_redirect-Named ch opener target file s b a name rest w x cut word is_open law =
      rw (cut, parse_and_redirect)
        (rw (word, parse_and_redirect)
          (go (redirect sys (opener name w) target)
            (redirect-Sets t (opener name w) w target x (file name) is_open law)))
    where
      go :
          (r : Reply World (Unit {0}))
          → Outcome t (λ _ u. Sets (table w) (table u) target (some (file name))) r
          → Outcome t
              (λ s' u. (s' ≡ b) × Sets (table w) (table u) target (some (file name)))
              (keep_command sys b r)
      go (fail e v) bad = bad
      go (ok _ v) sets = (refl, sets)

  -- The process executes the words of `cmd` between the two files, unless a call fails or there is no
  -- word.
  abbrev pub Between : List ℕ → List ℕ → List ℕ → World → End World → Type 0
  Between cmd infile outfile w (execvp argv u) =
      (words blanks cmd ≡ argv)
      × (table u (pos 0) ≡ some (File.input infile))
      × (table u (pos 1) ≡ some (File.output outfile))
      × ((d : ℤ) → d ≢ pos 0 → d ≢ pos 1 → table u d ≡ table w d)
  Between cmd infile outfile w (exit (failure e) u) = Refused sys e
  Between cmd infile outfile w (exit no_command u) = words blanks cmd ≡ []
  Between cmd infile outfile w (return (failure e) u) = Refused sys e
  Between cmd infile outfile w (return no_command u) = ⊥

  module _ {cmd infile outfile : List ℕ} (line : Line cmd infile outfile) where
    Done : World → List ℕ → World → Type 0
    Done w s u =
        (s ≡ cmd)
        × (table u (pos 0) ≡ some (File.input infile))
        × (table u (pos 1) ≡ some (File.output outfile))
        × ((d : ℤ) → d ≢ pos 0 → d ≢ pos 1 → table u d ≡ table w d)

    Parsed-Between :
        (w : World) (s : List ℕ) (u : World) (e : End World)
        → Done w s u
        → Parsed t s u e
        → Between cmd infile outfile w e
    unfolding Done
    Parsed-Between w s u (execvp argv v) (same, i, o, others) (ws, some_word, here) = (
      ap (words blanks) (sym same) ∙ ws,
      ap (λ z. table z (pos 0)) here ∙ i,
      ap (λ z. table z (pos 1)) here ∙ o,
      (λ d n0 n1. ap (λ z. table z d) here ∙ others d n0 n1),
    )
    Parsed-Between w s u (exit (failure e) v) done bad = bad
    Parsed-Between w s u (exit no_command v) (same, i, o, others) empty =
        ap (words blanks) (sym same) ∙ empty
    Parsed-Between w s u (return r v) done h = absurd h

    last :
        (w : World) (r : Reply World (List ℕ))
        → Outcome t (Done w) r
        → Between cmd infile outfile w (elim r as (λ _. End World) [
          | fail e w'' ↦ exit (failure e) w''
          | ok s'' w'' ↦ parse_and_exec sys blanks s'' w''
        ])
    last w (fail e v) bad = bad
    last w (ok s v) done =
        Parsed-Between w s v (parse_and_exec sys blanks s v) done (parse_and_exec-Parsed t s v)

    then_in :
        (w u : World) (s : List ℕ) (x : File)
        → table w (pos 0) ≡ some x
        → (s ≡ cmd ++ (b'<' ∷ (infile ++ (b' ' ∷ []))))
          × Sets (table w) (table u) (pos 1) (some (File.output outfile))
        → Outcome t (Done w) (parseandredirectin sys s u)
    unfolding Done parseandredirectin is_in
    then_in w u s x is_open (same, (put, kept)) = go (parseandredirectin sys s u) (
        parse_and_redirect-Named b'<' (λ p. open2 p sys.o_rdonly) (pos 0) File.input s cmd
          (infile ++ (b' ' ∷ [])) infile [] u x
          (ap (strchr b'<') same ∙ strchr-first b'<' cmd (infile ++ (b' ' ∷ [])) line.no_in)
          (strtok-stop blanks infile b' ' [] line.infile_word refl)
          (kept (pos 0) (λ e. absurd (ground arith)) ∙ is_open) (open_in-Adds t infile u _ refl))
      where
        go :
            (r : Reply World (List ℕ))
            → Outcome t
                (λ s' v. (s' ≡ cmd) × Sets (table u) (table v) (pos 0) (some (File.input infile)))
                r
            → Outcome t (Done w) r
        go (fail e v) bad = bad
        go (ok s' v) (e, (set, others)) = (
          e,
          set,
          others (pos 1) (λ e. absurd (ground arith)) ∙ put,
          (λ d n0 n1. others d n0 ∙ kept d n1),
        )

    then_out :
        (w u : World) (s : List ℕ) (x : File)
        → table w (pos 1) ≡ some x
        → (s ≡ cmd ++ (b'>' ∷ (outfile ++ (b' ' ∷ []))))
          × Sets (table w) (table u) (pos 0) (some (File.input infile))
        → Outcome t (Done w) (parseandredirectout sys s u)
    unfolding Done parseandredirectout is_in
    then_out w u s x is_open (same, (put, kept)) = go (parseandredirectout sys s u) (
        parse_and_redirect-Named b'>' (λ p. open3 p sys.fflag sys.fmode) (pos 1) File.output s cmd
          (outfile ++ (b' ' ∷ [])) outfile [] u x
          (ap (strchr b'>') same ∙ strchr-first b'>' cmd (outfile ++ (b' ' ∷ [])) line.no_out)
          (strtok-stop blanks outfile b' ' [] line.outfile_word refl)
          (kept (pos 1) (λ e. absurd (ground arith)) ∙ is_open) (open_out-Adds t outfile u _ refl))
      where
        go :
            (r : Reply World (List ℕ))
            → Outcome t
                (λ s' v. (s' ≡ cmd) × Sets (table u) (table v) (pos 1) (some (File.output outfile)))
                r
            → Outcome t (Done w) r
        go (fail e v) bad = bad
        go (ok s' v) (e, (set, others)) = (
          e,
          others (pos 0) (λ e. absurd (ground arith)) ∙ put,
          set,
          (λ d n0 n1. others d n1 ∙ kept d n0),
        )

    in_out_cuts :
        (strchr b'>' (in_out cmd infile outfile)
          ≡ some (cmd ++ (b'<' ∷ (infile ++ (b' ' ∷ []))), outfile))
    in_out_cuts = two_parts b'>' b'<' cmd infile outfile refl line.no_out line.infile_plain refl

    out_in_cuts :
        (strchr b'<' (out_in cmd infile outfile)
          ≡ some (cmd ++ (b'>' ∷ (outfile ++ (b' ' ∷ []))), infile))
    out_in_cuts = two_parts b'<' b'>' cmd outfile infile refl line.no_in line.outfile_plain refl

    input_last_lem :
        (l : List ℕ) (p q : List ℕ × List ℕ)
        → strchr b'<' l ≡ some p
        → strchr b'>' l ≡ some q
        → input_last sys l ≡ ltb (length q.0) (length p.0)
    unfolding input_last
    input_last_lem l p q e f = rw (e, input_last) (rw (f, input_last) refl)

    in_out-Between :
        (w : World) (x y : File)
        → table w (pos 0) ≡ some x
        → table w (pos 1) ≡ some y
        → Between cmd infile outfile w (executeredirect sys (in_out cmd infile outfile) true true w)
    unfolding executeredirect execute_rest redirect_in redirect_out parseandredirectin
        parseandredirectout
    in_out-Between w x y i_open o_open =
        rw (test, executeredirect)
          (go (parseandredirectout sys line_text w) (
            parse_and_redirect-Named b'>' (λ p. open3 p sys.fflag sys.fmode) (pos 1) File.output
              line_text _ outfile outfile [] w y in_out_cuts
              (strtok-word blanks outfile line.outfile_word) o_open
              (open_out-Adds t outfile w _ refl)))
      where
        line_text : List ℕ
        line_text = in_out cmd infile outfile

        test : input_last sys (in_out cmd infile outfile) ≡ false
        test =
            input_last_lem (in_out cmd infile outfile) _ _
              (strchr-first b'<' cmd (infile ++ (b' ' ∷ b'>' ∷ outfile)) line.no_in) in_out_cuts
            ∙ ground (arith, length-append cmd (b'<' ∷ (infile ++ (b' ' ∷ []))))

        go :
            (r : Reply World (List ℕ))
            → Outcome t
                (λ s' u.
                  (s' ≡ cmd ++ (b'<' ∷ (infile ++ (b' ' ∷ []))))
                  × Sets (table w) (table u) (pos 1) (some (File.output outfile)))
                r
            → Between cmd infile outfile w (elim r as (λ _. End World) [
              | fail e w' ↦ exit (failure e) w'
              | ok s' w' ↦ elim (parseandredirectin sys s' w') as (λ _. End World) [
                | fail e w'' ↦ exit (failure e) w''
                | ok s'' w'' ↦ parse_and_exec sys blanks s'' w''
              ]
            ])
        go (fail e u) bad = bad
        go (ok s' u) cut = last w (parseandredirectin sys s' u) (then_in w u s' x i_open cut)

    out_in-Between :
        (w : World) (x y : File)
        → table w (pos 0) ≡ some x
        → table w (pos 1) ≡ some y
        → Between cmd infile outfile w (executeredirect sys (out_in cmd infile outfile) true true w)
    unfolding executeredirect execute_rest redirect_in redirect_out parseandredirectin
        parseandredirectout
    out_in-Between w x y i_open o_open =
        rw (test, executeredirect)
          (go (parseandredirectin sys (out_in cmd infile outfile) w) (
            parse_and_redirect-Named b'<' (λ p. open2 p sys.o_rdonly) (pos 0) File.input
              (out_in cmd infile outfile) _ infile infile [] w x out_in_cuts
              (strtok-word blanks infile line.infile_word) i_open (open_in-Adds t infile w _ refl)))
      where
        test : input_last sys (out_in cmd infile outfile) ≡ true
        test =
            input_last_lem (out_in cmd infile outfile) _ _ out_in_cuts
              (strchr-first b'>' cmd (outfile ++ (b' ' ∷ b'<' ∷ infile)) line.no_out)
            ∙ ground (arith, length-append cmd (b'>' ∷ (outfile ++ (b' ' ∷ []))))

        go :
            (r : Reply World (List ℕ))
            → Outcome t
                (λ s' u.
                  (s' ≡ cmd ++ (b'>' ∷ (outfile ++ (b' ' ∷ []))))
                  × Sets (table w) (table u) (pos 0) (some (File.input infile)))
                r
            → Between cmd infile outfile w (elim r as (λ _. End World) [
              | fail e w' ↦ return (failure e) w'
              | ok s' w' ↦ execute_rest sys false true s' w'
            ])
        go (fail e u) bad = bad
        go (ok s' u) cut = last w (parseandredirectout sys s' u) (then_out w u s' y o_open cut)

    -- A line "cmd<infile >outfile", in which the names are words and the symbols stand nowhere else:
    -- `executeredirect` with both redirections allowed runs the words of `cmd` with standard input and
    -- output at the two files and every other descriptor as before, unless a call fails or there is no
    -- word. The line "cmd>outfile <infile" does the same.
    pub executeredirect-Between :
        (w : World) (x y : File)
        → table w (pos 0) ≡ some x
        → table w (pos 1) ≡ some y
        → Between cmd infile outfile w (executeredirect sys (in_out cmd infile outfile) true true w)
          × Between cmd infile outfile w
              (executeredirect sys (out_in cmd infile outfile) true true w)
    executeredirect-Between w x y i_open o_open =
        (in_out-Between w x y i_open o_open, out_in-Between w x y i_open o_open)
