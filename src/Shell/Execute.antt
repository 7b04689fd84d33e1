-- ===== src/Shell/Execute.antt =====
-- How `executeredirect` of chapter11 ends: what it executes, and with which descriptors.
use usp.Base.{
  ℕ, suc, ◌<◌, ◌≡◌, ◌≢◌, ◌⊎◌, ◌∙◌, inl, inr, refl, sym, subst, ap, ap₂, Bool, true, false,
  Bool-cases, ◌&&◌, if◌then◌else◌, Option, none, some, List, [], ◌∷◌, length, ltb, ltb→lt, eq_nil,
  arith,
}
use usp.Base.Int.{ℤ, pos}
use usp.Os.{Reply, ok, fail, Os}
use usp.Text.Words.{words}
use usp.Makeargv.{made}
use usp.Makeargv.Tokens.{argv_of, makeargv-words, makeargv-refused}
use usp.Shell.{
  blanks, Processes, failure, no_command, End, execvp, exit, return, strings, exec_array,
  parse_and_exec, redirect_in, redirect_out, execute_rest, input_last, executeredirect,
  parseandredirectin, parseandredirectout,
}
use usp.Shell.Laws.{File, Table, Tables, Refused, by_malloc}
use usp.Shell.Plan.{
  Plan, parsed_if, out_then_in, in_then_out, front, out_then_in-front, in_then_out-front,
}
use usp.Shell.Redirect.{
  parsed, redirected, Outcome, Cut, parseandredirectin-Cut, parseandredirectout-Cut,
}

pub strings-argv_of : (ws : List (List ℕ)) → strings (argv_of ws) ≡ ws
unfolding strings
strings-argv_of [] = refl
strings-argv_of (w ∷ ws) = ap (λ l. w ∷ l) (strings-argv_of ws)

module _ {os : Os} {sys : Processes os} (t : Tables sys) where
  open os use {World}
  open t use {table}

  -- With both redirections allowed and the first `>` before the first `<`, the `<` is the last.
  abbrev pub plan : Bool → Bool → List ℕ → Plan
  plan inp outp c =
      if inp && outp && input_last sys c then in_then_out c else out_then_in inp outp c

  -- The process executes `p`, from standard input `i`, standard output `o` and the other descriptors
  -- `base`; or a call failed, or there is no word.
  abbrev pub Carried : Plan → Option File → Option File → Table → End World → Type 0
  Carried p i o base (execvp argv u) =
      (words blanks p.text ≡ argv)
      × (0 < length argv)
      × (table u (pos 0) ≡ redirected File.input p.infile i)
      × (table u (pos 1) ≡ redirected File.output p.outfile o)
      × ((d : ℤ) → d ≢ pos 0 → d ≢ pos 1 → table u d ≡ base d)
  Carried p i o base (exit (failure e) u) = Refused sys e
  Carried p i o base (exit no_command u) = words blanks p.text ≡ []
  Carried p i o base (return (failure e) u) = Refused sys e
  Carried p i o base (return no_command u) = ⊥

  -- The same for a command, where `inp` and `outp` allow the redirections: its text is what stands
  -- before them.
  abbrev pub Ready : Bool → Bool → List ℕ → Option File → Option File → Table → End World → Type 0
  Ready inp outp c i o base e =
      Carried (record (plan inp outp c) { text = front inp outp c }) i o base e

  -- The same between two redirections, with `s` left of the command.
  abbrev Stage : Plan → Option File → Option File → Table → List ℕ → World → Type 0
  Stage p i o base s u =
      (s ≡ p.text)
      × (table u (pos 0) ≡ redirected File.input p.infile i)
      × (table u (pos 1) ≡ redirected File.output p.outfile o)
      × ((d : ℤ) → d ≢ pos 0 → d ≢ pos 1 → table u d ≡ base d)

  -- The last part of a process: it executes the words of `s`, or memory was refused, or there are none.
  abbrev pub Parsed : List ℕ → World → End World → Type 0
  Parsed s w (execvp argv u) = (words blanks s ≡ argv) × (0 < length argv) × (u ≡ w)
  Parsed s w (exit (failure e) u) = Refused sys e
  Parsed s w (exit no_command u) = words blanks s ≡ []
  Parsed s w (return r u) = ⊥

  pub parse_and_exec-Parsed : (s : List ℕ) (w : World) → Parsed s w (parse_and_exec sys blanks s w)
  unfolding parse_and_exec exec_array
  parse_and_exec-Parsed s w = elim (Bool-cases (sys.copy_granted s && sys.array_granted s)) [
    | inr refused ↦
        let run =
          makeargv-refused (suc (length s)) (sys.copy_granted s) (sys.array_granted s) s blanks
            refused (omega arith) in
        rw (run, parse_and_exec) (by_malloc s refl refused)
    | inl granted ↦
        let a : sys.copy_granted s ≡ true = ground arith in
        let b : sys.array_granted s ≡ true = ground arith in
        rw (a, b, makeargv-words (suc (length s)) s blanks (omega arith), parse_and_exec)
          (go (Bool-cases (ltb 0 (length (words blanks s)))))
  ]
    where
      go :
          (ltb 0 (length (words blanks s)) ≡ true) ⊎ (ltb 0 (length (words blanks s)) ≡ false)
          → Parsed s w
              (exec_array sys (some (made (length (words blanks s)) (argv_of (words blanks s)))) w)
      go (inl some_word) =
          rw (some_word, exec_array, strings-argv_of (words blanks s))
            (refl, ltb→lt _ _ some_word, refl)
      go (inr no_word) = rw (no_word, exec_array) (eq_nil (words blanks s) (ground arith))

  Parsed-Carried :
      (p : Plan) (i o : Option File) (base : Table) (s : List ℕ) (w : World) (e : End World)
      → Stage p i o base s w
      → Parsed s w e
      → Carried p i o base e
  Parsed-Carried p i o base s w (execvp argv u) (text, a, b, others) (same, some_word, here) = (
    ap (words blanks) (sym text) ∙ same,
    some_word,
    ap (λ v. table v (pos 0)) here ∙ a,
    ap (λ v. table v (pos 1)) here ∙ b,
    (λ d n0 n1. ap (λ v. table v d) here ∙ others d n0 n1),
  )
  Parsed-Carried p i o base s w (exit (failure e) u) stage bad = bad
  Parsed-Carried p i o base s w (exit no_command u) (text, a, b, others) empty =
      ap (words blanks) (sym text) ∙ empty
  Parsed-Carried p i o base s w (return r u) stage h = absurd h

  redirect_in-Stage :
      (inp : Bool) (text : List ℕ) (outfile : Option (List ℕ)) (i o : Option File) (base : Table)
      (x : File) (s : List ℕ) (w : World)
      → i ≡ some x
      → Stage (record { text = text; infile = none; outfile = outfile }) i o base s w
      → Outcome t
          (Stage
            (record {
              text = (parsed_if inp b'<' text).0;
              infile = (parsed_if inp b'<' text).1;
              outfile = outfile;
            })
            i
            o
            base)
          (redirect_in sys inp s w)
  unfolding redirect_in
  redirect_in-Stage false text outfile i o base x s w is_open stage = stage
  redirect_in-Stage true text outfile i o base x s w is_open (same, inputs, outputs, others) =
      go (parseandredirectin sys s w) (parseandredirectin-Cut t s w x (inputs ∙ is_open))
    where
      go :
          (r : Reply World (List ℕ))
          → Outcome t (λ s' u. Cut t b'<' (pos 0) File.input s w s' u) r
          → Outcome t
              (Stage
                (record {
                  text = (parsed b'<' text).0;
                  infile = (parsed b'<' text).1;
                  outfile = outfile;
                })
                i
                o
                base)
              r
      go (fail e v) bad = bad
      go (ok s' v) (left, put, rest) = (
        left ∙ ap (λ l. (parsed b'<' l).0) same,
        put ∙ ap₂ (λ l old. redirected File.input (parsed b'<' l).1 old) same inputs,
        rest (pos 1) (λ e. absurd (ground arith)) ∙ outputs,
        (λ d n0 n1. rest d n0 ∙ others d n0 n1),
      )

  redirect_out-Stage :
      (outp : Bool) (text : List ℕ) (infile : Option (List ℕ)) (i o : Option File) (base : Table)
      (x : File) (s : List ℕ) (w : World)
      → o ≡ some x
      → Stage (record { text = text; infile = infile; outfile = none }) i o base s w
      → Outcome t
          (Stage
            (record {
              text = (parsed_if outp b'>' text).0;
              infile = infile;
              outfile = (parsed_if outp b'>' text).1;
            })
            i
            o
            base)
          (redirect_out sys outp s w)
  unfolding redirect_out
  redirect_out-Stage false text infile i o base x s w is_open stage = stage
  redirect_out-Stage true text infile i o base x s w is_open (same, inputs, outputs, others) =
      go (parseandredirectout sys s w) (parseandredirectout-Cut t s w x (outputs ∙ is_open))
    where
      go :
          (r : Reply World (List ℕ))
          → Outcome t (λ s' u. Cut t b'>' (pos 1) File.output s w s' u) r
          → Outcome t
              (Stage
                (record {
                  text = (parsed b'>' text).0;
                  infile = infile;
                  outfile = (parsed b'>' text).1;
                })
                i
                o
                base)
              r
      go (fail e v) bad = bad
      go (ok s' v) (left, put, rest) = (
        left ∙ ap (λ l. (parsed b'>' l).0) same,
        rest (pos 0) (λ e. absurd (ground arith)) ∙ inputs,
        put ∙ ap₂ (λ l old. redirected File.output (parsed b'>' l).1 old) same outputs,
        (λ d n0 n1. rest d n1 ∙ others d n0 n1),
      )

  -- `execute_rest`, where its two redirections lead to `p` and then to `q`.
  execute_rest-Carried :
      (inp outp : Bool) (p q : Plan) (i o : Option File) (base : Table) (s : List ℕ) (w : World)
      → Outcome t (Stage p i o base) (redirect_out sys outp s w)
      → ((s' : List ℕ) (v : World)
          → Stage p i o base s' v
          → Outcome t (Stage q i o base) (redirect_in sys inp s' v))
      → Carried q i o base (execute_rest sys inp outp s w)
  unfolding execute_rest
  execute_rest-Carried inp outp p q i o base s w first next = go (redirect_out sys outp s w) first
    where
      last :
          (r : Reply World (List ℕ))
          → Outcome t (Stage q i o base) r
          → Carried q i o base (elim r as (λ _. End World) [
            | fail e w'' ↦ exit (failure e) w''
            | ok s'' w'' ↦ parse_and_exec sys blanks s'' w''
          ])
      last (fail e v) bad = bad
      last (ok s' v) st = Parsed-Carried q i o base s' v _ st (parse_and_exec-Parsed s' v)

      go :
          (r : Reply World (List ℕ))
          → Outcome t (Stage p i o base) r
          → Carried q i o base (elim r as (λ _. End World) [
            | fail e w' ↦ exit (failure e) w'
            | ok s' w' ↦ elim (redirect_in sys inp s' w') as (λ _. End World) [
              | fail e w'' ↦ exit (failure e) w''
              | ok s'' w'' ↦ parse_and_exec sys blanks s'' w''
            ]
          ])
      go (fail e v) bad = bad
      go (ok s' v) st = last (redirect_in sys inp s' v) (next s' v st)

  plan-front :
      (inp outp : Bool) (c : List ℕ)
      → (inp && outp && input_last sys c ≡ true) ⊎ (inp && outp && input_last sys c ≡ false)
      → (plan inp outp c).text ≡ front inp outp c
  plan-front inp outp c (inr plain) = rw plain (out_then_in-front inp outp c)
  plan-front true true c (inl last) = rw last (in_then_out-front c)
  plan-front true false c (inl no_way) = absurd (ground arith)
  plan-front false outp c (inl no_way) = absurd (ground arith)

  executeredirect-Carried :
      (s : List ℕ) (inp outp : Bool) (w : World) (x y : File)
      → table w (pos 0) ≡ some x
      → table w (pos 1) ≡ some y
      → Carried
          (plan inp outp s)
          (table w (pos 0))
          (table w (pos 1))
          (table w)
          (executeredirect sys s inp outp w)
  unfolding executeredirect redirect_in
  executeredirect-Carried s inp outp w x y i_open o_open =
      go inp outp (Bool-cases (inp && outp && input_last sys s))
    where
      late :
          (r : Reply World (List ℕ))
          → Outcome t
              (Stage
                (record { text = (parsed b'<' s).0; infile = (parsed b'<' s).1; outfile = none })
                (table w (pos 0))
                (table w (pos 1))
                (table w))
              r
          → Carried
              (in_then_out s)
              (table w (pos 0))
              (table w (pos 1))
              (table w)
              (elim r as (λ _. End World) [
                | fail e w' ↦ return (failure e) w'
                | ok s' w' ↦ execute_rest sys false true s' w'
              ])
      late (fail e v) bad = bad
      late (ok s' v) st =
          execute_rest-Carried false true (in_then_out s) (in_then_out s) (table w (pos 0))
            (table w (pos 1)) (table w) s' v
            (redirect_out-Stage true (parsed b'<' s).0 (parsed b'<' s).1 (table w (pos 0))
              (table w (pos 1)) (table w) y s' v o_open st)
            (λ s'' u st'. st')

      go :
          (inp outp : Bool)
          → (inp && outp && input_last sys s ≡ true) ⊎ (inp && outp && input_last sys s ≡ false)
          → Carried
              (plan inp outp s)
              (table w (pos 0))
              (table w (pos 1))
              (table w)
              (executeredirect sys s inp outp w)
      go inp outp (inr plain) =
          rw (plain, executeredirect)
            (execute_rest-Carried inp outp
              (record {
                text = (parsed_if outp b'>' s).0;
                infile = none;
                outfile = (parsed_if outp b'>' s).1;
              })
              (out_then_in inp outp s) (table w (pos 0)) (table w (pos 1)) (table w) s w
              (redirect_out-Stage outp s none (table w (pos 0)) (table w (pos 1)) (table w) y s w
                o_open (refl, refl, refl, (λ d n0 n1. refl)))
              (λ s' v st.
                redirect_in-Stage inp (parsed_if outp b'>' s).0 (parsed_if outp b'>' s).1
                  (table w (pos 0)) (table w (pos 1)) (table w) x s' v i_open st))
      go true true (inl last) =
          rw (last, executeredirect)
            (late (parseandredirectin sys s w) (
              redirect_in-Stage true s none (table w (pos 0)) (table w (pos 1)) (table w) x s w
                i_open (refl, refl, refl, (λ d n0 n1. refl))))
      go true false (inl no_way) = absurd (ground arith)
      go false outp (inl no_way) = absurd (ground arith)

  pub executeredirect-Ready :
      (s : List ℕ) (inp outp : Bool) (w : World) (x y : File)
      → table w (pos 0) ≡ some x
      → table w (pos 1) ≡ some y
      → Ready inp outp s
          (table w (pos 0))
          (table w (pos 1))
          (table w)
          (executeredirect sys s inp outp w)
  executeredirect-Ready s inp outp w x y i_open o_open =
      subst
        (λ text.
          Carried (record (plan inp outp s) { text = text }) (table w (pos 0)) (table w (pos 1))
            (table w) (executeredirect sys s inp outp w))
        (plan-front inp outp s (Bool-cases (inp && outp && input_last sys s)))
        (executeredirect-Carried s inp outp w x y i_open o_open)
