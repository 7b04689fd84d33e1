-- ===== src/Shell/Pipeline.antt =====
-- The pipeline of executecmdpipe.c: which ends of which pipes each command gets.
use usp.Base.{
  ℕ, suc, ◌≡◌, ◌≢◌, ◌⊎◌, ◌∙◌, inl, inr, refl, sym, ap, subst, Bool, true, false, Bool-cases, Option,
  none, some, List, [], ◌∷◌, length, ltb, ◌&&◌, arith,
}
use usp.Base.Int.{ℤ, pos}
use usp.Os.{Errno, Reply, ok, fail, Os}
use usp.Text.{codes}
use usp.Text.Words.{words}
use usp.Makeargv.{made}
use usp.Makeargv.Tokens.{argv_of, makeargv-words, makeargv-refused}
use usp.Shell.{
  Processes, failure, no_command, End, execvp, exit, return, executeredirect, exit_after, connect,
  run_parent, run_pipeline, executecmd_array, executecmd,
}
use usp.Shell.Laws.{
  File, Table, Tables, Same, Piped, Refused, by_dup2, by_close, by_pipe, by_fork, by_malloc,
}
use usp.Shell.Redirect.{ℤ-cases, redirected, Outcome}
use usp.Shell.Execute.{strings-argv_of, plan, Ready, executeredirect-Ready}

module _ {os : Os} {sys : Processes os} (t : Tables sys) where
  open os use {World, dup2, close}
  open t use {table}

  -- Where `target` is open before the pipe, `connect` puts one end of it there and leaves no other
  -- descriptor behind.
  connect-Connected :
      (a b from target : ℤ) (n : ℕ) (w v p : World) (x : File)
      → table w target ≡ some x
      → Piped (table w) (table v) a b n
      → Same (table v) (table p)
      → Outcome t
          (λ _ u. (table u target ≡ table p from) × ((d : ℤ) → d ≢ target → table u d ≡ table w d))
          (connect sys (a, b) from target p)
  unfolding connect
  connect-Connected a b from target n w v p x is_open (fresh_a, fresh_b, at_a, at_b, others) same =
      go (dup2 from target p) refl
    where
      Good : World → Type 0
      Good u = (table u target ≡ table p from) × ((d : ℤ) → d ≢ target → table u d ≡ table w d)

      target_ne : (c : ℤ) → table w c ≡ none → target ≢ c
      target_ne c fresh e = absurd (cc (is_open, fresh, ap (table w) e))

      go :
          (r : Reply World ℤ)
          → dup2 from target p ≡ r
          → Outcome t
              (λ _ u. Good u)
              (elim r as (λ _. Reply World (Unit {0})) [
                | fail e w' ↦ fail e w'
                | ok _ w' ↦ elim (close a w') [ fail e w'' ↦ fail e w'' | ok _ w'' ↦ close b w'' ]
              ])
      go (fail er u) e = by_dup2 from target p u e
      go (ok r u) e = first (close a u) refl
        where
          first :
              (q : Reply World (Unit {0}))
              → close a u ≡ q
              → Outcome t
                  (λ _ u. Good u)
                  (elim q as (λ _. Reply World (Unit {0})) [
                    | fail e w'' ↦ fail e w''
                    | ok _ w'' ↦ close b w''
                  ])
          first (fail er y) f = by_close a u y f
          first (ok _ y) f = second (close b y) refl
            where
              second : (q : Reply World (Unit {0})) → close b y ≡ q → Outcome t (λ _ u. Good u) q
              second (fail er z) g = by_close b y z g
              second (ok _ z) g =
                  let (put, kept) = t.dup2_law from target r p u e in
                  let (gone_a, kept_a) = t.close_law a u y f in
                  let (gone_b, kept_b) = t.close_law b y z g in
                  (
                    kept_b target (target_ne b fresh_b)
                        ∙ (kept_a target (target_ne a fresh_a) ∙ put),
                    (λ d ne. elim (ℤ-cases d b) [
                      | inl at ↦ ap (table z) at ∙ gone_b ∙ sym fresh_b ∙ ap (table w) (sym at)
                      | inr not_b ↦ elim (ℤ-cases d a) [
                        | inl at ↦
                            kept_b d not_b
                            ∙ ap (table y) at
                            ∙ gone_a
                            ∙ sym fresh_a
                            ∙ ap (table w) (sym at)
                        | inr not_a ↦
                            kept_b d not_b
                            ∙ (kept_a d not_a ∙ (kept d ne ∙ (same d ∙ others d not_a not_b)))
                      ]
                    ]),
                  )

  -- The loop ended here since a call failed.
  abbrev pub Stopped : List (End World) → Type 0
  Stopped ends = (e : Errno) × (v : World) × (ends ≡ exit (failure e) v ∷ []) × Refused sys e

  -- The processes of a pipeline: one for each command, in order, until a call fails. Each command runs
  -- with the read end of the pipe behind it, or `i`, and the write end of the pipe before it, or `o`;
  -- its other descriptors are those of `base`.
  abbrev pub Wired :
      Bool → Option File → Option File → Table → List (List ℕ) → List (End World) → Type 0
  Wired first i o base [] ends = ends ≡ []
  Wired first i o base (c ∷ []) ends =
      (e : End World) × (ends ≡ e ∷ []) × Ready t first true c i o base e
  Wired first i o base (c ∷ d ∷ cs) ends =
      Stopped ends
      ⊎ ((n : ℕ) × (e : End World) × (rest : List (End World)) × (ends ≡ e ∷ rest)
          × Ready t first false c i (some (File.writer n)) base e
          × (Stopped rest ⊎ Wired false (some (File.reader n)) o base (d ∷ cs) rest))

  Ready-base :
      (inp outp : Bool) (c : List ℕ) (i i' o o' : Option File) (base base' : Table) (e : End World)
      → i ≡ i'
      → o ≡ o'
      → ((d : ℤ) → d ≢ pos 0 → d ≢ pos 1 → base d ≡ base' d)
      → Ready t inp outp c i o base e
      → Ready t inp outp c i' o' base' (exit_after sys e)
  unfolding exit_after
  Ready-base inp outp c i i' o o' base base' (execvp argv u) si so others
        (same, some_word, a, b, rest) =
      (
        same,
        some_word,
        a ∙ ap (redirected File.input (plan t inp outp c).infile) si,
        b ∙ ap (redirected File.output (plan t inp outp c).outfile) so,
        (λ d n0 n1. rest d n0 n1 ∙ others d n0 n1),
      )
  Ready-base inp outp c i i' o o' base base' (exit (failure r) u) si so others h = h
  Ready-base inp outp c i i' o o' base base' (exit no_command u) si so others h = h
  Ready-base inp outp c i i' o o' base base' (return (failure r) u) si so others h = h
  Ready-base inp outp c i i' o o' base base' (return no_command u) si so others h = absurd h

  -- The descriptors of a process that is to run a command.
  record Holds (w : World) (i o : File) (base : Table) : Type 0 where
    stdin : table w (pos 0) ≡ some i
    stdout : table w (pos 1) ≡ some o
    others : (d : ℤ) → d ≢ pos 0 → d ≢ pos 1 → table w d ≡ base d

  execute-Ready :
      (c : List ℕ) (inp outp : Bool) (w : World) (i o : File) (base : Table)
      → Holds w i o base
      → Ready t inp outp c
          (some i)
          (some o)
          base
          (exit_after sys (executeredirect sys c inp outp w))
  execute-Ready c inp outp w i o base h =
      Ready-base inp outp c _ (some i) _ (some o) (table w) base (executeredirect sys c inp outp w)
        h.stdin h.stdout h.others (executeredirect-Ready t c inp outp w i o h.stdin h.stdout)

  -- The parent of a round, from the state behind `fork`.
  run_parent-Ready :
      (c : List ℕ) (first : Bool) (i o : File) (base : Table) (a b : ℤ) (n : ℕ) (w v p : World)
      → Holds w i o base
      → Piped (table w) (table v) a b n
      → Same (table v) (table p)
      → Ready t first false c
          (some i)
          (some (File.writer n))
          base
          (run_parent sys c first (connect sys (a, b) b (pos 1) p))
  unfolding run_parent
  run_parent-Ready c first i o base a b n w v p h piped same =
      go (connect sys (a, b) b (pos 1) p)
        (connect-Connected a b b (pos 1) n w v p o h.stdout piped same)
    where
      go :
          (r : Reply World (Unit {0}))
          → Outcome t
              (λ _ u. (table u (pos 1) ≡ table p b) × ((d : ℤ) → d ≢ pos 1 → table u d ≡ table w d))
              r
          → Ready t first false c (some i) (some (File.writer n)) base (run_parent sys c first r)
      go (fail e u) bad = bad
      go (ok _ u) (put, rest) = execute-Ready c first false u i (File.writer n) base (record {
        stdin = rest (pos 0) (λ e. absurd (ground arith)) ∙ h.stdin;
        stdout = put ∙ (same b ∙ piped.3);
        others = λ d n0 n1. rest d n1 ∙ h.others d n0 n1;
      })

  -- The child of a round, where its calls succeeded.
  child-Holds :
      (i o : File) (base : Table) (a b : ℤ) (n : ℕ) (w v p u : World)
      → Holds w i o base
      → Piped (table w) (table v) a b n
      → Same (table v) (table p)
      → (table u (pos 0) ≡ table p a) × ((d : ℤ) → d ≢ pos 0 → table u d ≡ table w d)
      → Holds u (File.reader n) o base
  child-Holds i o base a b n w v p u h piped same (put, rest) = record {
    stdin = put ∙ (same a ∙ piped.2);
    stdout = rest (pos 1) (λ e. absurd (ground arith)) ∙ h.stdout;
    others = λ d n0 n1. rest d n0 ∙ h.others d n0 n1;
  }

  -- One round, where the rest of the loop is right.
  round-Wired :
      (c d : List ℕ) (cs : List (List ℕ)) (first : Bool) (w : World) (i o : File) (base : Table)
      → ((z : World) (j : File)
          → Holds z j o base
          → Wired false (some j) (some o) base (d ∷ cs) (run_pipeline sys (d ∷ cs) false z))
      → Holds w i o base
      → Wired first (some i) (some o) base (c ∷ d ∷ cs) (run_pipeline sys (c ∷ d ∷ cs) first w)
  unfolding run_pipeline
  round-Wired c d cs first w i o base ih h = go (sys.pipe w) refl
    where
      child :
          (a b : ℤ) (n : ℕ) (v ch pa : World)
          → Piped (table w) (table v) a b n
          → Same (table v) (table ch)
          → (r : Reply World (Unit {0}))
          → Outcome t
              (λ _ u.
                (table u (pos 0) ≡ table ch a) × ((d : ℤ) → d ≢ pos 0 → table u d ≡ table w d))
              r
          → (rest : List (End World))
          → rest ≡ (elim r as (λ _. List (End World)) [
            | fail e z ↦ exit (failure e) z ∷ []
            | ok _ z ↦ run_pipeline sys (d ∷ cs) false z
          ])
          → Stopped rest ⊎ Wired false (some (File.reader n)) (some o) base (d ∷ cs) rest
      child a b n v ch pa piped same (fail e z) bad rest is = inl (e, z, is, bad)
      child a b n v ch pa piped same (ok _ z) good rest is = inr (
          subst (Wired false (some (File.reader n)) (some o) base (d ∷ cs)) (sym is)
            (ih z (File.reader n) (child-Holds i o base a b n w v ch z h piped same good)))

      forked :
          (a b : ℤ) (v : World)
          → sys.pipe w ≡ ok (a, b) v
          → (r : Reply World World) → sys.fork v ≡ r
          → Wired first (some i) (some o) base (c ∷ d ∷ cs) (run_pipeline sys (c ∷ d ∷ cs) first w)
      forked a b v e (fail er z) f =
          rw (e, run_pipeline) (rw (f, run_pipeline) (inl (er, z, refl, by_fork v z f)))
      forked a b v e (ok ch pa) f =
          let (n, piped) = t.pipe_law a b w v e in
          let (same, same') = t.fork_law v ch pa f in
          rw (e, run_pipeline)
            (rw (f, run_pipeline)
              (inr (
                n,
                _,
                _,
                refl,
                run_parent-Ready c first i o base a b n w v pa h piped same',
                child a b n v ch pa piped same (connect sys (a, b) a (pos 0) ch)
                    (connect-Connected a b a (pos 0) n w v ch i h.stdin piped same) _ refl,
              )))

      go :
          (r : Reply World (ℤ × ℤ))
          → sys.pipe w ≡ r
          → Wired first (some i) (some o) base (c ∷ d ∷ cs) (run_pipeline sys (c ∷ d ∷ cs) first w)
      go (fail e v) f = rw (f, run_pipeline) (inl (e, v, refl, by_pipe w v f))
      go (ok (a, b) v) f = forked a b v f (sys.fork v) refl

  run_pipeline-Wired :
      (cmds : List (List ℕ)) (first : Bool) (w : World) (i o : File) (base : Table)
      → Holds w i o base
      → Wired first (some i) (some o) base cmds (run_pipeline sys cmds first w)
  unfolding run_pipeline
  run_pipeline-Wired [] first w i o base h = refl
  run_pipeline-Wired (c ∷ []) first w i o base h =
      (_, refl, execute-Ready c first true w i o base h)
  run_pipeline-Wired (c ∷ d ∷ cs) first w i o base h =
      round-Wired c d cs first w i o base (λ z j k. run_pipeline-Wired (d ∷ cs) false z j o base k)
        h

  -- In a shell with open standard input and output, `executecmd` of executecmdpipe.c runs the commands
  -- between the bars, each in a process of its own, until a call fails: each executes all the words
  -- before its redirections, unless there is none or a call of its own failed. The first one reads the input of
  -- the shell and the last one writes to its output, or to the files that they name; each other
  -- command reads what the one before it writes. No process keeps another end of a pipe, so that a
  -- reader meets the end of its input. Where there is no command, or memory is refused, the shell exits.
  pub executecmd-Wired :
      (cmds : List ℕ) (w : World) (i o : File)
      → table w (pos 0) ≡ some i
      → table w (pos 1) ≡ some o
      → ((words (codes "|") cmds ≢ [])
          × Wired true (some i) (some o) (table w) (words (codes "|") cmds) (executecmd sys cmds w))
        ⊎ ((words (codes "|") cmds ≡ []) × (executecmd sys cmds w ≡ exit no_command w ∷ []))
        ⊎ Stopped (executecmd sys cmds w)
  unfolding executecmd executecmd_array
  executecmd-Wired cmds w i o is_in is_out =
      elim (Bool-cases (sys.copy_granted cmds && sys.array_granted cmds)) [
        | inr refused ↦
            let run =
              makeargv-refused (suc (length cmds)) (sys.copy_granted cmds) (sys.array_granted cmds)
                cmds (codes "|") refused (omega arith) in
            rw (run, executecmd) (inr (inr (Errno.enomem, w, refl, by_malloc cmds refl refused)))
        | inl granted ↦
            let a : sys.copy_granted cmds ≡ true = ground arith in
            let b : sys.array_granted cmds ≡ true = ground arith in
            rw (a, b, makeargv-words (suc (length cmds)) cmds (codes "|") (omega arith), executecmd)
              (go (words (codes "|") cmds) (Bool-cases (ltb 0 (length (words (codes "|") cmds)))))
      ]
    where
      go :
          (ws : List (List ℕ))
          → (ltb 0 (length ws) ≡ true) ⊎ (ltb 0 (length ws) ≡ false)
          → ((ws ≢ [])
              × Wired true
                  (some i)
                  (some o)
                  (table w)
                  ws
                  (executecmd_array sys (some (made (length ws) (argv_of ws))) w))
            ⊎ ((ws ≡ [])
                × (executecmd_array sys (some (made (length ws) (argv_of ws))) w
                    ≡ exit no_command w ∷ []))
            ⊎ Stopped (executecmd_array sys (some (made (length ws) (argv_of ws))) w)
      go [] h = inr (inl (refl, refl))
      go (c ∷ cs) (inr no_way) = absurd (ground arith)
      go (c ∷ cs) (inl some_command) =
          rw (some_command, executecmd_array)
            (inl (
              (λ e. absurd (ground arith)),
              subst
                  (λ l. Wired true (some i) (some o) (table w) (c ∷ cs) (run_pipeline sys l true w))
                  (sym (strings-argv_of (c ∷ cs)))
                  (run_pipeline-Wired (c ∷ cs) true w i o (table w)
                    (record { stdin = is_in; stdout = is_out; others = λ d n0 n1. refl })),
            ))
