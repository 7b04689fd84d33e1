-- ===== src/Shell/Tests.antt =====
-- The theorems on the shells in a small system: lines that are run in a terminal.
use usp.Base.{ℕ, ◌≡◌, ◌≢◌, ◌⊎◌, refl, true, none, some, List, [], ◌∷◌, ◌==◌, if◌then◌else◌}
use usp.Text.{codes}
use usp.Text.Words.{words}
use usp.Shell.{exit, no_command, executeredirect, executecmd}
use usp.Shell.Laws.{File}
use usp.Shell.Order.{Line, in_out, out_in, Between, executeredirect-Between}
use usp.Shell.Pipeline.{Wired, Stopped, executecmd-Wired}
use usp.Shell.Demo.{Desk, table_of, family, tables}

-- Input, output and error output are the terminal.
abbrev tty : Desk
tty = record {
  files = λ n.
      if n == 0
      then some (File.other 0)
      else if n == 1
      then some (File.other 0)
      else if n == 2
      then some (File.other 0)
      else none;
  top = 3;
  pipes = 0;
}

sort-Line : Line (codes "sort ") (codes "in") (codes "out")
unfolding usp.Text.is_in
sort-Line = record {
  no_in = (refl, (refl, (refl, (refl, (refl, tt)))));
  no_out = (refl, (refl, (refl, (refl, (refl, tt)))));
  infile_word = (refl, (refl, tt));
  outfile_word = (refl, (refl, (refl, tt)));
  infile_plain = (refl, (refl, tt));
  outfile_plain = (refl, (refl, (refl, tt)));
}

executeredirect-Between_example :
    Between tables
      (codes "sort ")
      (codes "in")
      (codes "out")
      tty
      (executeredirect family (in_out (codes "sort ") (codes "in") (codes "out")) true true tty)
    × Between tables
        (codes "sort ")
        (codes "in")
        (codes "out")
        tty
        (executeredirect family (out_in (codes "sort ") (codes "in") (codes "out")) true true tty)
executeredirect-Between_example =
    executeredirect-Between tables sort-Line tty (File.other 0) (File.other 0) refl refl

abbrev three : List ℕ
three = codes "ls | sort -r | head > out"

executecmd-Wired_example :
    ((words (codes "|") three ≢ [])
      × Wired tables true
          (some (File.other 0))
          (some (File.other 0))
          (table_of tty)
          (words (codes "|") three)
          (executecmd family three tty))
    ⊎ ((words (codes "|") three ≡ []) × (executecmd family three tty ≡ exit no_command tty ∷ []))
    ⊎ Stopped tables (executecmd family three tty)
executecmd-Wired_example = executecmd-Wired tables three tty (File.other 0) (File.other 0) refl refl
