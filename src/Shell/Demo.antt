-- ===== src/Shell/Demo.antt =====
-- A small system for the laws on descriptors: a table, from `top` on free, and the number of the next
-- pipe. A call fails where it finds `top` in use, or for a negative descriptor.
use usp.Base.{
  ℕ, suc, ◌≡◌, ◌≢◌, ◌∙◌, refl, sym, ap, subst, true, Option, none, some, [], ◌==◌, if◌then◌else◌,
  arith,
}
use usp.Base.Int.{ℤ, pos, negsuc}
use usp.Os.{Errno, Reply, ok, fail, Os}
use usp.Restart.Demo.{noon}
use usp.Shell.{Processes}
use usp.Shell.Laws.{File, Table, Sets, Adds, Piped, Tables}

pub record Desk : Type 0 where
  pub files : ℕ → Option File
  pub top : ℕ
  pub pipes : ℕ

abbrev pub put : (ℕ → Option File) → ℕ → Option File → ℕ → Option File
put f n x m = if m == n then x else f m

abbrev pub table_of : Desk → Table
table_of w (pos n) = w.files n
table_of w (negsuc n) = none

abbrev add : File → Option File → Desk → Reply Desk ℤ
add x none w = ok (pos w.top) (record w { files = put w.files w.top (some x); top = suc w.top })
add x (some y) w = fail Errno.eagain w

abbrev copy : ℤ → ℤ → Desk → Reply Desk ℤ
copy a (pos b) w = ok (pos b) (record w { files = put w.files b (table_of w a) })
copy a (negsuc b) w = fail Errno.einval w

abbrev shut : ℤ → Desk → Reply Desk (Unit {0})
shut (pos a) w = ok tt (record w { files = put w.files a none })
shut (negsuc a) w = fail Errno.einval w

abbrev tube : Option File → Option File → Desk → Reply Desk (ℤ × ℤ)
tube none none w =
    ok (pos w.top, pos (suc w.top))
      (record {
        files =
            put (put w.files w.top (some (File.reader w.pipes))) (suc w.top)
              (some (File.writer w.pipes));
        top = suc (suc w.top);
        pipes = suc w.pipes;
      })
tube (some x) q w = fail Errno.eagain w
tube none (some y) w = fail Errno.eagain w

abbrev pub desk : Os
desk = record {
  World = Desk;
  pipe_buf = 16;
  fd_setsize = 1024;
  read = λ fd n w. ok [] w;
  write = λ fd bs w. ok 0 w;
  close = shut;
  dup2 = copy;
  open2 = λ path f w. add (File.input path) (w.files w.top) w;
  open3 = λ path f m w. add (File.output path) (w.files w.top) w;
  wait = λ w. ok (pos 100, 0) w;
  waitpid = λ p o w. ok (p, 0) w;
  gettimeofday = λ w. (noon, w);
  select = λ fds t w. ok fds w;
}

abbrev pub family : Processes desk
family = record {
  pipe = λ w. tube (w.files w.top) (w.files (suc w.top)) w;
  fork = λ w. ok w w;
  o_rdonly = 0;
  fflag = 577;
  fmode = 384;
  copy_granted = λ s. true;
  array_granted = λ s. true;
}

put_self : (f : ℕ → Option File) (n : ℕ) (x : Option File) → put f n x n ≡ x
put_self f n x = let same : (n == n) ≡ true = ground arith in rw same refl

put_other : (f : ℕ → Option File) (n m : ℕ) (x : Option File) → m ≢ n → put f n x m ≡ f m
put_other f n m x ne = ground arith

pub ok_inj : {W A : Type 0} {a b : A} {w v : W} → ok a w ≡ ok b v → (a ≡ b) × (w ≡ v)
ok_inj {A} {a} {b} {w} {v} e = (ground arith, ground arith)

-- The table after one entry was put.
put-Sets :
    (w : Desk) (n : ℕ) (x : Option File) (top pipes : ℕ)
    → Sets
        (table_of w)
        (table_of (record { files = put w.files n x; top = top; pipes = pipes }))
        (pos n)
        x
put-Sets w n x top pipes = (put_self w.files n x, others)
  where
    others :
        (d : ℤ)
        → d ≢ pos n
        → table_of (record { files = put w.files n x; top = top; pipes = pipes }) d ≡ table_of w d
    others (pos m) ne = put_other w.files n m x (λ e. ne (ap pos e))
    others (negsuc m) ne = refl

pub add-Adds :
    (x : File) (q : Option File) (w v : Desk) (fd : ℤ)
    → w.files w.top ≡ q
    → add x q w ≡ ok fd v
    → Adds (table_of w) (table_of v) fd x
add-Adds x none w v fd free e =
    let (a, b) = ok_inj e in
    subst (λ u. Adds (table_of w) (table_of u) fd x) b
      (subst
        (λ d.
          Adds (table_of w)
            (table_of (record w { files = put w.files w.top (some x); top = suc w.top })) d x)
        a (free, put-Sets w w.top (some x) (suc w.top) w.pipes))
add-Adds x (some y) w v fd free e = absurd (ground arith)

pub copy-Sets :
    (a b r : ℤ) (w v : Desk) → copy a b w ≡ ok r v → Sets (table_of w) (table_of v) b (table_of w a)
copy-Sets a (pos b) r w v e =
    subst (λ u. Sets (table_of w) (table_of u) (pos b) (table_of w a)) (ok_inj e).1
      (put-Sets w b (table_of w a) w.top w.pipes)
copy-Sets a (negsuc b) r w v e = absurd (ground arith)

pub shut-Sets : (a : ℤ) (w v : Desk) → shut a w ≡ ok tt v → Sets (table_of w) (table_of v) a none
shut-Sets (pos a) w v e =
    subst (λ u. Sets (table_of w) (table_of u) (pos a) none) (ok_inj e).1
      (put-Sets w a none w.top w.pipes)
shut-Sets (negsuc a) w v e = absurd (ground arith)

pub tube-Piped :
    (p q : Option File) (a b : ℤ) (w v : Desk)
    → w.files w.top ≡ p
    → w.files (suc w.top) ≡ q
    → tube p q w ≡ ok (a, b) v
    → (n : ℕ) × Piped (table_of w) (table_of v) a b n
tube-Piped none none a b w v free free' e =
    let (ends, after) = ok_inj e in
    (
      w.pipes,
      subst (λ u. Piped (table_of w) (table_of u) a b w.pipes) after
          (subst (λ (c : ℤ × ℤ). Piped (table_of w) (table_of made) c.0 c.1 w.pipes) ends
            (
              free,
              free',
              put_other (put w.files w.top (some (File.reader w.pipes))) (suc w.top) w.top
                    (some (File.writer w.pipes)) (λ e. absurd (omega arith))
                  ∙ put_self w.files w.top (some (File.reader w.pipes)),
              put_self (put w.files w.top (some (File.reader w.pipes))) (suc w.top)
                  (some (File.writer w.pipes)),
              others,
            )),
    )
  where
    made : Desk
    made = record {
      files =
          put (put w.files w.top (some (File.reader w.pipes))) (suc w.top)
            (some (File.writer w.pipes));
      top = suc (suc w.top);
      pipes = suc w.pipes;
    }

    others : (d : ℤ) → d ≢ pos w.top → d ≢ pos (suc w.top) → table_of made d ≡ table_of w d
    others (pos m) na nb =
        put_other (put w.files w.top (some (File.reader w.pipes))) (suc w.top) m
          (some (File.writer w.pipes)) (λ e. nb (ap pos e))
        ∙ put_other w.files w.top m (some (File.reader w.pipes)) (λ e. na (ap pos e))
    others (negsuc m) na nb = refl
tube-Piped none (some y) a b w v free free' e = absurd (ground arith)
tube-Piped (some x) q a b w v free free' e = absurd (ground arith)

abbrev pub tables : Tables family
tables = record {
  table = table_of;
  open_in_law = λ path fd w v e. add-Adds (File.input path) (w.files w.top) w v fd refl e;
  open_out_law = λ path fd w v e. add-Adds (File.output path) (w.files w.top) w v fd refl e;
  dup2_law = copy-Sets;
  close_law = shut-Sets;
  pipe_law = λ a b w v e. tube-Piped (w.files w.top) (w.files (suc w.top)) a b w v refl refl e;
  fork_law = λ w child parent e.
      let (a, b) = ok_inj e in
      ((λ d. ap (λ z. table_of z d) (sym a)), (λ d. ap (λ z. table_of z d) (sym b)));
}
