-- ===== src/History/Tests.antt =====
-- The theorems on the history list at concrete inputs.
use usp.Base.{
  ℕ, ◌≢◌, ◌≡◌, refl, true, false, Option, none, some, List, [], ◌∷◌, replicate, length-replicate,
  ◌==◌, if◌then◌else◌, arith,
}
use usp.Base.Int.{pos}
use usp.History.{
  Entry, Node, Store, null, at, adddata, accessdata, accessdata_at, getdata, showhistory,
}
use usp.History.Linked.{Cell, IsList, Added, adddata-Added}
use usp.History.Traverse.{Opened, accessdata-Opened, Cursor, Shown, showhistory-Shown}
use usp.Os.{Errno}
use usp.History.Keeplog.{Line, Free, executed, start, Kept, keeplog, keeplog-Kept}
use usp.History.ReadWrite.Readers.{and_then, read_at, swap, getdata_r-commute}
use usp.History.Locked.{AddedLocked, adddata_r, adddata_r-AddedLocked}

abbrev date_cmd : Entry
date_cmd = record { time = pos 100; string = b'd' ∷ b'a' ∷ b't' ∷ b'e' ∷ [] }

abbrev ls_cmd : Entry
ls_cmd = record { time = pos 160; string = b'l' ∷ b's' ∷ [] }

-- Two nodes, at 40 and 72, and a traversal at key 0 that stands at the first.
abbrev two_heap : ℕ → Option Node
two_heap a =
    if a == 40
    then some (record { item = date_cmd; next = some 72 })
    else if a == 72
    then some (record { item = ls_cmd; next = none })
    else none

abbrev two : Store
two = record {
  heap = two_heap;
  headptr = some 40;
  tailptr = some 72;
  travptrs = at 40 ∷ null ∷ null ∷ null ∷ null ∷ null ∷ null ∷ null ∷ [];
  travptrs_size = 8;
}

abbrev two_cells : List Cell
two_cells = (40, date_cmd) ∷ (72, ls_cmd) ∷ []

two-IsList : IsList two two_cells
two-IsList = record {
  linked = (refl, (some 72, refl, (refl, (none, refl, refl))));
  distinct = (((λ e. absurd (omega arith)), tt), (tt, tt));
  tail = refl;
}

adddata-Added_example : Added two two_cells (some 96) date_cmd (adddata (some 96) date_cmd two)
adddata-Added_example = adddata-Added two two_cells (some 96) date_cmd two-IsList refl

accessdata-Opened_example : Opened two two_cells true (accessdata true (replicate 8 null) two)
accessdata-Opened_example =
    accessdata-Opened true (replicate 8 null) two two_cells two-IsList refl refl

two-Cursor : Cursor two 0 two_cells
two-Cursor = record { in_range = omega arith; slot = refl; linked = two-IsList.linked }

showhistory-Shown_example : Shown two two_cells (showhistory 5 (replicate 8 null) two)
showhistory-Shown_example =
    showhistory-Shown 5 (replicate 8 null) two two_cells two-IsList refl refl (omega arith)

adddata_r-AddedLocked_example :
    AddedLocked two two_cells none none (some 96) ls_cmd (adddata_r none none (some 96) ls_cmd two)
adddata_r-AddedLocked_example =
    adddata_r-AddedLocked none none two two_cells (some 96) ls_cmd two-IsList refl

showhistory_run : showhistory 5 (replicate 8 null) two ≡ some (some (date_cmd ∷ ls_cmd ∷ []), two)
unfolding showhistory accessdata accessdata_at getdata
showhistory_run = refl

-- Keys 0 and 1 stand at different nodes; the second call gets no memory.
abbrev two_keys : Store
two_keys = record two { travptrs = at 40 ∷ at 72 ∷ null ∷ null ∷ null ∷ null ∷ null ∷ null ∷ [] }

zero_ne_one : ◌≢◌ {A = ℕ} 0 1
zero_ne_one e = absurd (omega arith)

getdata_r-commute_example :
    and_then (read_at none true 0 two_keys) (read_at none false 1)
    ≡ swap (and_then (read_at none false 1 two_keys) (read_at none true 0))
getdata_r-commute_example =
    getdata_r-commute none none true false 0 1 two_keys zero_ne_one (omega arith) (omega arith)

abbrev three_lines : List Line
three_lines =
    record {
      cmd = date_cmd.string;
      time = some date_cmd.time;
      ran = true;
      errno = Errno.other 0;
      room = 40;
    }
    ∷ record {
      cmd = ls_cmd.string;
      time = some ls_cmd.time;
      ran = true;
      errno = Errno.other 0;
      room = 72;
    }
    ∷ record {
      cmd = b'x' ∷ [];
      time = some (pos 200);
      ran = false;
      errno = Errno.other 2;
      room = 96;
    }
    ∷ []

three_lines-Free : Free (λ a. none) three_lines
three_lines-Free = (
  refl,
  ((λ e. absurd (omega arith)), ((λ e. absurd (omega arith)), tt)),
  (refl, ((λ e. absurd (omega arith)), tt), (refl, tt, tt)),
)

keeplog-Kept_example :
    Kept
      (executed three_lines)
      (keeplog (λ s. replicate s.travptrs_size null) 4 three_lines (start (λ a. none)))
keeplog-Kept_example =
    keeplog-Kept (λ s. replicate s.travptrs_size null) 4 three_lines (λ a. none) three_lines-Free
      (λ s. length-replicate s.travptrs_size null) (omega arith)

three_executed : executed three_lines ≡ date_cmd ∷ ls_cmd ∷ []
three_executed = refl
