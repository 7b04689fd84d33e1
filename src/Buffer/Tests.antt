-- ===== src/Buffer/Tests.antt =====
-- The theorems on the buffer at concrete inputs.
use usp.Base.{ℕ, ◌≡◌, ◌≤◌, refl, true, none, some, List, [], ◌∷◌, ◌++◌, length, arith}
use usp.Buffer.{Buffer, bufsize, getitem, putitem}
use usp.Buffer.Refine.{Represents, Got, getitem-Got, Put, putitem-Put}
use usp.Buffer.Monitor.{
  Pc, System, call_get, get_wait, call_put, put_go, unlock, get_wake, init, Reach, start, later,
  get_decision, put_decision, move, put_in,
}
use usp.Buffer.Monitor.{holds, items_in_order, mutual_exclusion}

-- Items 8 and 9 lie round the end of the array.
abbrev wrapped : Buffer ℕ
wrapped = record {
  buffer = 9 ∷ 1 ∷ 2 ∷ 3 ∷ 4 ∷ 5 ∷ 6 ∷ 8 ∷ [];
  bufin = 1;
  bufout = 7;
  totalitems = 2;
}

wrapped-Represents : Represents wrapped (8 ∷ 9 ∷ [])
wrapped-Represents = record {
  slots = refl;
  out_in = omega arith;
  in_in = omega arith;
  count = refl;
  fits = omega arith;
  next = refl;
  items = (refl, (refl, tt));
}

getitem-Got_example : Got none none (8 ∷ 9 ∷ []) wrapped (getitem none none wrapped)
getitem-Got_example = getitem-Got none none wrapped (8 ∷ 9 ∷ []) wrapped-Represents

putitem-Put_example : Put none none (8 ∷ 9 ∷ []) 7 wrapped (putitem none none wrapped 7)
putitem-Put_example = putitem-Put none none wrapped (8 ∷ 9 ∷ []) 7 wrapped-Represents

-- Thread 1 waits for an item, thread 2 puts 5 in, thread 1 wakes and stands at its test.
abbrev s1 : System ℕ
s1 = move (init 0) 1 (some 1) Pc.get_testing

abbrev s2 : System ℕ
s2 = move s1 1 none Pc.get_waiting

abbrev s3 : System ℕ
s3 = move s2 2 (some 2) (Pc.put_testing 5)

abbrev s4 : System ℕ
s4 = put_in s3 2 none 5

abbrev s5 : System ℕ
s5 = move s4 2 none Pc.outside

abbrev s6 : System ℕ
s6 = move s5 1 (some 1) Pc.get_testing

reach4 : Reach 0 s4
unfolding get_decision put_decision put_in
reach4 =
    later
      (later (later (later start (call_get 1 refl refl refl)) (get_wait 1 refl refl refl))
        (call_put 2 5 refl refl refl))
      (put_go 2 5 none refl refl refl)

reach6 : Reach 0 s6
unfolding get_decision put_decision put_in
reach6 = later (later reach4 (unlock 2 none refl refl)) (get_wake 1 refl refl refl)

items_in_order_example :
    (q : List ℕ) × (s6.puts ≡ s6.gets ++ q) × (length q ≤ bufsize) × Represents s6.buf q
items_in_order_example = items_in_order reach6

thread1_holds : holds (s6.pc 1) ≡ true
thread1_holds = refl

mutual_exclusion_example : ◌≡◌ {A = ℕ} 1 1
mutual_exclusion_example = mutual_exclusion reach6 1 1 thread1_holds thread1_holds
