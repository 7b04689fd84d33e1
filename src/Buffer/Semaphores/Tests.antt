-- ===== src/Buffer/Semaphores/Tests.antt =====
-- Two threads at the buffer with semaphores: thread 1 puts 5 in, thread 0 waits for it.
use usp.Base.{ℕ, ◌+◌, ◌≤◌, ◌≡◌, refl, none, List, ◌∷◌, ◌++◌, length}
use usp.Buffer.{bufsize}
use usp.Buffer.Semaphores.{
  Place, Shop, go, take_out, put_in, Move, get_wait, put_wait, put_lock, put_unlock, put_post,
  open_shop, Reached, opened, after,
}
use usp.Buffer.Semaphores.Stock.{RingHolds}
use usp.Buffer.Semaphores.Safety.{stock_in_order, reserved-getitem}

abbrev s0 : Shop ℕ
s0 = open_shop 2 0

abbrev s1 : Shop ℕ
s1 = record (go s0 1 (Place.put_reserved 5)) { semslots = 7 }

abbrev s2 : Shop ℕ
s2 = put_in s1 1 5

abbrev s3 : Shop ℕ
s3 = record (go s2 1 Place.put_posting) { owner = none }

abbrev s4 : Shop ℕ
s4 = record (go s3 1 Place.outside) { semitems = 1 }

abbrev s5 : Shop ℕ
s5 = record (go s4 0 Place.get_reserved) { semitems = 0 }

run5 : Reached 2 0 s5
unfolding put_in
run5 =
    after
      (after
        (after (after (after opened (put_wait 1 7 5 refl refl refl)) (put_lock 1 5 refl refl refl))
          (put_unlock 1 refl refl))
        (put_post 1 refl refl))
      (get_wait 0 0 refl refl refl)

stock_in_order_example :
    (q : List ℕ) × (s5.puts ≡ s5.gets ++ q)
    × RingHolds s5.ring q
    × (s5.semitems ≤ length q)
    × (s5.semslots + length q ≤ bufsize)
stock_in_order_example = stock_in_order run5

at_five : s5.owner ≡ none
unfolding put_in
at_five = refl

reserved-getitem_example :
    (x : ℕ) × (q : List ℕ) × (s5.puts ≡ s5.gets ++ (x ∷ q)) × Move s5 (take_out s5 0 x)
unfolding put_in
reserved-getitem_example = reserved-getitem run5 0 refl refl
