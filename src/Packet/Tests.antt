-- ===== src/Packet/Tests.antt =====
-- The theorem on packets in a small system, with a header of sixteen bytes, the lowest first, and a run
-- of `putpacket`.
use usp.Base.{
  ap, ◌∙◌, ◌+◌, ◌-◌, ◌*◌, ◌/◌, ◌%◌, ◌<◌, ltb, if◌then◌else◌, All, ℕ, ◌≡◌, refl, some, List, [], ◌∷◌,
  arith,
}
use usp.Base.Int.{ℤ, pos, negsuc}
use usp.Restart.Demo.{Machine, machine, source, sink}
use usp.Restart.{r_write}
use usp.Packet.{Header, Layout, putpacket, getpacket}
use usp.Packet.RoundTrip.{IsInt, IsHeader, Lossless, Got, getpacket-putpacket}

-- The number that the bytes of an `int` stand for without a sign.
abbrev unsigned : ℤ → ℕ
unsigned (pos n) = n
unsigned (negsuc n) = 4294967295 - n

abbrev signed : ℕ → ℤ
signed n = if ltb n 2147483648 then pos n else negsuc (4294967295 - n)

signed-unsigned : (x : ℤ) → IsInt x → signed (unsigned x) ≡ x
signed-unsigned (pos n) h = ground arith
signed-unsigned (negsuc n) h = ground arith

abbrev bytes : ℕ → List ℕ → List ℕ
bytes n rest = n % 256 ∷ n / 256 % 256 ∷ n / 65536 % 256 ∷ n / 16777216 % 256 ∷ rest

abbrev join : ℕ → ℕ → ℕ → ℕ → ℤ
join a b c d = signed (a + b * 256 + c * 65536 + d * 16777216)

join-bytes :
    (x : ℤ)
    → IsInt x
    → let n = unsigned x in
      join (n % 256) (n / 256 % 256) (n / 65536 % 256) (n / 16777216 % 256) ≡ x
join-bytes x h = ap signed (all_bytes (unsigned x) (bound x h)) ∙ signed-unsigned x h
  where
    bound : (x : ℤ) → IsInt x → unsigned x < 4294967296
    bound (pos n) h = omega arith
    bound (negsuc n) h = omega arith

    all_bytes :
        (n : ℕ)
        → n < 4294967296
        → n % 256 + n / 256 % 256 * 256 + n / 65536 % 256 * 65536 + n / 16777216 % 256 * 16777216
          ≡ n
    all_bytes n h = omega arith

abbrev decode : List ℕ → Header
decode (a ∷ b ∷ c ∷ d ∷ a' ∷ b' ∷ c' ∷ d' ∷ e ∷ f ∷ g ∷ h ∷ e' ∷ f' ∷ g' ∷ h' ∷ []) = record {
  compid = join a b c d;
  taskid = join a' b' c' d';
  type = join e f g h;
  length = join e' f' g' h';
}
decode _ = record { compid = pos 0; taskid = pos 0; type = pos 0; length = pos 0 }

abbrev plain : Layout
plain = record {
  headlen = 16;
  encode = λ h.
      bytes (unsigned h.compid)
        (bytes (unsigned h.taskid) (bytes (unsigned h.type) (bytes (unsigned h.length) [])));
  decode = decode;
}

bytes-All : (n : ℕ) (rest : List ℕ) → All (λ b. b < 256) rest → All (λ b. b < 256) (bytes n rest)
bytes-All n rest h = (omega arith, (omega arith, (omega arith, (omega arith, h))))

plain-Lossless : Lossless plain
plain-Lossless = record {
  length_law = λ h int. refl;
  bytes_law = λ h int.
      let last = bytes (unsigned h.length) [] in
      let third = bytes (unsigned h.type) last in
      bytes-All (unsigned h.compid) (bytes (unsigned h.taskid) third) (
        bytes-All (unsigned h.taskid) third
          (bytes-All (unsigned h.type) last (bytes-All (unsigned h.length) [] tt)));
  decode_law = λ h int. λ i. record {
    compid = join-bytes h.compid int.0 i;
    taskid = join-bytes h.taskid int.1 i;
    type = join-bytes h.type int.2 i;
    length = join-bytes h.length int.3 i;
  };
}

abbrev header : Header
header = record { compid = pos 2; taskid = pos 5; type = pos 1; length = pos 3 }

header_ints : IsHeader header
header_ints = (omega arith, omega arith, omega arith, omega arith)

abbrev empty : Machine
empty = record { input = []; output = []; signals = 1 }

-- The stream with the packet and one byte more.
abbrev filled : Machine
filled = record {
  input = 2 ∷ 0 ∷ 0 ∷ 0 ∷ 5 ∷ 0 ∷ 0 ∷ 0 ∷ 1 ∷ 0 ∷ 0 ∷ 0 ∷ 3 ∷ 0 ∷ 0 ∷ 0 ∷ 70 ∷ 71 ∷ 72 ∷ 99 ∷ [];
  output = [];
  signals = 2;
}

abbrev written : Machine
written = record {
  input = [];
  output = 2 ∷ 0 ∷ 0 ∷ 0 ∷ 5 ∷ 0 ∷ 0 ∷ 0 ∷ 1 ∷ 0 ∷ 0 ∷ 0 ∷ 3 ∷ 0 ∷ 0 ∷ 0 ∷ 70 ∷ 71 ∷ 72 ∷ [];
  signals = 0;
}

put_run :
    putpacket machine plain 21 (pos 1) header (70 ∷ 71 ∷ 72 ∷ []) empty ≡ some (some tt, written)
unfolding putpacket r_write
put_run = refl

getpacket-putpacket_example :
    Got
      (source (pos 0))
      (record { header = header; buf = 70 ∷ 71 ∷ 72 ∷ [] })
      (99 ∷ [])
      (getpacket machine plain 22 (pos 0) filled)
getpacket-putpacket_example =
    getpacket-putpacket (sink (pos 1)) plain plain-Lossless (source (pos 0)) 21 22 header
      (70 ∷ 71 ∷ 72 ∷ []) written.output (99 ∷ []) empty written filled header_ints refl
      (omega arith) put_run refl refl (omega arith)
