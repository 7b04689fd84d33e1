-- ===== src/Packet.antt =====
-- chapter17/putpacket.c and chapter17/getpacket.c: packets of chapter17/ntpvm.h on a byte stream. How
-- the compiler lays out the header in memory is a parameter.
pub mod RoundTrip
mod Tests
use usp.Base.{
  ℕ, Bool, true, false, ◌||◌, Option, none, some, List, length, take, ◌==◌, ltb, if◌then◌else◌,
}
use usp.Base.Int.{ℤ, pos, negsuc}
use usp.Os.{Reply, ok, fail, Os}
use usp.Restart.{r_write, readblock}

abbrev pub max_pack_size : ℕ
max_pack_size = 1024

-- `taskpacket_t`; the type of a packet is given by its number. That the numbers are `int`s is `IsHeader`
-- of Packet/RoundTrip.antt.
pub record Header : Type 0 where
  pub compid : ℤ
  pub taskid : ℤ
  pub type : ℤ
  pub length : ℤ

-- The bytes of a header: `headlen` is `sizeof(taskpacket_t)`.
pub record Layout : Type 0 where
  pub headlen : ℕ
  pub encode : Header → List ℕ
  pub decode : List ℕ → Header

-- What `getpacket` stores through its pointers.
pub record Packet : Type 0 where
  pub header : Header
  pub buf : List ℕ

-- The length as a size, unless it is negative or greater than `MAX_PACK_SIZE`.
unfoldable pub checked : ℤ → Option ℕ
checked (negsuc n) = none
checked (pos n) = if ltb max_pack_size n then none else some n

module _ (os : Os) (layout : Layout) where
  open os use {World}

  -- The result is `none` for -1.
  unfoldable pub put_parts : ℕ → ℤ → Header → List ℕ → World → Option (Option (Unit {0}) × World)
  put_parts fuel fd header body w = elim (r_write os fuel fd (layout.encode header) w) [
    | none ↦ none
    | some (fail e w') ↦ some (none, w')
    | some (ok n w') ↦ elim (n == layout.headlen) [
      | false ↦ some (none, w')
      | true ↦ elim (r_write os fuel fd body w') [
        | none ↦ none
        | some (fail e w'') ↦ some (none, w'')
        | some (ok k w'') ↦ elim (k == length body) [
          | true ↦ some (some tt, w'')
          | false ↦ some (none, w'')
        ]
      ]
    ]
  ]

  -- `buf` has at least as many bytes as `header.length`.
  unfoldable pub putpacket : ℕ → ℤ → Header → List ℕ → World → Option (Option (Unit {0}) × World)
  unfolding put_parts checked
  putpacket fuel fd header buf w = elim (checked header.length) [
    | none ↦ some (none, w)
    | some n ↦ put_parts fuel fd header (take n buf) w
  ]

  -- The part of `getpacket` after the header.
  unfoldable pub get_data : ℕ → ℤ → Header → World → Option (Option Packet × World)
  unfolding checked
  get_data fuel fd header w = elim (checked header.length) [
    | none ↦ some (none, w)
    | some n ↦ elim (readblock os fuel fd n w) [
      | none ↦ none
      | some (fail e w') ↦ some (none, w')
      | some (ok (k, bytes) w') ↦ elim (k == n) [
        | true ↦ some (some (record { header = header; buf = bytes }), w')
        | false ↦ some (none, w')
      ]
    ]
  ]

  unfoldable pub getpacket : ℕ → ℤ → World → Option (Option Packet × World)
  unfolding get_data
  getpacket fuel fd w = elim (readblock os fuel fd layout.headlen w) [
    | none ↦ none
    | some (fail e w') ↦ some (none, w')
    | some (ok (n, bytes) w') ↦ elim (n == layout.headlen) [
      | true ↦ get_data fuel fd (layout.decode bytes) w'
      | false ↦ some (none, w')
    ]
  ]
