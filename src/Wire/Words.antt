-- ===== src/Wire/Words.antt =====
-- One 32-bit value and the clock array on the wire: serialize and deserialize of helper.c.
use distributed_system.Base.{
  ℕ, zero, suc, ◌+◌, ◌*◌, ◌/◌, ◌%◌, ◌^◌, ◌≤◌, ◌<◌, ◌≡◌, refl, ap, Option, some, List, [], ◌∷◌, ◌++◌,
  arith, length, All,
}
use distributed_system.Clock.{Clock}
use distributed_system.Wire.{
  serialize_unsigned_int, serialize_clock, deserialize_unsigned_int, deserialize_clock, ◌>>=◌,
}

-- Values that fit the fields of a clock.
abbrev pub ClockFits : Clock → Type 0
ClockFits c = (c.node_id < 2 ^ 32) × (c.time < 2 ^ 32)

-- Bytes.
abbrev pub IsByte : ℕ → Type 0
IsByte b = b < 256

-- The four bytes of a 32-bit value make up the value.
pub four_bytes :
    (v : ℕ)
    → v < 2 ^ 32
    → v / 16777216 % 256 * 16777216 + v / 65536 % 256 * 65536 + v / 256 % 256 * 256 + v % 256 ≡ v
four_bytes v h = omega arith

pub deserialize-serialize_unsigned_int :
    (v : ℕ) (rest : List ℕ)
    → v < 2 ^ 32
    → deserialize_unsigned_int (serialize_unsigned_int v ++ rest) ≡ some (v, rest)
unfolding deserialize_unsigned_int serialize_unsigned_int
deserialize-serialize_unsigned_int v rest h =
    ap {B = Option (ℕ × List ℕ)} (λ x. some (x, rest)) (omega arith)

-- Bytes that are read and written again are the same bytes.
pub serialize-deserialize_unsigned_int :
    (buffer : List ℕ) {v : ℕ} {rest : List ℕ}
    → All IsByte buffer
    → deserialize_unsigned_int buffer ≡ some (v, rest)
    → (serialize_unsigned_int v ++ rest ≡ buffer) × All IsByte rest
unfolding deserialize_unsigned_int serialize_unsigned_int
serialize-deserialize_unsigned_int [] h e = absurd (ground arith)
serialize-deserialize_unsigned_int (a ∷ []) h e = absurd (ground arith)
serialize-deserialize_unsigned_int (a ∷ b ∷ []) h e = absurd (ground arith)
serialize-deserialize_unsigned_int (a ∷ b ∷ c ∷ []) h e = absurd (ground arith)
serialize-deserialize_unsigned_int (a ∷ b ∷ c ∷ d ∷ buffer) h e = ground arith

deserialize-serialize_clock :
    (vc : List Clock) (rest : List ℕ)
    → All ClockFits vc
    → deserialize_clock (length vc) (serialize_clock vc ++ rest) ≡ some (vc, rest)
unfolding deserialize_clock serialize_clock
deserialize-serialize_clock [] rest h = refl
deserialize-serialize_clock (c ∷ vc) rest h =
    rw (four_bytes c.node_id h.0.0, four_bytes c.time h.0.1)
      (rw (deserialize-serialize_clock vc rest h.1, ◌>>=◌))

pub deserialize-serialize_clock_slots :
    (n : ℕ) (vc : List Clock) (rest : List ℕ)
    → length vc ≡ n
    → All ClockFits vc
    → deserialize_clock n (serialize_clock vc ++ rest) ≡ some (vc, rest)
deserialize-serialize_clock_slots n vc rest slots h =
    rw (← slots) (deserialize-serialize_clock vc rest h)

-- A clock array is read whenever the buffer has its 8 bytes for each slot, and has that many slots.
pub deserialize_clock_total :
    (n : ℕ) (buffer : List ℕ)
    → 8 * n ≤ length buffer
    → (vc : List Clock) × (rest : List ℕ) × (deserialize_clock n buffer ≡ some (vc, rest))
      × (length vc ≡ n)
      × (length rest + 8 * n ≡ length buffer)
unfolding deserialize_clock
deserialize_clock_total zero buffer h = ([], buffer, refl, refl, omega arith)
deserialize_clock_total (suc n) [] h = absurd (omega arith)
deserialize_clock_total (suc n) (a ∷ []) h = absurd (omega arith)
deserialize_clock_total (suc n) (a ∷ b ∷ []) h = absurd (omega arith)
deserialize_clock_total (suc n) (a ∷ b ∷ c ∷ []) h = absurd (omega arith)
deserialize_clock_total (suc n) (a ∷ b ∷ c ∷ d ∷ []) h = absurd (omega arith)
deserialize_clock_total (suc n) (a ∷ b ∷ c ∷ d ∷ e ∷ []) h = absurd (omega arith)
deserialize_clock_total (suc n) (a ∷ b ∷ c ∷ d ∷ e ∷ f ∷ []) h = absurd (omega arith)
deserialize_clock_total (suc n) (a ∷ b ∷ c ∷ d ∷ e ∷ f ∷ g ∷ []) h = absurd (omega arith)
deserialize_clock_total (suc n) (a ∷ b ∷ c ∷ d ∷ e ∷ f ∷ g ∷ k ∷ buffer) h =
    let (vc, rest, read, slots, left) = deserialize_clock_total n buffer (omega arith) in
    (
      record {
        node_id = a * 16777216 + b * 65536 + c * 256 + d;
        time = e * 16777216 + f * 65536 + g * 256 + k;
      }
          ∷ vc,
      rest,
      rw (read, ◌>>=◌) refl,
      ap suc slots,
      omega arith,
    )

pub length-serialize_clock : (vc : List Clock) → length (serialize_clock vc) ≡ 8 * length vc
unfolding serialize_clock
length-serialize_clock [] = refl
length-serialize_clock (c ∷ vc) = omega (arith, length-serialize_clock vc)

pub deserialize_unsigned_int_total :
    (buffer : List ℕ)
    → 4 ≤ length buffer
    → (v : ℕ) × (rest : List ℕ) × (deserialize_unsigned_int buffer ≡ some (v, rest))
      × (length rest + 4 ≡ length buffer)
unfolding deserialize_unsigned_int
deserialize_unsigned_int_total [] h = absurd (omega arith)
deserialize_unsigned_int_total (a ∷ []) h = absurd (omega arith)
deserialize_unsigned_int_total (a ∷ b ∷ []) h = absurd (omega arith)
deserialize_unsigned_int_total (a ∷ b ∷ c ∷ []) h = absurd (omega arith)
deserialize_unsigned_int_total (a ∷ b ∷ c ∷ d ∷ rest) h = (_, rest, refl, omega arith)
