-- ===== src/Proto/Bytes.antt =====
-- The little-endian reads and writes of the `bytes` crate and of `from_le_bytes`, as the protocol
-- code uses them. A byte is a number below 256, a buffer a list of bytes.
use pre_call.Prelude.{
  ℕ, ◌+◌, ◌-◌, ◌*◌, ◌/◌, ◌%◌, ◌^◌, ◌<◌, ◌≡◌, List, [], ◌∷◌, arith, ltb, if◌then◌else◌,
}
use pre_call.Prelude.Int.{ℤ, pos, negsuc, ◌≤ℤ◌}

abbrev pub IsByte : ℕ → Type 0
IsByte b = b < 256

abbrev pub IsU16 : ℕ → Type 0
IsU16 v = v < 65536

abbrev pub IsU32 : ℕ → Type 0
IsU32 v = v < 2 ^ 32

abbrev pub IsI16 : ℤ → Type 0
IsI16 v = (negsuc 32767 ≤ℤ v) × (v ≤ℤ pos 32767)

abbrev pub put_u16_le : ℕ → List ℕ
put_u16_le v = v % 256 ∷ v / 256 % 256 ∷ []

abbrev pub put_u32_le : ℕ → List ℕ
put_u32_le v = v % 256 ∷ v / 256 % 256 ∷ v / 65536 % 256 ∷ v / 16777216 % 256 ∷ []

-- The bit pattern of an i16.
unfoldable pub i16_bits : ℤ → ℕ
i16_bits (pos n) = n % 65536
i16_bits (negsuc n) = (65535 - n % 65536) % 65536

abbrev pub put_i16_le : ℤ → List ℕ
put_i16_le v = put_u16_le (i16_bits v)

abbrev pub get_u16_le : ℕ → ℕ → ℕ
get_u16_le a b = a + 256 * b

abbrev pub get_u32_le : ℕ → ℕ → ℕ → ℕ → ℕ
get_u32_le a b c d = a + 256 * b + 65536 * c + 16777216 * d

-- The i16 with a given bit pattern.
unfoldable pub i16_of_bits : ℕ → ℤ
i16_of_bits v = if ltb v 32768 then pos v else negsuc (65535 - v)

abbrev pub get_i16_le : ℕ → ℕ → ℤ
get_i16_le a b = i16_of_bits (get_u16_le a b)

pub get-put_u16 : (v : ℕ) → IsU16 v → get_u16_le (v % 256) (v / 256 % 256) ≡ v
get-put_u16 v h = omega arith

pub get-put_u32 :
    (v : ℕ)
    → IsU32 v
    → get_u32_le (v % 256) (v / 256 % 256) (v / 65536 % 256) (v / 16777216 % 256) ≡ v
get-put_u32 v h = omega arith

pub i16_bits-IsU16 : (v : ℤ) → IsU16 (i16_bits v)
unfolding i16_bits
i16_bits-IsU16 (pos n) = omega arith
i16_bits-IsU16 (negsuc n) = omega arith

pub i16_of_bits-i16_bits : (v : ℤ) → IsI16 v → i16_of_bits (i16_bits v) ≡ v
unfolding i16_bits i16_of_bits
i16_of_bits-i16_bits (pos n) h = ground arith
i16_of_bits-i16_bits (negsuc n) h = ground arith

pub get-put_i16 : (v : ℤ) → IsI16 v → get_i16_le (i16_bits v % 256) (i16_bits v / 256 % 256) ≡ v
get-put_i16 v h = rw (get-put_u16 (i16_bits v) (i16_bits-IsU16 v)) (i16_of_bits-i16_bits v h)
