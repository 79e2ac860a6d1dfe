-- ===== src/Net/Words.antt =====
-- Big-endian and little-endian words as Rust's `from_be_bytes` and `to_le_bytes` read and write
-- them, and the nibbles of an octet.
use netpoke.Prelude.{ℕ, ◌+◌, ◌*◌, ◌/◌, ◌%◌, ◌^◌, ◌<◌, ◌≡◌, List, [], ◌∷◌, arith}

-- `x & 0x0F` and `(x >> 4) & 0x0F` of an octet.
abbrev pub low_nibble : ℕ → ℕ
low_nibble x = x % 16

abbrev pub high_nibble : ℕ → ℕ
high_nibble x = x / 16 % 16

-- `u16::from_be_bytes([a, b])`
abbrev pub u16_of_be : ℕ → ℕ → ℕ
u16_of_be a b = a * 256 + b

-- `x.to_be_bytes()` of a `u16`
abbrev pub u16_to_be : ℕ → List ℕ
u16_to_be x = x / 256 % 256 ∷ x % 256 ∷ []

-- `x.to_le_bytes()` of a `u16` and of a `u32`
abbrev pub u16_to_le : ℕ → List ℕ
u16_to_le x = x % 256 ∷ x / 256 % 256 ∷ []

abbrev pub u32_to_le : ℕ → List ℕ
u32_to_le x = x % 256 ∷ x / 256 % 256 ∷ x / 65536 % 256 ∷ x / 16777216 % 256 ∷ []

-- The word that four little-endian octets spell.
abbrev pub u32_of_le : ℕ → ℕ → ℕ → ℕ → ℕ
u32_of_le a b c d = a + b * 256 + c * 65536 + d * 16777216

pub u16_of_be-u16_to_be : (x : ℕ) → x < 2 ^ 16 → u16_of_be (x / 256 % 256) (x % 256) ≡ x
u16_of_be-u16_to_be x h = omega arith

pub u32_of_le-u32_to_le :
    (x : ℕ)
    → x < 2 ^ 32
    → u32_of_le (x % 256) (x / 256 % 256) (x / 65536 % 256) (x / 16777216 % 256) ≡ x
u32_of_le-u32_to_le x h = omega arith
