-- ===== src/Hex.antt =====
-- Digests as text: `cwmp_hex_to_string` and `convert_to_hex` of libcwmp/src/util.c. Bytes are numbers
-- below 256; `b >> 4` is `b / 16` and `b & 0x0f` is `b % 16`.
pub mod Digits
use netcwmp.Common.{
  ℕ, zero, suc, ◌+◌, ◌-◌, ◌/◌, ◌%◌, List, [], ◌∷◌, Option, none, some, Bytes, codes, get_elem?,
  take, leb, if◌then◌else◌,
}

-- The array `hex`.
pub hex_table : Bytes
hex_table = codes "0123456789abcdef"

-- A read of it, 0 out of bounds.
pub hex_at : ℕ → ℕ
unfolding hex_table
hex_at j = elim (get_elem? hex_table j) [ none ↦ 0 | some c ↦ c ]

-- `cwmp_hex_to_string`, without the final NUL.
pub hex_to_string : Bytes → Bytes
unfolding hex_at
hex_to_string [] = []
hex_to_string (b ∷ p) = hex_at (b / 16) ∷ hex_at (b % 16) ∷ hex_to_string p

-- A digit of `convert_to_hex`.
pub hex_digit : ℕ → ℕ
hex_digit j = if leb j 9 then j + 48 else j + 97 - 10

-- The loop of `convert_to_hex`.
pub convert_loop : Bytes → Bytes
unfolding hex_digit
convert_loop [] = []
convert_loop (b ∷ p) = hex_digit (b / 16) ∷ hex_digit (b % 16) ∷ convert_loop p

-- `convert_to_hex`, of the first 16 bytes, without the final NUL.
pub convert_to_hex : Bytes → Bytes
unfolding convert_loop
convert_to_hex p = convert_loop (take 16 p)
