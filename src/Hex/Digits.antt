-- ===== src/Hex/Digits.antt =====
-- The two writers of hexadecimal digits of libcwmp/src/util.c, and a reader of the digits.
use netcwmp.Common.{
  ℕ, ◌+◌, ◌-◌, ◌*◌, ◌/◌, ◌%◌, ◌<◌, ◌≡◌, refl, ◌∙◌, ap, ap₂, [], ◌∷◌, Bytes, length, take_all, All,
  leb, ◌==◌, ==_iff, if◌then◌else◌, arith, all_below, all_below_at,
}
use netcwmp.Hex.{hex_table, hex_at, hex_to_string, hex_digit, convert_loop, convert_to_hex}

-- The value of a digit.
pub value_of : ℕ → ℕ
value_of c = if leb c 57 then c - 48 else c - 87

-- Bytes read from pairs of digits.
pub read_hex : Bytes → Bytes
read_hex [] = []
read_hex (h ∷ []) = []
read_hex (h ∷ l ∷ s) = (value_of h * 16 + value_of l) ∷ read_hex s

hex_at-hex_digit : (j : ℕ) → j < 16 → hex_at j ≡ hex_digit j
hex_at-hex_digit j h = (==_iff (hex_at j) (hex_digit j)).0 (
    all_below_at 16 j (λ k. hex_at k == hex_digit k)
      (unfold all_below hex_at hex_table hex_digit in refl) h)

value_of-hex_at : (j : ℕ) → j < 16 → value_of (hex_at j) ≡ j
value_of-hex_at j h = (==_iff (value_of (hex_at j)) j).0 (
    all_below_at 16 j (λ k. value_of (hex_at k) == k)
      (unfold all_below hex_at hex_table value_of in refl) h)

-- The two loops agree on bytes.
pub convert_loop-hex_to_string :
    (p : Bytes) → All (λ b. b < 256) p → convert_loop p ≡ hex_to_string p
unfolding convert_loop hex_to_string
convert_loop-hex_to_string [] h = refl
convert_loop-hex_to_string (b ∷ p) h =
    rw (hex_at-hex_digit (b / 16) (omega (arith, h.0)), hex_at-hex_digit (b % 16) (omega arith))
      (ap (λ s. hex_digit (b / 16) ∷ hex_digit (b % 16) ∷ s) (convert_loop-hex_to_string p h.1))

-- `convert_to_hex` writes 16 bytes as `cwmp_hex_to_string` does.
pub convert_to_hex-hex_to_string :
    (p : Bytes) → All (λ b. b < 256) p → length p ≡ 16 → convert_to_hex p ≡ hex_to_string p
unfolding convert_to_hex
convert_to_hex-hex_to_string p h l =
    ap convert_loop (take_all 16 p (omega (arith, l))) ∙ convert_loop-hex_to_string p h

-- Bytes that `cwmp_hex_to_string` has written are read back from their digits.
pub read_hex-hex_to_string : (p : Bytes) → All (λ b. b < 256) p → read_hex (hex_to_string p) ≡ p
unfolding read_hex hex_to_string
read_hex-hex_to_string [] h = refl
read_hex-hex_to_string (b ∷ p) h =
    ap₂ (λ c s. c ∷ s)
      (rw (value_of-hex_at (b / 16) (omega (arith, h.0)), value_of-hex_at (b % 16) (omega arith))
        (omega arith))
      (read_hex-hex_to_string p h.1)

pub length-hex_to_string : (p : Bytes) → length (hex_to_string p) ≡ length p * 2
unfolding hex_to_string
length-hex_to_string [] = refl
length-hex_to_string (b ∷ p) = omega (arith, length-hex_to_string p)
