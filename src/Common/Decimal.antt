-- ===== src/Common/Decimal.antt =====
-- Decimal numbers: `%d` of `printf` and `atoi`, for the C type `int`.
use Prim.Native.Nat.{ℕ, zero, suc, ◌+◌, ◌-◌, ◌*◌, ◌/◌, ◌%◌, ◌<◌}
use mathlib.Core.Path.{◌≡◌, refl, ap, ◌∙◌}
use mathlib.Core.Bool.{Bool, true, false, ◌&&◌, ◌||◌}
use mathlib.Core.List.{[], ◌∷◌}
use native.Mathlib.Omega.{arith}
use netcwmp.Common.Tests.{ltb, leb, ◌==◌, if◌then◌else◌}
use netcwmp.Common.Lists.{Bytes}
use netcwmp.Common.Int.{ℤ, pos, negsuc}

-- The digits of a number, before `out`.
unfoldable pub digits : ℕ → ℕ → Bytes → Bytes
digits zero n out = out
digits (suc k) n out =
    let rest = digits k (n / 10) ((48 + n % 10) ∷ out) in if n == 0 then out else rest

-- The digits of a number below `10 ^ 10`.
unfoldable pub decimal : ℕ → Bytes
unfolding digits
decimal n = if n == 0 then 48 ∷ [] else digits 10 n []

-- `%d`
unfoldable pub itoa : ℤ → Bytes
unfolding decimal
itoa (pos n) = decimal n
itoa (negsuc n) = 45 ∷ decimal (n + 1)

abbrev pub isdigit : ℕ → Bool
isdigit c = leb 48 c && leb c 57

-- The digits that `atoi` reads, after a number `n`.
unfoldable pub scan : Bytes → ℕ → ℕ
scan [] n = n
scan (c ∷ s) n = let rest = scan s (n * 10 + (c - 48)) in if isdigit c then rest else n

abbrev pub negate : ℕ → ℤ
negate zero = pos 0
negate (suc n) = negsuc n

-- `isspace` in the C locale.
abbrev pub isspace : ℕ → Bool
isspace c = c == 32 || leb 9 c && leb c 13

-- `atoi`, for numbers that fit an `int`; for others it is the number here, and `to_int` gives what is
-- kept of it.
unfoldable pub atoi : Bytes → ℤ
unfolding scan
atoi [] = pos 0
atoi (c ∷ s) =
    let rest = atoi s in
    if isspace c
    then rest
    else if c == 45
    then negate (scan s 0)
    else if c == 43
    then pos (scan s 0)
    else pos (scan (c ∷ s) 0)

-- What an `int` of 32 bits keeps of a number.
abbrev pub to_int : ℤ → ℤ
to_int (pos n) =
    let m = n % 4294967296 in if ltb m 2147483648 then pos m else negsuc (4294967295 - m)
to_int (negsuc n) =
    let m = n % 4294967296 in if ltb m 2147483648 then negsuc m else pos (4294967295 - m)

pub to_int-pos : (n : ℕ) → n < 2147483648 → to_int (pos n) ≡ pos n
to_int-pos n h = ground (arith, h)

-- An `int` as an `unsigned int`.
abbrev pub to_unsigned : ℤ → ℕ
to_unsigned (pos n) = n % 4294967296
to_unsigned (negsuc n) = 4294967295 - n % 4294967296

-- `10 ^ k`
abbrev pub limit : ℕ → ℕ
limit zero = 1
limit (suc k) = 10 * limit k

scan-digits : (k n : ℕ) (out : Bytes) → n < limit k → scan (digits k n out) 0 ≡ scan out n
unfolding scan digits
scan-digits zero zero out h = refl
scan-digits zero (suc n) out h = absurd (omega (arith, h))
scan-digits (suc k) n out h =
    ground (arith, scan-digits k (n / 10) ((48 + n % 10) ∷ out) (omega (arith, h)))

scan-decimal : (n : ℕ) → n < limit 10 → scan (decimal n) 0 ≡ n
unfolding scan decimal
scan-decimal n h = ground (arith, scan-digits 10 n [] h)

abbrev StartsDigit : Bytes → Type 0
StartsDigit [] = ⊥
StartsDigit (c ∷ s) = isdigit c ≡ true

digits-StartsDigit : (k n : ℕ) (out : Bytes) → StartsDigit out → StartsDigit (digits k n out)
unfolding digits
digits-StartsDigit zero n out h = h
digits-StartsDigit (suc k) n out h =
    elim (n == 0)
      as (λ b. StartsDigit (if b then out else digits k (n / 10) ((48 + n % 10) ∷ out))) [
        | true ↦ h
        | false ↦ digits-StartsDigit k (n / 10) ((48 + n % 10) ∷ out) (ground arith)
      ]

pub decimal-StartsDigit : (n : ℕ) → StartsDigit (decimal n)
unfolding decimal digits
decimal-StartsDigit n =
    elim (n == 0)
      as (λ b.
        StartsDigit
          (if b then 48 ∷ [] else if b then [] else digits 9 (n / 10) ((48 + n % 10) ∷ []))) [
            | true ↦ refl
            | false ↦ digits-StartsDigit 9 (n / 10) ((48 + n % 10) ∷ []) (ground arith)
          ]

atoi-scan : (s : Bytes) → StartsDigit s → atoi s ≡ pos (scan s 0)
unfolding atoi
atoi-scan [] h = absurd h
atoi-scan (c ∷ s) h = ground arith

pub decimal_zero : (n : ℕ) → (n == 0) ≡ true → decimal n ≡ 48 ∷ []
unfolding decimal
decimal_zero n e = ap (λ b. if b then 48 ∷ [] else digits 10 n []) e

pub decimal-digits : (n : ℕ) → (n == 0) ≡ false → decimal n ≡ digits 10 n []
unfolding decimal
decimal-digits n e = ap (λ b. if b then 48 ∷ [] else digits 10 n []) e

-- `atoi` reads back what `%d` prints.
pub atoi-decimal : (n : ℕ) → n < limit 10 → atoi (decimal n) ≡ pos n
atoi-decimal n h = atoi-scan (decimal n) (decimal-StartsDigit n) ∙ ap pos (scan-decimal n h)
