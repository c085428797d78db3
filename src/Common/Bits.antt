-- ===== src/Common/Bits.antt =====
-- Flag words: `m` is a power of two.
use Prim.Native.Nat.{ℕ, zero, suc, ◌+◌, ◌-◌, ◌/◌, ◌%◌, ◌<◌, bit_and, bit_or}
use mathlib.Core.Path.{◌≡◌, refl}
use mathlib.Core.Bool.{Bool, true, ◌&&◌}
use netcwmp.Common.Tests.{◌==◌, if◌then◌else◌, ==_iff, Bool-cases}
use native.Mathlib.Omega.{arith}
use mathlib.Core.Logic.{inl, inr}

-- `(f & m) != 0`
abbrev pub has_flag : ℕ → ℕ → Bool
has_flag f m = (f / m) % 2 == 1

-- `f | m`
abbrev pub add_flag : ℕ → ℕ → ℕ
add_flag f m = if has_flag f m then f else f + m

-- `f & ~m`
abbrev pub drop_flag : ℕ → ℕ → ℕ
drop_flag f m = if has_flag f m then f - m else f

unfoldable pub all_below : ℕ → (ℕ → Bool) → Bool
all_below zero p = true
all_below (suc n) p = p n && all_below n p

and_cases : (a b : Bool) → (a && b) ≡ true → (a ≡ true) × (b ≡ true)
and_cases a b h = ground arith

-- A test that holds below `n` holds at each number there.
pub all_below_at : (n k : ℕ) (p : ℕ → Bool) → all_below n p ≡ true → k < n → p k ≡ true
unfolding all_below
all_below_at zero k p h l = elim l [ ]
all_below_at (suc n) k p h l = elim (Bool-cases (k == n)) [
  | inl e ↦ rw ((==_iff k n).0 e) (and_cases (p n) (all_below n p) h).0
  | inr e ↦ all_below_at n k p (and_cases (p n) (all_below n p) h).1 (ground arith)
]

-- The three agree with the bit operations on a byte, at the masks of the program.
bit_or_table :
    all_below 256
      (λ f. add_flag f 1 == bit_or f 1 && add_flag f 2 == bit_or f 2 && add_flag f 4 == bit_or f 4)
    ≡ true
unfolding all_below
bit_or_table = refl

bit_and_table :
    all_below 256 (λ f.
      drop_flag f 4 == bit_and f 251
      && (if has_flag f 4 then 4 else 0) == bit_and f 4
      && (if has_flag f 2 then 2 else 0) == bit_and f 2
      && (if has_flag f 1 then 1 else 0) == bit_and f 1)
    ≡ true
unfolding all_below
bit_and_table = refl
