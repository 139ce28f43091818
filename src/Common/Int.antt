-- ===== src/Common/Int.antt =====
-- C integers as signed numbers over the native ones: sums, the division that rounds towards zero,
-- `abs`, and the conversion to `int16_t`.
use Prim.Native.Nat.{ℕ, suc, ◌+◌, ◌-◌, ◌*◌, ◌/◌, ◌%◌, ◌≤◌}
use mathlib.Core.Path.{◌≡◌, refl}
use native.Mathlib.Omega.{arith}
use live_streamer.Common.Tests.{leb, if◌then◌else◌}

-- `negsuc n` is -(n + 1).
pub data ℤ : Type 0 where
  pos : ℕ → ℤ
  negsuc : ℕ → ℤ

abbrev pub pos_part : ℤ → ℕ
pos_part (pos n) = n
pos_part (negsuc n) = 0

abbrev pub neg_part : ℤ → ℕ
neg_part (pos n) = 0
neg_part (negsuc n) = suc n

-- a - b, as an integer.
abbrev pub sub_ℕ : ℕ → ℕ → ℤ
sub_ℕ a b = if leb b a then pos (a - b) else negsuc (b - a - 1)

infixl 65 ◌+ℤ◌ ◌-ℤ◌
unfoldable pub ◌+ℤ◌ : ℤ → ℤ → ℤ
a +ℤ b = sub_ℕ (pos_part a + pos_part b) (neg_part a + neg_part b)

unfoldable pub ◌-ℤ◌ : ℤ → ℤ → ℤ
a -ℤ b = sub_ℕ (pos_part a + neg_part b) (neg_part a + pos_part b)

abbrev pub neg_ℤ : ℤ → ℤ
neg_ℤ a = pos 0 -ℤ a

-- `abs(a)`
abbrev pub abs : ℤ → ℕ
abs a = pos_part a + neg_part a

-- `a / d` for a positive `d`: C rounds towards zero.
unfoldable pub div_ℤ : ℤ → ℕ → ℤ
div_ℤ (pos n) d = pos (n / d)
div_ℤ (negsuc n) d = sub_ℕ 0 (suc n / d)

-- `(int16_t) a`: modulo 2 ^ 16, between -32768 and 32767.
unfoldable pub int16 : ℤ → ℤ
int16 (pos n) = sub_ℕ ((n + 32768) % 65536) 32768
int16 (negsuc n) = sub_ℕ ((65536 - (n + 32769) % 65536) % 65536) 32768

-- The values of an `int16_t`.
abbrev pub IsInt16 : ℤ → Type 0
IsInt16 a = (pos_part a ≤ 32767) × (neg_part a ≤ 32768)

pub +ℤ_parts :
    (a b : ℤ)
    → pos_part (a +ℤ b) + neg_part a + neg_part b ≡ neg_part (a +ℤ b) + pos_part a + pos_part b
unfolding ◌+ℤ◌
+ℤ_parts a b = ground arith

pub -ℤ_parts :
    (a b : ℤ)
    → pos_part (a -ℤ b) + neg_part a + pos_part b ≡ neg_part (a -ℤ b) + pos_part a + neg_part b
unfolding ◌-ℤ◌
-ℤ_parts a b = ground arith

pub eq_of_parts : (a b : ℤ) → pos_part a + neg_part b ≡ pos_part b + neg_part a → a ≡ b
eq_of_parts a b h = ground arith

-- One part of an integer is zero.
pub part_zero : (a : ℤ) → pos_part a * neg_part a ≡ 0
part_zero (pos n) = omega arith
part_zero (negsuc n) = omega arith

pub ruleset int_laws = (arith, +ℤ_parts, -ℤ_parts, eq_of_parts)

pub +ℤ_assoc : (a b c : ℤ) → a +ℤ b +ℤ c ≡ a +ℤ (b +ℤ c)
+ℤ_assoc a b c = omega int_laws

pub zero-add : (a : ℤ) → pos 0 +ℤ a ≡ a
zero-add a = omega int_laws

pub add-zero : (a : ℤ) → a +ℤ pos 0 ≡ a
add-zero a = omega int_laws

-- Division by eight, by parts.
pub div_ℤ_eight :
    (a : ℤ) → (pos_part (div_ℤ a 8) ≡ pos_part a / 8) × (neg_part (div_ℤ a 8) ≡ neg_part a / 8)
unfolding div_ℤ
div_ℤ_eight (pos n) = (refl, omega arith)
div_ℤ_eight (negsuc n) = ground arith

pub int16_self : (a : ℤ) → IsInt16 a → int16 a ≡ a
unfolding int16
int16_self (pos n) h = ground arith
int16_self (negsuc n) h = ground arith
