-- ===== src/Prelude/Int.antt =====
-- Signed integers over the native numbers: the values of `i32` and `i64`.
use Prim.Native.Nat.{ℕ, suc, ◌+◌, ◌-◌, ◌<◌}
use mathlib.Core.Path.{◌≡◌}
use native.Mathlib.Omega.{arith}
use cdc_connector.Prelude.Tests.{ltb, leb, if◌then◌else◌}

-- `negsuc n` is -(n + 1).
pub data ℤ : Type 0 where
  pos : ℕ → ℤ
  negsuc : ℕ → ℤ

abbrev pub pos_part : ℤ → ℕ
pos_part (pos n) = n
pos_part (negsuc n) = 0

abbrev pub neg_part : ℤ → ℕ
neg_part (pos n) = 0
neg_part (negsuc n) = suc n

abbrev pub sub_ℕ : ℕ → ℕ → ℤ
sub_ℕ a b = if leb b a then pos (a - b) else negsuc (b - a - 1)

infixl 65 ◌+ℤ◌
abbrev pub ◌+ℤ◌ : ℤ → ℤ → ℤ
a +ℤ b = sub_ℕ (pos_part a + pos_part b) (neg_part a + neg_part b)

-- The values of a signed integer with `half` non-negative values: -half .. half - 1.
abbrev pub Fits : ℕ → ℤ → Type 0
Fits half (pos n) = n < half
Fits half (negsuc n) = n < half

-- The integer that a bit pattern below 2 * half stands for (two's complement), and back.
abbrev pub to_signed : ℕ → ℕ → ℤ
to_signed half w = if ltb w half then pos w else negsuc (half + half - w - 1)

abbrev pub of_signed : ℕ → ℤ → ℕ
of_signed half (pos n) = n
of_signed half (negsuc n) = half + half - n - 1

pub to_signed-of_signed : (half : ℕ) (z : ℤ) → Fits half z → to_signed half (of_signed half z) ≡ z
to_signed-of_signed half (pos n) h = ground arith
to_signed-of_signed half (negsuc n) h = ground arith

pub of_signed-lt : (half : ℕ) (z : ℤ) → Fits half z → of_signed half z < half + half
of_signed-lt half (pos n) h = omega arith
of_signed-lt half (negsuc n) h = omega arith
