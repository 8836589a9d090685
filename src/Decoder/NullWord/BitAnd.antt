-- ===== src/Decoder/NullWord/BitAnd.antt =====
-- `bit_and` a byte at a time.
use Prim.Native.Nat.{digits, bit_and, bit_and-bitwise}
use cdc_connector.Prelude.{ℕ, zero, suc, ◌+◌, ◌*◌, ◌/◌, ◌%◌, ◌≤◌, ◌<◌, min, ◌≡◌, refl, ap₂, arith}

-- `bit_and` with a count of binary digits to go.
abbrev counted : ℕ → ℕ → ℕ → ℕ
counted n a b = digits (λ _. zero) min n a b

counted_nothing : (n b : ℕ) → counted n 0 b ≡ 0
counted_nothing zero b = refl
counted_nothing (suc n) b = refl

-- Two counts that are both large enough.
counted_enough : (a b n m : ℕ) → a ≤ n → a ≤ m → counted n a b ≡ counted m a b
counted_enough zero b n m h k = omega (arith, counted_nothing n b, counted_nothing m b)
counted_enough (suc a) b zero m h k = absurd (omega arith)
counted_enough (suc a) b (suc n) zero h k = absurd (omega arith)
counted_enough (suc a) b (suc n) (suc m) h k =
    omega (arith, counted_enough (suc a / 2) (b / 2) n m (omega arith) (omega arith))

pub bit_and-halves : (a b : ℕ) → bit_and a b ≡ min (a % 2) (b % 2) + 2 * bit_and (a / 2) (b / 2)
bit_and-halves zero b = omega (arith, bit_and-bitwise 0 b, bit_and-bitwise 0 (b / 2))
bit_and-halves (suc a) b =
    let half = suc a / 2 in
    omega (
      arith,
      bit_and-bitwise (suc a) b,
      bit_and-bitwise half (b / 2),
      counted_enough half (b / 2) a half (omega arith) (omega arith),
    )

-- Below `p`, and from there on.
abbrev Splits : ℕ → Type 0
Splits p =
    (x y a b : ℕ) → x < p → y < p → bit_and (x + p * a) (y + p * b) ≡ bit_and x y + p * bit_and a b

two-Splits : Splits 2
two-Splits x y a b hx hy =
    let ea : (x + 2 * a) / 2 ≡ a = omega arith in
    let eb : (y + 2 * b) / 2 ≡ b = omega arith in
    let ex : x / 2 ≡ 0 = omega arith in
    let ey : y / 2 ≡ 0 = omega arith in
    omega (
      arith,
      bit_and-halves (x + 2 * a) (y + 2 * b),
      bit_and-halves x y,
      bit_and-bitwise 0 0,
      ap₂ bit_and ea eb,
      ap₂ bit_and ex ey,
    )

twice-Splits : (p : ℕ) → Splits p → Splits (2 * p)
twice-Splits p s x y a b hx hy =
    let ea : x + 2 * p * a ≡ x % 2 + 2 * (x / 2 + p * a) = omega arith in
    let eb : y + 2 * p * b ≡ y % 2 + 2 * (y / 2 + p * b) = omega arith in
    let ex : x % 2 + 2 * (x / 2) ≡ x = omega arith in
    let ey : y % 2 + 2 * (y / 2) ≡ y = omega arith in
    omega (
      arith,
      ap₂ bit_and ea eb,
      ap₂ bit_and ex ey,
      two-Splits (x % 2) (y % 2) (x / 2 + p * a) (y / 2 + p * b) (omega arith) (omega arith),
      two-Splits (x % 2) (y % 2) (x / 2) (y / 2) (omega arith) (omega arith),
      s (x / 2) (y / 2) a b (omega arith) (omega arith),
    )

-- The lowest byte, and the rest.
pub bit_and-bytes : Splits 256
bit_and-bytes = twice-Splits 128 (
    twice-Splits 64 (
      twice-Splits 32
        (twice-Splits 16 (twice-Splits 8 (twice-Splits 4 (twice-Splits 2 two-Splits))))))
