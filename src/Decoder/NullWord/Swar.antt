-- ===== src/Decoder/NullWord/Swar.antt =====
-- The mask of a word, byte by byte from the lowest: `word - 0x01..01 & !word & 0x80..80` for words
-- of any number of bytes.
use Prim.Native.Nat.{bit_and}
use cdc_connector.Prelude.{
  ℕ, zero, suc, ◌+◌, ◌-◌, ◌*◌, ◌/◌, ◌%◌, ◌^◌, ◌≤◌, ◌<◌, ◌≡◌, refl, ap, ap₂, ◌∙◌, arith, Bool, true,
  ◌&&◌, leb, ltb, ◌==◌, if◌then◌else◌,
}
use cdc_connector.Decoder.NullWord.{swar_mask}
use cdc_connector.Decoder.NullWord.BitAnd.{bit_and-bytes}

-- 256 ^ n, 0x01..01 and 0x80..80 with n bytes.
abbrev pub power : ℕ → ℕ
power zero = 1
power (suc n) = 256 * power n

abbrev pub ones : ℕ → ℕ
ones zero = 0
ones (suc n) = 1 + 256 * ones n

abbrev highs : ℕ → ℕ
highs zero = 0
highs (suc n) = 128 + 256 * highs n

-- `wrapping_sub` of the ones.
abbrev borrowed : ℕ → ℕ → ℕ
borrowed n w = if leb (ones n) w then w - ones n else w + power n - ones n

unfoldable pub masked : ℕ → ℕ → ℕ
masked n w = bit_and (bit_and (borrowed n w) (power n - 1 - w)) (highs n)

ones-power : (n : ℕ) → 255 * ones n + 1 ≡ power n
ones-power zero = refl
ones-power (suc n) = omega (arith, ones-power n)

pub masked_eight : (w : ℕ) → w < 2 ^ 64 → swar_mask w ≡ masked 8 w
unfolding swar_mask masked
masked_eight w h = ground arith

-- A byte that is not zero: no bit of the mask is set.
abbrev clear : ℕ → Bool
clear b = let x = bit_and (b - 1) (255 - b) in ltb x 256 && bit_and x 128 == 0

abbrev clear_below : ℕ → Bool
clear_below zero = true
clear_below (suc n) = clear (suc n) && clear_below n

clear_all : (n b : ℕ) → clear_below n ≡ true → 1 ≤ b → b ≤ n → clear b ≡ true
clear_all zero b h k l = absurd (omega arith)
clear_all (suc n) b h k l = ground (arith, clear_all n b)

masked-clear :
    (b : ℕ)
    → 1 ≤ b
    → b < 256
    → (bit_and (b - 1) (255 - b) < 256) × (bit_and (bit_and (b - 1) (255 - b)) 128 ≡ 0)
masked-clear b h k = ground (arith, clear_all 255 b refl h (omega arith))

module _ (n w : ℕ) (small : w < power n) where
  -- Behind a byte that is not zero the mask is that of the bytes above it.
  pub masked-nonzero : (b : ℕ) → 1 ≤ b → b < 256 → masked (suc n) (b + 256 * w) ≡ 256 * masked n w
  unfolding masked
  masked-nonzero b h k =
      let (low, none_set) = masked-clear b h k in
      let minus : borrowed (suc n) (b + 256 * w) ≡ b - 1 + 256 * borrowed n w =
        ground (arith, ones-power n) in
      let rest : power (suc n) - 1 - (b + 256 * w) ≡ 255 - b + 256 * (power n - 1 - w) =
        omega arith in
      let both =
        ap₂ bit_and minus rest
        ∙ bit_and-bytes (b - 1) (255 - b) (borrowed n w) (power n - 1 - w) (omega arith)
            (omega arith) in
      omega (
        arith,
        none_set,
        ap (λ x. bit_and x (highs (suc n))) both,
        bit_and-bytes (bit_and (b - 1) (255 - b)) 128 (bit_and (borrowed n w) (power n - 1 - w))
            (highs n) low (omega arith),
      )

  -- The highest bit of the mask of a zero byte is set, and no other bit of that byte.
  pub masked-zero : masked (suc n) (256 * w) % 256 ≡ 128
  unfolding masked
  masked-zero =
      let above = borrowed (suc n) (256 * w) / 256 in
      let minus : borrowed (suc n) (256 * w) ≡ 255 + 256 * above = ground (arith, ones-power n) in
      let rest : power (suc n) - 1 - 256 * w ≡ 255 + 256 * (power n - 1 - w) = omega arith in
      let both =
        ap₂ bit_and minus rest
        ∙ bit_and-bytes 255 255 above (power n - 1 - w) (omega arith) (omega arith) in
      omega (
        arith,
        ap (λ x. bit_and x (highs (suc n))) both,
        bit_and-bytes 255 128 (bit_and above (power n - 1 - w)) (highs n) (omega arith)
            (omega arith),
      )
