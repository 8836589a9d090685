-- ===== src/Decoder/NullWord/Mask.antt =====
-- What the lowest bit that is set says of the bytes, in a mask of one bit a byte and in the mask of
-- a word.
use cdc_connector.Prelude.{
  ℕ, zero, suc, ◌+◌, ◌*◌, ◌/◌, ◌%◌, ◌≤◌, ◌<◌, ◌≡◌, ◌≢◌, refl, ap, ◌∙◌, arith, false, [], ◌∷◌,
  Option, none, some, Bytes, length, All, ◌==◌,
}
use cdc_connector.Bytes.{IsByte}
use cdc_connector.Decoder.NullWord.{zero_mask, trailing_zeros, from_le_bytes, swar_mask}
use cdc_connector.Decoder.NullWord.Reference.{first_null, shift}
use cdc_connector.Decoder.NullWord.Swar.{power, masked, masked_eight, masked-nonzero, masked-zero}

-- The mask has a bit exactly if there is a zero byte, and the lowest bit tells where.
abbrev pub Marks : ℕ → ℕ → Option ℕ → Type 0
Marks place mask none = mask ≡ 0
Marks place mask (some k) = (mask ≢ 0) × (place ≡ k)

-- One byte further up.
Marks-shift :
    (place place' mask mask' : ℕ) (o : Option ℕ)
    → place' ≡ suc place
    → (mask ≡ 0 → mask' ≡ 0)
    → (mask' ≡ 0 → mask ≡ 0)
    → Marks place mask o
    → Marks place' mask' (shift 1 o)
Marks-shift place place' mask mask' none e up down h = up h
Marks-shift place place' mask mask' (some k) e up down (ne, h) = ((λ z. ne (down z)), omega arith)

trailing_zeros-even : (bits m : ℕ) → trailing_zeros (suc bits) (2 * m) ≡ suc (trailing_zeros bits m)
unfolding trailing_zeros
trailing_zeros-even bits m =
    let half : 2 * m / 2 ≡ m = omega arith in ground (arith, ap (trailing_zeros bits) half)

trailing_zeros-odd : (bits m : ℕ) → trailing_zeros (suc bits) (1 + 2 * m) ≡ 0
unfolding trailing_zeros
trailing_zeros-odd bits m = ground arith

pub zero_mask-Marks :
    (bits : ℕ) (bs : Bytes)
    → length bs ≤ bits
    → Marks (trailing_zeros bits (zero_mask bs)) (zero_mask bs) (first_null bs)
unfolding zero_mask first_null
zero_mask-Marks bits [] h = refl
zero_mask-Marks zero (b ∷ bs) h = absurd (omega arith)
zero_mask-Marks (suc bits) (zero ∷ bs) h =
    ((λ z. omega arith), trailing_zeros-odd bits (zero_mask bs))
zero_mask-Marks (suc bits) (suc b ∷ bs) h =
    let e : 0 + 2 * zero_mask bs ≡ 2 * zero_mask bs = omega arith in
    let other : (suc b == 0) ≡ false = ground arith in
    rw other (
      Marks-shift _ _ (zero_mask bs) _ (first_null bs)
        (ap (trailing_zeros (suc bits)) e ∙ trailing_zeros-even bits (zero_mask bs))
        (λ z. omega arith) (λ z. omega arith) (zero_mask-Marks bits bs (omega arith)))

-- Eight bits more.
abbrev byte_more : ℕ → ℕ
byte_more bits = suc (suc (suc (suc (suc (suc (suc (suc bits)))))))

trailing_zeros-seven :
    (bits m : ℕ) → trailing_zeros (byte_more bits) (128 * m) ≡ 7 + trailing_zeros (suc bits) m
trailing_zeros-seven bits m =
    let e : 128 * m ≡ 2 * (2 * (2 * (2 * (2 * (2 * (2 * m)))))) = omega arith in
    ap (trailing_zeros (byte_more bits)) e
    ∙ omega (
      arith,
      trailing_zeros-even (suc bits) m,
      trailing_zeros-even (suc (suc bits)) (2 * m),
      trailing_zeros-even (suc (suc (suc bits))) (2 * (2 * m)),
      trailing_zeros-even (suc (suc (suc (suc bits)))) (2 * (2 * (2 * m))),
      trailing_zeros-even (suc (suc (suc (suc (suc bits))))) (2 * (2 * (2 * (2 * m)))),
      trailing_zeros-even (suc (suc (suc (suc (suc (suc bits)))))) (2 * (2 * (2 * (2 * (2 * m))))),
      trailing_zeros-even (suc (suc (suc (suc (suc (suc (suc bits)))))))
          (2 * (2 * (2 * (2 * (2 * (2 * m)))))),
    )

trailing_zeros_byte :
    (bits m : ℕ) → trailing_zeros (byte_more bits) (256 * m) ≡ 8 + trailing_zeros bits m
trailing_zeros_byte bits m =
    let e : 256 * m ≡ 128 * (2 * m) = omega arith in
    omega (
      arith,
      ap (trailing_zeros (byte_more bits)) e,
      trailing_zeros-seven bits (2 * m),
      trailing_zeros-even bits m,
    )

trailing_zeros-high : (bits m : ℕ) → m % 256 ≡ 128 → trailing_zeros (byte_more bits) m ≡ 7
trailing_zeros-high bits m h =
    let e : m ≡ 128 * (1 + 2 * (m / 256)) = omega arith in
    omega (
      arith,
      ap (trailing_zeros (byte_more bits)) e,
      trailing_zeros-seven bits (1 + 2 * (m / 256)),
      trailing_zeros-odd bits (m / 256),
    )

from_le_bytes-lt : (bs : Bytes) → All IsByte bs → from_le_bytes bs < power (length bs)
unfolding from_le_bytes
from_le_bytes-lt [] h = omega arith
from_le_bytes-lt (b ∷ bs) h = omega (arith, h.0, from_le_bytes-lt bs h.1)

-- Bits of so many bytes.
abbrev bits_of : ℕ → ℕ
bits_of zero = 0
bits_of (suc n) = byte_more (bits_of n)

masked-Marks :
    (bs : Bytes)
    → All IsByte bs
    → Marks
        (trailing_zeros (bits_of (length bs)) (masked (length bs) (from_le_bytes bs)) / 8)
        (masked (length bs) (from_le_bytes bs))
        (first_null bs)
unfolding first_null from_le_bytes
masked-Marks [] h = unfold masked in refl
masked-Marks (zero ∷ bs) h =
    let n = length bs in
    let w = from_le_bytes bs in
    let e : 0 + 256 * w ≡ 256 * w = omega arith in
    let set : masked (suc n) (0 + 256 * w) % 256 ≡ 128 =
      omega (arith, ap (masked (suc n)) e, masked-zero n w (from_le_bytes-lt bs h.1)) in
    (
      (λ z. omega arith),
      omega (arith, trailing_zeros-high (bits_of n) (masked (suc n) (0 + 256 * w)) set),
    )
masked-Marks (suc b ∷ bs) h =
    let n = length bs in
    let w = from_le_bytes bs in
    let e = masked-nonzero n w (from_le_bytes-lt bs h.1) (suc b) (omega arith) h.0 in
    let other : (suc b == 0) ≡ false = ground arith in
    rw other (
      Marks-shift _ _ (masked n w) _ (first_null bs)
        (omega (
          arith,
          ap (trailing_zeros (byte_more (bits_of n))) e,
          trailing_zeros_byte (bits_of n) (masked n w),
        ))
        (λ z. omega arith) (λ z. omega arith) (masked-Marks bs h.1))

-- The mask of a word of eight bytes.
pub swar_mask-Marks :
    (bs : Bytes)
    → All IsByte bs
    → length bs ≡ 8
    → Marks
        (trailing_zeros 64 (swar_mask (from_le_bytes bs)) / 8)
        (swar_mask (from_le_bytes bs))
        (first_null bs)
swar_mask-Marks bs h e =
    let small = rw e at (from_le_bytes-lt bs h) in
    rw (masked_eight (from_le_bytes bs) small) (rw e at (masked-Marks bs h))
