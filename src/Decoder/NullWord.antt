-- ===== src/Decoder/NullWord.antt =====
-- `find_null_word` of cdc-wal-reader/src/decoder/relation.rs, the path for x86_64.
pub mod Reference
mod BitAnd
mod Swar
mod Mask
pub mod Prefix
pub mod Scan
pub mod Portable
use Prim.Native.Nat.{bit_and}
use cdc_connector.Prelude.{
  ℕ, zero, suc, ◌+◌, ◌-◌, ◌*◌, ◌/◌, ◌%◌, ◌^◌, min, [], ◌∷◌, ◌++◌, Option, none, some, Bytes, length,
  take, replicate, Outcome, ok, panic, ◌>>=◌, slice, ltb, leb, ◌==◌, if◌then◌else◌,
}

-- `_mm_movemask_epi8(_mm_cmpeq_epi8(chunk, zeros))`: bit i is set where byte i is 0.
unfoldable pub zero_mask : Bytes → ℕ
zero_mask [] = 0
zero_mask (b ∷ bs) = (if b == 0 then 1 else 0) + 2 * zero_mask bs

-- `trailing_zeros` of a word of the given number of bits.
unfoldable pub trailing_zeros : ℕ → ℕ → ℕ
trailing_zeros zero m = 0
trailing_zeros (suc bits) m =
    let rest = trailing_zeros bits (m / 2) in if m % 2 == 1 then 0 else suc rest

-- `u64::from_ne_bytes` on x86_64: the first byte is the lowest.
unfoldable pub from_le_bytes : Bytes → ℕ
from_le_bytes [] = 0
from_le_bytes (b ∷ bs) = b + 256 * from_le_bytes bs

-- `word.wrapping_sub(0x0101010101010101) & !word & 0x8080808080808080`
unfoldable pub swar_mask : ℕ → ℕ
swar_mask word =
    bit_and (bit_and ((word + 2 ^ 64 - 0x0101010101010101) % 2 ^ 64) (2 ^ 64 - 1 - word))
      0x8080808080808080

-- The loop `while i <= len + 7`. Each round adds 8 to `i`, so that fuel for `len` rounds is more
-- than enough; a loop out of fuel would be a `panic` here.
unfoldable pub scan_words : {E : Type 0} → ℕ → Bytes → ℕ → Outcome E (Option ℕ)
unfolding swar_mask trailing_zeros from_le_bytes
scan_words zero xs i = if leb i (length xs + 7) then panic else ok none
scan_words (suc fuel) xs i =
    let rest = scan_words fuel xs (i + 8) in
    let boundary = min i (length xs) in
    if leb i (length xs + 7)
    then (do
      chunk ← slice xs (boundary - 8) boundary
      let mask = swar_mask (from_le_bytes chunk)
      if mask == 0 then rest else ok (some (boundary - 8 + trailing_zeros 64 mask / 8)))
    else ok none

-- Below 16 bytes the buffer is filled up with 0xFF.
unfoldable pub find_null_word : {E : Type 0} → Bytes → Outcome E (Option ℕ)
unfolding scan_words zero_mask trailing_zeros
find_null_word xs =
    if ltb (length xs) 16
    then (let mask = zero_mask (xs ++ replicate (16 - length xs) 0xff) in
        if mask == 0 then ok none else ok (some (trailing_zeros 32 mask)))
    else (let mask = zero_mask (take 16 xs) in
        if mask == 0 then scan_words (length xs) xs 24 else ok (some (trailing_zeros 32 mask)))
