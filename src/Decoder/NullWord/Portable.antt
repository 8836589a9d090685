-- ===== src/Decoder/NullWord/Portable.antt =====
-- `find_null_word` of cdc-wal-reader/src/decoder/relation.rs, the path for other targets, with
-- little-endian words, against the search byte by byte.
use cdc_connector.Prelude.{
  ℕ, zero, suc, ◌+◌, ◌-◌, ◌*◌, ◌/◌, ◌≤◌, ◌<◌, ◌≡◌, refl, arith, Option, none, some, Bytes, length,
  take, drop, All, Outcome, ok, panic, ◌>>=◌, slice, slice_from, leb, ◌==◌, if◌then◌else◌, inl, inr,
  Bool-cases, All-take, le→leb,
}
use cdc_connector.Bytes.{IsByte}
use cdc_connector.Decoder.NullWord.{find_null_word, trailing_zeros, from_le_bytes, swar_mask}
use cdc_connector.Decoder.NullWord.Reference.{first_null, shift}
use cdc_connector.Decoder.NullWord.Mask.{swar_mask-Marks}
use cdc_connector.Decoder.NullWord.Prefix.{first_null-skip, none-more, shift-none}
use cdc_connector.Decoder.NullWord.Scan.{
  find_null_word-first_null, All-drop, Marks-shift, found_or_rest, chunk-length, chunk-found,
}

-- The loop `while i + 8 <= len`, then the tail: `position(|&b| b == 0)` is `first_null`. A loop out
-- of fuel would be a `panic` here.
unfoldable pub scan_portable : {E : Type 0} → ℕ → Bytes → ℕ → Outcome E (Option ℕ)
unfolding swar_mask trailing_zeros from_le_bytes
scan_portable zero xs i = panic
scan_portable (suc fuel) xs i =
    let rest = scan_portable fuel xs (i + 8) in
    if leb (i + 8) (length xs)
    then (do
      chunk ← slice xs i (i + 8)
      let mask = swar_mask (from_le_bytes chunk)
      if mask == 0 then rest else ok (some (i + trailing_zeros 64 mask / 8)))
    else (do tail ← slice_from xs i; ok (shift i (first_null tail)))

unfoldable pub find_null_word_portable : {E : Type 0} → Bytes → Outcome E (Option ℕ)
unfolding scan_portable
find_null_word_portable xs = scan_portable (suc (length xs)) xs 0

slice-eight :
    {E : Type 0} (xs : Bytes) (i : ℕ)
    → i + 8 ≤ length xs
    → slice {E = E} xs i (i + 8) ≡ ok (take 8 (drop i xs))
slice-eight xs i h = let e : i + 8 - i ≡ 8 = omega arith in rw e (ground arith)

module _ {E : Type 0} (xs : Bytes) (bytes : All IsByte xs) where
  scan_portable-first_null :
      (fuel i : ℕ)
      → first_null (take i xs) ≡ none
      → i ≤ length xs
      → length xs < fuel * 8 + i
      → scan_portable {E = E} fuel xs i ≡ ok (first_null xs)
  unfolding scan_portable
  scan_portable-first_null zero i clean low enough = absurd (omega arith)
  scan_portable-first_null (suc fuel) i clean low enough =
      elim (Bool-cases (leb (i + 8) (length xs))) [
        | inr past ↦ rw (past, le→leb i (length xs) low, ← first_null-skip i xs clean low) refl
        | inl more ↦
            let room : i + 8 ≤ length xs = ground arith in
            let chunk = take 8 (drop i xs) in
            let word = from_le_bytes chunk in
            let found =
              swar_mask-Marks chunk (All-take IsByte 8 (drop i xs) (All-drop i xs bytes))
                (chunk-length xs i room) in
            let on = λ (e : shift i (first_null chunk) ≡ none).
              scan_portable-first_null fuel (i + 8)
                (none-more i 8 xs clean (shift-none i (first_null chunk) e)) room (omega arith) in
            rw (slice-eight {E = E} xs i room, more)
              (found_or_rest {E = E} (i + trailing_zeros 64 (swar_mask word) / 8) (swar_mask word)
                (shift i (first_null chunk)) (first_null xs) (scan_portable fuel xs (i + 8))
                (Marks-shift i (trailing_zeros 64 (swar_mask word) / 8) (swar_mask word)
                  (first_null chunk) found)
                on (chunk-found xs i clean low))
      ]

  find_null_word_portable-first_null : find_null_word_portable {E = E} xs ≡ ok (first_null xs)
  unfolding find_null_word_portable first_null
  find_null_word_portable-first_null =
      scan_portable-first_null (suc (length xs)) 0 refl (omega arith) (omega arith)

-- On bytes, both paths of `find_null_word` end without a panic and agree: they give the position of
-- the first zero byte, or `None` where there is none.
pub find_null_word-paths :
    {E : Type 0} (xs : Bytes)
    → All IsByte xs
    → (find_null_word {E = E} xs ≡ ok (first_null xs))
      × (find_null_word_portable {E = E} xs ≡ ok (first_null xs))
find_null_word-paths xs bytes =
    (find_null_word-first_null xs bytes, find_null_word_portable-first_null xs bytes)
