-- ===== src/Decoder/NullWord/Scan.antt =====
-- `find_null_word` of cdc-wal-reader/src/decoder/relation.rs against the search byte by byte.
use cdc_connector.Prelude.{
  ℕ, zero, suc, ◌+◌, ◌-◌, ◌*◌, ◌/◌, ◌≤◌, ◌<◌, ◌≡◌, refl, ap, ◌∙◌, sym, arith, [], ◌∷◌, ◌++◌, Option,
  none, some, Bytes, length, take, drop, replicate, All, min, Outcome, ok, slice, leb, ltb, ltb→lt,
  ◌==◌, if◌then◌else◌, inl, inr, Bool-cases, length-take, length-drop, length-append,
  length-replicate, All-take,
}
use cdc_connector.Bytes.{IsByte}
use cdc_connector.Decoder.NullWord.{
  zero_mask, trailing_zeros, from_le_bytes, swar_mask, scan_words, find_null_word,
}
use cdc_connector.Decoder.NullWord.Reference.{first_null, shift}
use cdc_connector.Decoder.NullWord.Mask.{Marks, zero_mask-Marks, swar_mask-Marks}
use cdc_connector.Decoder.NullWord.Prefix.{
  first_null-skip, first_null-take, none-less, none-more, take-beyond, first_null-filled,
  shift-none, shift-some,
}

pub All-drop : (n : ℕ) (xs : Bytes) → All IsByte xs → All IsByte (drop n xs)
All-drop zero xs h = h
All-drop (suc n) [] h = h
All-drop (suc n) (x ∷ xs) h = All-drop n xs h.1

-- A mask that is tested: its place, or what the rest gives.
pub found_or_rest :
    {E : Type 0} (place mask : ℕ) (o r : Option ℕ) (rest : Outcome E (Option ℕ))
    → Marks place mask o
    → (o ≡ none → rest ≡ ok r)
    → ((k : ℕ) → o ≡ some k → r ≡ some k)
    → (if mask == 0 then rest else ok (some place)) ≡ ok r
found_or_rest place mask none r rest m on found = rw m (on refl)
found_or_rest place mask (some k) r rest m on found = rw (found k refl) (ground (arith, m.0, m.1))

-- A mask of eight bytes from place `p`.
pub Marks-shift :
    (p place mask : ℕ) (o : Option ℕ) → Marks place mask o → Marks (p + place) mask (shift p o)
Marks-shift p place mask none m = m
Marks-shift p place mask (some k) m = (m.0, ap (λ (n : ℕ). p + n) m.1)

-- The eight bytes of a round.
pub chunk-length : (xs : Bytes) (p : ℕ) → p + 8 ≤ length xs → length (take 8 (drop p xs)) ≡ 8
chunk-length xs p h = omega (arith, length-take 8 (drop p xs), length-drop p xs)

chunk-slice :
    {E : Type 0} (xs : Bytes) (b : ℕ)
    → 8 ≤ b
    → b ≤ length xs
    → slice {E = E} xs (b - 8) b ≡ ok (take 8 (drop (b - 8) xs))
chunk-slice xs b h g = let e : b - (b - 8) ≡ 8 = omega arith in rw e (ground arith)

take-min : (n : ℕ) (xs : Bytes) → take (min n (length xs)) xs ≡ take n xs
take-min zero xs = let e : min 0 (length xs) ≡ 0 = omega arith in rw e refl
take-min (suc n) [] = let e : min (suc n) 0 ≡ 0 = omega arith in rw e refl
take-min (suc n) (x ∷ xs) =
    let e : min (suc n) (suc (length xs)) ≡ suc (min n (length xs)) = omega arith in
    rw e (ap (λ (zs : Bytes). x ∷ zs) (take-min n xs))

-- What the next round starts from.
next-clean :
    (xs : Bytes) (i : ℕ)
    → 8 ≤ length xs
    → 8 ≤ i
    → first_null (take (min i (length xs) - 8 + 8) xs) ≡ none
    → first_null (take (i + 8 - 8) xs) ≡ none
next-clean xs i long low e =
    let to : min i (length xs) - 8 + 8 ≡ min i (length xs) = omega arith in
    let from : i + 8 - 8 ≡ i = omega arith in rw (from, ← take-min i xs) (rw to at e)

pub chunk-found :
    (xs : Bytes) (p : ℕ)
    → first_null (take p xs) ≡ none
    → p ≤ length xs
    → (k : ℕ) → shift p (first_null (take 8 (drop p xs))) ≡ some k
    → first_null xs ≡ some k
chunk-found xs p clean h k e =
    let (j, there, place) = shift-some p k (first_null (take 8 (drop p xs))) e in
    first_null-skip p xs clean h
    ∙ ap (shift p) (first_null-take 8 (drop p xs) j there)
    ∙ ap some (sym place)

module _ {E : Type 0} (xs : Bytes) (bytes : All IsByte xs) (long : 8 ≤ length xs) where
  -- No zero byte below `i - 8`: the loop finds the first one, or that there is none.
  scan_words-first_null :
      (fuel i : ℕ)
      → first_null (take (i - 8) xs) ≡ none
      → 8 ≤ i
      → length xs + 7 < fuel * 8 + i
      → scan_words {E = E} fuel xs i ≡ ok (first_null xs)
  unfolding scan_words
  scan_words-first_null zero i clean low enough = ground (arith, take-beyond (i - 8) xs)
  scan_words-first_null (suc fuel) i clean low enough = elim (Bool-cases (leb i (length xs + 7))) [
    | inr past ↦ ground (arith, take-beyond (i - 8) xs)
    | inl more ↦
        let b = min i (length xs) in
        let p = b - 8 in
        let chunk = take 8 (drop p xs) in
        let word = from_le_bytes chunk in
        let eight = chunk-length xs p (omega arith) in
        let found =
          swar_mask-Marks chunk (All-take IsByte 8 (drop p xs) (All-drop p xs bytes)) eight in
        let read = chunk-slice {E = E} xs b (omega arith) (omega arith) in
        let before = none-less p (i - 8) xs clean (omega arith) in
        let on = λ (e : shift p (first_null chunk) ≡ none).
          scan_words-first_null fuel (i + 8)
            (next-clean xs i long low (none-more p 8 xs before (shift-none p (first_null chunk) e)))
            (omega arith) (omega arith) in
        rw (more, read)
          (found_or_rest {E = E} (p + trailing_zeros 64 (swar_mask word) / 8) (swar_mask word)
            (shift p (first_null chunk)) (first_null xs) (scan_words fuel xs (i + 8))
            (Marks-shift p (trailing_zeros 64 (swar_mask word) / 8) (swar_mask word)
              (first_null chunk) found)
            on (chunk-found xs p before (omega arith)))
  ]

pub find_null_word-first_null :
    {E : Type 0} (xs : Bytes) → All IsByte xs → find_null_word {E = E} xs ≡ ok (first_null xs)
unfolding find_null_word
find_null_word-first_null {E} xs bytes = elim (Bool-cases (ltb (length xs) 16)) [
  | inl short ↦
      let filled = xs ++ replicate (16 - length xs) 0xff in
      let same = first_null-filled (16 - length xs) xs in
      let size : length filled ≤ 32 = omega (
        arith,
        ltb→lt (length xs) 16 short,
        length-append xs (replicate (16 - length xs) 0xff),
        length-replicate {A = ℕ} (16 - length xs) 0xff,
      ) in
      rw short (
        found_or_rest {E = E} (trailing_zeros 32 (zero_mask filled)) (zero_mask filled)
          (first_null filled) (first_null xs) (ok none) (zero_mask-Marks 32 filled size)
          (λ e. ap ok (sym e ∙ same)) (λ k e. sym same ∙ e))
  | inr long ↦
      let more : 16 ≤ length xs = ground arith in
      let size : length (take 16 xs) ≤ 32 = omega (arith, length-take 16 xs) in
      rw long (
        found_or_rest {E = E} (trailing_zeros 32 (zero_mask (take 16 xs))) (zero_mask (take 16 xs))
          (first_null (take 16 xs)) (first_null xs) (scan_words (length xs) xs 24)
          (zero_mask-Marks 32 (take 16 xs) size)
          (λ e.
            scan_words-first_null xs bytes (omega arith) (length xs) 24 e (omega arith)
              (omega arith))
          (first_null-take 16 xs))
]
