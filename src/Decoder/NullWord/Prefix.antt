-- ===== src/Decoder/NullWord/Prefix.antt =====
-- The first zero byte, looked for in a prefix first.
use cdc_connector.Prelude.{
  ℕ, zero, suc, ◌+◌, ◌≤◌, ◌≡◌, refl, ap, ◌∙◌, sym, arith, false, [], ◌∷◌, ◌++◌, Option, none, some,
  Bytes, length, take, drop, replicate, ◌==◌,
}
use cdc_connector.Decoder.NullWord.Reference.{first_null, shift}

-- Behind a byte that is not zero.
first_null-suc : (b : ℕ) (xs : Bytes) → first_null (suc b ∷ xs) ≡ shift 1 (first_null xs)
unfolding first_null
first_null-suc b xs = let other : (suc b == 0) ≡ false = ground arith in rw other refl

pub shift-none : (n : ℕ) (o : Option ℕ) → shift n o ≡ none → o ≡ none
shift-none n none h = refl
shift-none n (some k) h = cc

pub shift-some :
    (n k : ℕ) (o : Option ℕ) → shift n o ≡ some k → (j : ℕ) × (o ≡ some j) × (k ≡ n + j)
shift-some n k none h = cc
shift-some n k (some j) h = (j, refl, cc)

shift-zero : (o : Option ℕ) → shift 0 o ≡ o
shift-zero none = refl
shift-zero (some k) = ap some (omega arith)

shift-suc : (n : ℕ) (o : Option ℕ) → shift 1 (shift n o) ≡ shift (suc n) o
shift-suc n none = refl
shift-suc n (some k) = ap some (omega arith)

-- No zero byte behind the head, nor is it one.
none-tail : (b : ℕ) (xs : Bytes) → first_null (suc b ∷ xs) ≡ none → first_null xs ≡ none
none-tail b xs h = shift-none 1 (first_null xs) (sym (first_null-suc b xs) ∙ h)

none-cons : (b : ℕ) (xs : Bytes) → first_null xs ≡ none → first_null (suc b ∷ xs) ≡ none
none-cons b xs h = first_null-suc b xs ∙ ap (shift 1) h

-- Behind a prefix with no zero byte.
pub first_null-skip :
    (n : ℕ) (xs : Bytes)
    → first_null (take n xs) ≡ none
    → n ≤ length xs
    → first_null xs ≡ shift n (first_null (drop n xs))
first_null-skip zero xs h p = sym (shift-zero (first_null xs))
first_null-skip (suc n) [] h p = absurd (omega arith)
first_null-skip (suc n) (zero ∷ xs) h p = unfold first_null in cc
first_null-skip (suc n) (suc b ∷ xs) h p =
    first_null-suc b xs
    ∙ ap (shift 1) (first_null-skip n xs (none-tail b (take n xs) h) (omega arith))
    ∙ shift-suc n (first_null (drop n xs))

-- A zero byte of a prefix is that of the whole.
pub first_null-take :
    (n : ℕ) (xs : Bytes) (k : ℕ) → first_null (take n xs) ≡ some k → first_null xs ≡ some k
unfolding first_null
first_null-take zero xs k h = cc
first_null-take (suc n) [] k h = cc
first_null-take (suc n) (zero ∷ xs) k h = h
first_null-take (suc n) (suc b ∷ xs) k h =
    let (j, e, p) =
      shift-some 1 k (first_null (take n xs)) (sym (first_null-suc b (take n xs)) ∙ h) in
    first_null-suc b xs ∙ ap (shift 1) (first_null-take n xs j e) ∙ ap some (sym p)

-- A shorter prefix has no zero byte either.
pub none-less :
    (m n : ℕ) (xs : Bytes) → first_null (take n xs) ≡ none → m ≤ n → first_null (take m xs) ≡ none
unfolding first_null
none-less zero n xs h p = refl
none-less (suc m) n [] h p = refl
none-less (suc m) zero (b ∷ xs) h p = absurd (omega arith)
none-less (suc m) (suc n) (zero ∷ xs) h p = h
none-less (suc m) (suc n) (suc b ∷ xs) h p =
    none-cons b (take m xs) (none-less m n xs (none-tail b (take n xs) h) (omega arith))

-- A prefix and what comes next.
pub none-more :
    (m n : ℕ) (xs : Bytes)
    → first_null (take m xs) ≡ none
    → first_null (take n (drop m xs)) ≡ none
    → first_null (take (m + n) xs) ≡ none
unfolding first_null
none-more zero n xs h g = let e : zero + n ≡ n = omega arith in rw e g
none-more (suc m) n [] h g = let e : suc m + n ≡ suc (m + n) = omega arith in rw e refl
none-more (suc m) n (zero ∷ xs) h g = cc
none-more (suc m) n (suc b ∷ xs) h g =
    let e : suc m + n ≡ suc (m + n) = omega arith in
    rw e (none-cons b (take (m + n) xs) (none-more m n xs (none-tail b (take m xs) h) g))

pub take-beyond : (n : ℕ) (xs : Bytes) → length xs ≤ n → take n xs ≡ xs
take-beyond zero [] h = refl
take-beyond zero (b ∷ xs) h = absurd (omega arith)
take-beyond (suc n) [] h = refl
take-beyond (suc n) (b ∷ xs) h = ap (λ (zs : Bytes). b ∷ zs) (take-beyond n xs (omega arith))

-- Bytes 0xFF behind change nothing.
first_null-fill : (n : ℕ) → first_null (replicate n 0xff) ≡ none
first_null-fill zero = unfold first_null in refl
first_null-fill (suc n) = none-cons 254 (replicate n 0xff) (first_null-fill n)

pub first_null-filled : (n : ℕ) (xs : Bytes) → first_null (xs ++ replicate n 0xff) ≡ first_null xs
unfolding first_null
first_null-filled n [] = first_null-fill n
first_null-filled n (zero ∷ xs) = refl
first_null-filled n (suc b ∷ xs) =
    first_null-suc b (xs ++ replicate n 0xff)
    ∙ ap (shift 1) (first_null-filled n xs)
    ∙ sym (first_null-suc b xs)

-- The place is one of the bytes.
pub first_null-lt : (xs : Bytes) (k : ℕ) → first_null xs ≡ some k → suc k ≤ length xs
unfolding first_null
first_null-lt [] k h = cc
first_null-lt (zero ∷ xs) k h = let e : 0 ≡ k = cc in omega arith
first_null-lt (suc b ∷ xs) k h =
    let (j, e, p) = shift-some 1 k (first_null xs) (sym (first_null-suc b xs) ∙ h) in
    omega (arith, first_null-lt xs j e)

-- A string without a zero byte, ended by one.
pub first_null-ended :
    (s rest : Bytes) → first_null s ≡ none → first_null (s ++ 0 ∷ rest) ≡ some (length s)
unfolding first_null
first_null-ended [] rest h = refl
first_null-ended (zero ∷ s) rest h = cc
first_null-ended (suc b ∷ s) rest h =
    first_null-suc b (s ++ 0 ∷ rest)
    ∙ ap (shift 1) (first_null-ended s rest (none-tail b s h))
    ∙ ap some (omega arith)
