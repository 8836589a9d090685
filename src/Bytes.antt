-- ===== src/Bytes.antt =====
-- Numbers in network byte order, as `uN::from_be_bytes` and `uN::to_be_bytes` read and write them.
-- The length of a slice handed to `try_into().expect("")` is that of its range, so that the
-- conversion to an array never fails: only the slice can be out of range.
use cdc_connector.Prelude.{
  ℕ, zero, suc, ◌+◌, ◌*◌, ◌/◌, ◌%◌, ◌^◌, ◌<◌, ◌≡◌, refl, [], ◌∷◌, arith, Bytes, length, Outcome, ok,
  ◌>>=◌, slice, ℤ, to_signed,
}

abbrev pub IsByte : ℕ → Type 0
IsByte b = b < 256

-- `from_be_bytes`: the first byte is the highest.
abbrev pub from_be_bytes : Bytes → ℕ
from_be_bytes [] = 0
from_be_bytes (b ∷ bs) = b * 256 ^ length bs + from_be_bytes bs

-- The lowest `n` bytes, the highest first.
abbrev pub to_be_bytes : ℕ → ℕ → Bytes
to_be_bytes zero v = []
to_be_bytes (suc n) v = (v / 256 ^ n % 256) ∷ to_be_bytes n v

-- `from_be_bytes(data[a..b].try_into().expect(""))`
abbrev pub read_be : {E : Type 0} → Bytes → ℕ → ℕ → Outcome E ℕ
read_be xs a b = do s ← slice xs a b; ok (from_be_bytes s)

abbrev pub i32_half : ℕ
i32_half = 2 ^ 31

abbrev pub i64_half : ℕ
i64_half = 2 ^ 63

-- `i32::from_be_bytes` and `i64::from_be_bytes`
abbrev pub read_i32 : {E : Type 0} → Bytes → ℕ → Outcome E ℤ
read_i32 xs a = do w ← read_be xs a (a + 4); ok (to_signed i32_half w)

abbrev pub read_i64 : {E : Type 0} → Bytes → ℕ → Outcome E ℤ
read_i64 xs a = do w ← read_be xs a (a + 8); ok (to_signed i64_half w)

pub from_be-to_be_16 : (v : ℕ) → v < 2 ^ 16 → from_be_bytes (to_be_bytes 2 v) ≡ v
from_be-to_be_16 v h = omega arith

pub from_be-to_be_32 : (v : ℕ) → v < 2 ^ 32 → from_be_bytes (to_be_bytes 4 v) ≡ v
from_be-to_be_32 v h = omega arith

pub from_be-to_be_64 : (v : ℕ) → v < 2 ^ 64 → from_be_bytes (to_be_bytes 8 v) ≡ v
from_be-to_be_64 v h = omega arith

pub length-to_be : (n v : ℕ) → length (to_be_bytes n v) ≡ n
length-to_be zero v = refl
length-to_be (suc n) v = omega (arith, length-to_be n v)
