-- ===== src/Avro/Value.antt =====
-- The enum `PgValue` of cdc-avro/src/lib.rs. A `&str` is its bytes, an `i32` or an `i64` its integer.
use cdc_connector.Prelude.{Bool, true, false, Text, ℤ, Fits}
use cdc_connector.Bytes.{i32_half, i64_half}

pub data PgValue : Type 0 where
  null : PgValue
  text : Text → PgValue
  int4 : ℤ → PgValue
  int8 : ℤ → PgValue
  bool : Bool → PgValue
  timestamp : ℤ → PgValue
  toasted : PgValue

-- `matches!(v, PgValue::Toasted)`
abbrev pub is_toasted : PgValue → Bool
is_toasted toasted = true
is_toasted _ = false

-- The integers of a value lie in the range of their Rust types.
abbrev pub InRange : PgValue → Type 0
InRange (int4 n) = Fits i32_half n
InRange (int8 n) = Fits i64_half n
InRange (timestamp t) = Fits i64_half t
InRange _ = Unit
