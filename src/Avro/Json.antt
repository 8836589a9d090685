-- ===== src/Avro/Json.antt =====
-- `to_json_value` of cdc-avro/src/lib.rs.
use cdc_connector.Prelude.{
  ◌≡◌, arith, ◌%◌, ◌+◌, ◌^◌, Bool, Option, none, some, Text, ℤ, pos, negsuc, ◌+ℤ◌, to_signed,
  of_signed, Fits,
}
use cdc_connector.Bytes.{i64_half}
use cdc_connector.Avro.Value.{PgValue, null, text, int4, int8, bool, timestamp, toasted}

-- The variants of `serde_json::Value` that are built.
pub data Json : Type 0 where
  json_null : Json
  string : Text → Json
  number : ℤ → Json
  boolean : Bool → Json

-- chrono: `DateTime::from_timestamp_micros` together with the format "%Y-%m-%d %H:%M:%S%.6f".
abbrev pub FormatMicros : Type 0
FormatMicros = ℤ → Option Text

-- `*t + pg_epoch_to_unix_micros` in `i64`, in a build without overflow checks, as `cargo build
-- --release` makes it: the sum wraps around.
unfoldable pub to_unix_micros : ℤ → ℤ
to_unix_micros t = to_signed i64_half ((of_signed i64_half t + 946684800000000) % 2 ^ 64)

abbrev date_time : Option Text → Json
date_time (some s) = string s
date_time none = json_null

unfoldable pub to_json_value : FormatMicros → PgValue → Json
to_json_value format null = json_null
to_json_value format (text s) = string s
to_json_value format (int4 n) = number n
to_json_value format (int8 n) = number n
to_json_value format (bool b) = boolean b
to_json_value format (timestamp t) = date_time (format (to_unix_micros t))
to_json_value format toasted = json_null

-- Microseconds from the epoch of PostgreSQL become microseconds from the Unix epoch, without
-- wrapping, wherever both counts are in the range of `i64`.
pub to_unix_micros-add :
    (t : ℤ)
    → Fits i64_half t
    → Fits i64_half (t +ℤ pos 946684800000000)
    → to_unix_micros t ≡ t +ℤ pos 946684800000000
unfolding to_unix_micros
to_unix_micros-add (pos n) h fit = ground arith
to_unix_micros-add (negsuc n) h fit = ground arith
