-- ===== src/Decoder/Errors.antt =====
-- `DecoderError` of cdc-wal-reader/src/decoder/mod.rs, and UTF-8 validation.
use cdc_connector.Prelude.{ℕ, Bool, Bytes, Text, Outcome, ok, err, if◌then◌else◌}
use cdc_connector.Avro.Kind.{FieldKind, ReplicaKind}

-- The payload of the two UTF-8 errors is only logged, and left out.
pub data DecoderError : Type 0 where
  wrong_old_tuple_key : ℕ → DecoderError
  wrong_col_type_key : ℕ → DecoderError
  wrong_new_tuple_key : ℕ → DecoderError
  wrong_field_data_flag : ℕ → DecoderError
  invalid_oid : ℕ → DecoderError
  truncated_input : DecoderError
  corrupted_input : DecoderError
  non_utf8 : DecoderError
  non_utf8_simd : DecoderError
  unknown_relation : ℕ → DecoderError
  wrong_field_kind : FieldKind → DecoderError
  wrong_replica_id : ℕ → DecoderError
  wrong_old_tuple_kind : ReplicaKind → DecoderError
  toasted_value_on_non_update : DecoderError

abbrev pub Decoded {ℓ} : Type ℓ → Type ℓ
Decoded A = Outcome DecoderError A

-- Whether bytes are valid UTF-8: what the crate simdutf8 decides.
abbrev pub Utf8 : Type 0
Utf8 = Bytes → Bool

-- `simdutf8::basic::from_utf8(s)?`
abbrev pub from_utf8 : Utf8 → Bytes → Decoded Text
from_utf8 valid s = if valid s then ok s else err non_utf8_simd
