-- ===== src/Decoder/TupleDataTests.antt =====
-- The tests of cdc-wal-reader/src/decoder/tuple_data.rs, run on the model: each holds there as the
-- repository states it.
use cdc_connector.Prelude.{◌≡◌, refl, true, false, [], ◌∷◌, ok, err, Bytes, codes}
use cdc_connector.Avro.Kind.{FieldKind}
use cdc_connector.Avro.Value.{PgValue}
use cdc_connector.Avro.Relation.{field_access}
use cdc_connector.Decoder.Errors.{
  Utf8, truncated_input, corrupted_input, wrong_col_type_key, wrong_field_kind,
  toasted_value_on_non_update,
}
use cdc_connector.Decoder.TupleData.{
  parse, parse_each, parse_indexed, parse_value, parse_text_value, parse_binary_value, parse_binary,
}
use cdc_connector.Decoder.Fixtures.{
  get_example_rel, get_example_rel_keys, col_byte_id, col_text_name,
}

abbrev valid : Utf8
valid _ = true

abbrev one_byte_data_data : Bytes
one_byte_data_data = 0 ∷ 1 ∷ b'b' ∷ 0 ∷ 0 ∷ 0 ∷ 4 ∷ 0 ∷ 0 ∷ 0 ∷ 1 ∷ []

abbrev byte_and_text_data_data : Bytes
byte_and_text_data_data =
    0 ∷ 2 ∷ b'b' ∷ 0 ∷ 0 ∷ 0 ∷ 4 ∷ 0 ∷ 0 ∷ 0 ∷ 1 ∷ b't' ∷ 0 ∷ 0 ∷ 0 ∷ 5 ∷ codes "hello"

rows :
    (parse valid (0 ∷ 0 ∷ []) get_example_rel.fields false ≡ ok ([], 2))
    × (parse valid one_byte_data_data get_example_rel.fields false ≡ ok (col_byte_id ∷ [], 11))
    × (parse valid byte_and_text_data_data get_example_rel.fields false
        ≡ ok (col_byte_id ∷ col_text_name ∷ [], 21))
    × (parse valid (0 ∷ 1 ∷ b'u' ∷ []) get_example_rel.fields true ≡ ok (PgValue.toasted ∷ [], 3))
unfolding parse parse_each parse_indexed parse_value parse_text_value parse_binary_value
    parse_binary
rows = (refl, refl, refl, refl)

abbrev more_fields_than_cols_data : Bytes
more_fields_than_cols_data = 0 ∷ 3 ∷ b'b' ∷ 0 ∷ 0 ∷ 0 ∷ 4 ∷ 0 ∷ 0 ∷ 0 ∷ 1 ∷ b'n' ∷ b'n' ∷ []

refused :
    (parse valid (0 ∷ []) get_example_rel.fields false ≡ err truncated_input)
    × (parse valid (0 ∷ 1 ∷ []) get_example_rel.fields false ≡ err truncated_input)
    × (parse valid (0 ∷ 1 ∷ b'c' ∷ []) get_example_rel.fields false ≡ err (wrong_col_type_key b'c'))
    × (parse valid (0 ∷ 1 ∷ b't' ∷ []) get_example_rel.fields false ≡ err truncated_input)
    × (parse valid (0 ∷ 1 ∷ b't' ∷ 0 ∷ 0 ∷ 0 ∷ 1 ∷ []) get_example_rel.fields false
        ≡ err truncated_input)
    × (parse valid (0 ∷ 1 ∷ b'b' ∷ []) get_example_rel.fields false ≡ err truncated_input)
    × (parse valid (0 ∷ 1 ∷ b'b' ∷ 0 ∷ 0 ∷ 0 ∷ 4 ∷ []) get_example_rel.fields false
        ≡ err truncated_input)
    × (parse valid (0 ∷ 1 ∷ b'b' ∷ 0 ∷ 0 ∷ 0 ∷ 1 ∷ []) get_example_rel.fields false
        ≡ err (wrong_field_kind FieldKind.int4))
    × (parse valid more_fields_than_cols_data get_example_rel_keys.fields false
        ≡ err corrupted_input)
    × (parse valid (0 ∷ 1 ∷ b'u' ∷ []) get_example_rel_keys.fields false
        ≡ err toasted_value_on_non_update)
unfolding parse parse_each parse_indexed parse_value parse_text_value parse_binary_value
    parse_binary
refused = (refl, refl, refl, refl, refl, refl, refl, refl, refl, refl)
