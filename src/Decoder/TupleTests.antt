-- ===== src/Decoder/TupleTests.antt =====
-- The tests of cdc-wal-reader/src/decoder/common.rs and insert.rs, run on the model: each holds
-- there as the repository states it.
use cdc_connector.Prelude.{◌≡◌, refl, true, false, [], ◌∷◌, ◌++◌, ok, err, Bytes, codes}
use cdc_connector.Avro.Value.{PgValue}
use cdc_connector.Avro.Event.{Op}
use cdc_connector.Decoder.Errors.{
  Utf8, truncated_input, unknown_relation, wrong_old_tuple_key, wrong_new_tuple_key,
}
use cdc_connector.Decoder.TupleData
use cdc_connector.Decoder.Messages.{
  get_old_tuple_data, get_new_tuple_data, find_relation, parse_insert,
}
use cdc_connector.Decoder.Fixtures.{
  get_example_rel_data, get_example_rel_data_keys, get_example_rel_map, col_byte_id, col_text_name,
  complex_relation, complex_relation_map,
}

abbrev valid : Utf8
valid _ = true

abbrev empty_old_tuple_data_key_data : Bytes
empty_old_tuple_data_key_data = b'O' ∷ 0 ∷ 0 ∷ []

empty_old_tuple_data_key :
    get_old_tuple_data valid empty_old_tuple_data_key_data get_example_rel_data ≡ ok ([], 3)
unfolding get_old_tuple_data TupleData.parse TupleData.parse_each TupleData.parse_indexed
empty_old_tuple_data_key = refl

abbrev simple_old_tuple_data_object_data : Bytes
simple_old_tuple_data_object_data =
    b'O' ∷ 0 ∷ 2 ∷ b'b' ∷ 0 ∷ 0 ∷ 0 ∷ 4 ∷ 0 ∷ 0 ∷ 0 ∷ 1 ∷ b't' ∷ 0 ∷ 0 ∷ 0 ∷ 5 ∷ codes "hello"

simple_old_tuple_data_object :
    get_old_tuple_data valid simple_old_tuple_data_object_data get_example_rel_data
    ≡ ok (col_byte_id ∷ col_text_name ∷ [], 22)
unfolding get_old_tuple_data TupleData.parse TupleData.parse_each TupleData.parse_value
    TupleData.parse_text_value TupleData.parse_binary_value TupleData.parse_binary
simple_old_tuple_data_object = refl

abbrev simple_get_new_tuple_data_data : Bytes
simple_get_new_tuple_data_data =
    b'N' ∷ 0 ∷ 2 ∷ b'b' ∷ 0 ∷ 0 ∷ 0 ∷ 4 ∷ 0 ∷ 0 ∷ 0 ∷ 1 ∷ b't' ∷ 0 ∷ 0 ∷ 0 ∷ 5 ∷ codes "hello"

simple_get_new_tuple_data :
    get_new_tuple_data valid simple_get_new_tuple_data_data get_example_rel_data.inner.fields false
    ≡ ok (col_byte_id ∷ col_text_name ∷ [])
unfolding get_new_tuple_data TupleData.parse TupleData.parse_each TupleData.parse_value
    TupleData.parse_text_value TupleData.parse_binary_value TupleData.parse_binary
simple_get_new_tuple_data = refl

refused :
    (get_old_tuple_data valid (b'O' ∷ []) get_example_rel_data ≡ err truncated_input)
    × (get_old_tuple_data valid (b'K' ∷ []) get_example_rel_data_keys ≡ err truncated_input)
    × (get_old_tuple_data valid [] get_example_rel_data ≡ err truncated_input)
    × (get_new_tuple_data valid [] get_example_rel_data.inner.fields false ≡ err truncated_input)
    × (get_old_tuple_data valid (b'C' ∷ []) get_example_rel_data ≡ err (wrong_old_tuple_key b'C'))
    × (get_new_tuple_data valid (b'C' ∷ []) get_example_rel_data.inner.fields false
        ≡ err (wrong_new_tuple_key b'C'))
unfolding get_old_tuple_data get_new_tuple_data TupleData.parse TupleData.parse_keys
refused = (refl, refl, refl, refl, refl, refl)

abbrev simple_insert_data : Bytes
simple_insert_data =
    b'I'
    ∷ 0
    ∷ 0
    ∷ 0
    ∷ 1
    ∷ b'N'
    ∷ 0
    ∷ 2
    ∷ b'b'
    ∷ 0
    ∷ 0
    ∷ 0
    ∷ 4
    ∷ 0
    ∷ 0
    ∷ 0
    ∷ 1
    ∷ b't'
    ∷ 0
    ∷ 0
    ∷ 0
    ∷ 5
    ∷ codes "hello"

simple_insert :
    parse_insert valid simple_insert_data get_example_rel_map
    ≡ ok (
      record { op = Op.insert (col_byte_id ∷ col_text_name ∷ []); rel = 1 },
      get_example_rel_data,
    )
unfolding parse_insert find_relation get_new_tuple_data TupleData.parse TupleData.parse_each
    TupleData.parse_value TupleData.parse_text_value TupleData.parse_binary_value
    TupleData.parse_binary
simple_insert = refl

abbrev insert_complex_data : Bytes
insert_complex_data =
    b'I'
    ∷ 0
    ∷ 0
    ∷ 0x40
    ∷ 0x06
    ∷ b'N'
    ∷ 0
    ∷ 3
    ∷ b't'
    ∷ 0
    ∷ 0
    ∷ 0
    ∷ 1
    ∷ (codes "1"
        ++ (b't'
            ∷ 0
            ∷ 0
            ∷ 0
            ∷ 3
            ∷ (codes "ada" ++ (b't' ∷ 0 ∷ 0 ∷ 0 ∷ 0x0F ∷ codes "ada@example.com"))))

insert_complex :
    parse_insert valid insert_complex_data complex_relation_map
    ≡ ok (
      record {
        op = Op.insert (
            PgValue.text (codes "1")
            ∷ PgValue.text (codes "ada")
            ∷ PgValue.text (codes "ada@example.com")
            ∷ []);
        rel = 16390;
      },
      complex_relation,
    )
unfolding parse_insert find_relation get_new_tuple_data TupleData.parse TupleData.parse_each
    TupleData.parse_value TupleData.parse_text_value
insert_complex = refl

insert_refused :
    (parse_insert valid (b'I' ∷ []) get_example_rel_map ≡ err truncated_input)
    × (parse_insert valid (b'I' ∷ 0 ∷ 0 ∷ 0 ∷ 0 ∷ []) get_example_rel_map
        ≡ err (unknown_relation 0))
    × (parse_insert valid (b'I' ∷ 0 ∷ 0 ∷ 0 ∷ 1 ∷ []) get_example_rel_map ≡ err truncated_input)
unfolding parse_insert find_relation get_new_tuple_data
insert_refused = (refl, refl, refl)
