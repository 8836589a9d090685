-- ===== src/Decoder/ChangeTests.antt =====
-- The tests of cdc-wal-reader/src/decoder/delete.rs and update.rs, run on the model: each holds
-- there as the repository states it.
use cdc_connector.Prelude.{◌≡◌, refl, true, [], ◌∷◌, ◌++◌, ok, err, Bytes, codes, pos}
use cdc_connector.Avro.Value.{PgValue}
use cdc_connector.Avro.Event.{Op}
use cdc_connector.Decoder.Errors.{Utf8, truncated_input, unknown_relation}
use cdc_connector.Decoder.TupleData
use cdc_connector.Decoder.Messages.{
  get_old_tuple_data, get_new_tuple_data, find_relation, old_or_empty, parse_delete, parse_update,
}
use cdc_connector.Decoder.Fixtures.{
  get_example_rel_data, get_example_rel_data_keys, get_example_rel_map, get_example_rel_map_keys,
  col_byte_id, col_text_name, get_tests_rel_data, get_tests_rel_map,
}

abbrev valid : Utf8
valid _ = true

-- A row of an Int4 and a text.
abbrev two_columns : Bytes
two_columns = 0 ∷ 2 ∷ b'b' ∷ 0 ∷ 0 ∷ 0 ∷ 4 ∷ 0 ∷ 0 ∷ 0 ∷ 1 ∷ b't' ∷ 0 ∷ 0 ∷ 0 ∷ 5 ∷ codes "hello"

abbrev simple_delete_key_data : Bytes
simple_delete_key_data =
    b'D' ∷ 0 ∷ 0 ∷ 0 ∷ 1 ∷ b'K' ∷ 0 ∷ 1 ∷ b'b' ∷ 0 ∷ 0 ∷ 0 ∷ 4 ∷ 0 ∷ 0 ∷ 0 ∷ 1 ∷ b'n' ∷ b'n' ∷ []

simple_delete_key :
    parse_delete valid simple_delete_key_data get_example_rel_map_keys
    ≡ ok (record { op = Op.delete (col_byte_id ∷ []); rel = 1 }, get_example_rel_data_keys)
unfolding parse_delete find_relation get_old_tuple_data TupleData.parse_keys
    TupleData.parse_key_cols TupleData.parse_value TupleData.parse_binary_value
    TupleData.parse_binary
simple_delete_key = refl

abbrev simple_delete_object_data : Bytes
simple_delete_object_data = b'D' ∷ 0 ∷ 0 ∷ 0 ∷ 1 ∷ b'O' ∷ two_columns

simple_delete_object :
    parse_delete valid simple_delete_object_data get_example_rel_map
    ≡ ok (
      record { op = Op.delete (col_byte_id ∷ col_text_name ∷ []); rel = 1 },
      get_example_rel_data,
    )
unfolding parse_delete find_relation get_old_tuple_data TupleData.parse TupleData.parse_each
    TupleData.parse_value TupleData.parse_text_value TupleData.parse_binary_value
    TupleData.parse_binary
simple_delete_object = refl

abbrev delete_example1_data : Bytes
delete_example1_data =
    b'D' ∷ 0 ∷ 0 ∷ 0x40 ∷ 0x02 ∷ b'K' ∷ 0 ∷ 0x03 ∷ b'b' ∷ 0 ∷ 0 ∷ 0 ∷ 0x04 ∷ 0 ∷ 0 ∷ 0 ∷ 0x04 ∷ b'n'
    ∷ b'n' ∷ []

delete_example1 :
    parse_delete valid delete_example1_data get_tests_rel_map
    ≡ ok (record { op = Op.delete (PgValue.int4 (pos 4) ∷ []); rel = 16386 }, get_tests_rel_data)
unfolding parse_delete find_relation get_old_tuple_data TupleData.parse_keys
    TupleData.parse_key_cols TupleData.parse_value TupleData.parse_binary_value
    TupleData.parse_binary
delete_example1 = refl

delete_refused :
    (parse_delete valid [] get_example_rel_map ≡ err truncated_input)
    × (parse_delete valid (b'D' ∷ []) get_example_rel_map ≡ err truncated_input)
    × (parse_delete valid (b'D' ∷ 0 ∷ 0 ∷ 0 ∷ 1 ∷ []) get_example_rel_map ≡ err truncated_input)
    × (parse_delete valid (b'D' ∷ 0 ∷ 0 ∷ 0 ∷ 0 ∷ 0 ∷ 0 ∷ 0 ∷ 0 ∷ []) get_example_rel_map
        ≡ err (unknown_relation 0))
unfolding parse_delete find_relation get_old_tuple_data
delete_refused = (refl, refl, refl, refl)

abbrev simple_update_key_data : Bytes
simple_update_key_data =
    b'U' ∷ 0 ∷ 0 ∷ 0 ∷ 1 ∷ b'K' ∷ 0 ∷ 1 ∷ b'b' ∷ 0 ∷ 0 ∷ 0 ∷ 4 ∷ 0 ∷ 0 ∷ 0 ∷ 1 ∷ b'n' ∷ b'n' ∷ b'N'
    ∷ two_columns

simple_update_key :
    parse_update valid simple_update_key_data get_example_rel_map_keys
    ≡ ok (
      record { op = Op.update (col_byte_id ∷ []) (col_byte_id ∷ col_text_name ∷ []); rel = 1 },
      get_example_rel_data_keys,
    )
unfolding parse_update find_relation old_or_empty get_old_tuple_data get_new_tuple_data
    TupleData.parse TupleData.parse_each TupleData.parse_keys TupleData.parse_key_cols
    TupleData.parse_value TupleData.parse_text_value TupleData.parse_binary_value
    TupleData.parse_binary
simple_update_key = refl

abbrev simple_update_object_data : Bytes
simple_update_object_data = b'U' ∷ 0 ∷ 0 ∷ 0 ∷ 1 ∷ b'O' ∷ (two_columns ++ (b'N' ∷ two_columns))

simple_update_object :
    parse_update valid simple_update_object_data get_example_rel_map
    ≡ ok (
      record {
        op = Op.update (col_byte_id ∷ col_text_name ∷ []) (col_byte_id ∷ col_text_name ∷ []);
        rel = 1;
      },
      get_example_rel_data,
    )
unfolding parse_update find_relation old_or_empty get_old_tuple_data get_new_tuple_data
    TupleData.parse TupleData.parse_each TupleData.parse_value TupleData.parse_text_value
    TupleData.parse_binary_value TupleData.parse_binary
simple_update_object = refl

abbrev no_old_tuple_data : Bytes
no_old_tuple_data = b'U' ∷ 0 ∷ 0 ∷ 0 ∷ 1 ∷ b'N' ∷ 0 ∷ 1 ∷ b'b' ∷ 0 ∷ 0 ∷ 0 ∷ 4 ∷ 0 ∷ 0 ∷ 0 ∷ 1 ∷ []

no_old_tuple :
    parse_update valid no_old_tuple_data get_example_rel_map_keys
    ≡ ok (record { op = Op.update [] (col_byte_id ∷ []); rel = 1 }, get_example_rel_data_keys)
unfolding parse_update find_relation old_or_empty get_old_tuple_data get_new_tuple_data
    TupleData.parse TupleData.parse_each TupleData.parse_value TupleData.parse_binary_value
    TupleData.parse_binary
no_old_tuple = refl

abbrev no_new_tuple_data : Bytes
no_new_tuple_data = b'U' ∷ 0 ∷ 0 ∷ 0 ∷ 1 ∷ b'K' ∷ 0 ∷ 1 ∷ b'b' ∷ 0 ∷ 0 ∷ 0 ∷ 4 ∷ 0 ∷ 0 ∷ 0 ∷ 1 ∷ []

update_refused :
    (parse_update valid (b'U' ∷ []) get_example_rel_map ≡ err truncated_input)
    × (parse_update valid (b'U' ∷ 0 ∷ 0 ∷ 0 ∷ 0 ∷ 0 ∷ 0 ∷ 0 ∷ 0 ∷ []) get_example_rel_map
        ≡ err (unknown_relation 0))
    × (parse_update valid (b'U' ∷ 0 ∷ 0 ∷ 0 ∷ 1 ∷ []) get_example_rel_map ≡ err truncated_input)
    × (parse_update valid no_new_tuple_data get_example_rel_map_keys ≡ err truncated_input)
unfolding parse_update find_relation old_or_empty get_old_tuple_data get_new_tuple_data
    TupleData.parse_keys TupleData.parse_key_cols TupleData.parse_value TupleData.parse_binary_value
    TupleData.parse_binary
update_refused = (refl, refl, refl, refl)
