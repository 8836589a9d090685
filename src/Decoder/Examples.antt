-- ===== src/Decoder/Examples.antt =====
-- The theorems about the decoders at concrete messages.
use cdc_connector.Prelude.{
  ℕ, ◌≡◌, ◌≤◌, ◌<◌, ◌+◌, refl, true, false, List, [], ◌∷◌, ◌++◌, ok, panic, pos, codes, arith,
  length, take, All, inl, inr, nat_eq,
}
use cdc_connector.Bytes.{from_be_bytes}
use cdc_connector.Avro.Kind.{FieldKind, ReplicaKind}
use cdc_connector.Avro.Relation.{Field, field_access}
use cdc_connector.Avro.Event.{Op, ChangeEvent, merge_row, merge_toasted}
use cdc_connector.Avro.Merge.{Settled, written}
use cdc_connector.Decoder.Errors.{Utf8}
use cdc_connector.Decoder.RelationData.{RelationData, key_field_access}
use cdc_connector.Decoder.TupleData
use cdc_connector.Decoder.TupleData.{
  parse_keys, parse_value, parse_each, parse_binary, parse_binary_value,
}
use cdc_connector.Decoder.TupleData.Encode.{
  Cell, unchanged, text_format, binary_int4, encode_tuple, cell_value, values, RowSendable,
}
use cdc_connector.Decoder.TupleData.RoundTrip.{parse-encode}
use cdc_connector.Decoder.TupleData.Bounds.{
  col_count, parse_bounds, parse-uniform, parse_value-panic,
}
use cdc_connector.Decoder.TupleData.Kinds.{RowConforms, parse-RowConforms}
use cdc_connector.Decoder.TupleData.KeyTuples.{count_from, key_tuple}
use cdc_connector.Decoder.Messages.{RelationMap, parse_insert, parse_update, parse_delete}
use cdc_connector.Decoder.Messages.RoundTrip.{
  message, parse_insert-encode, parse_delete-encode, parse_update-encode,
}
use cdc_connector.Decoder.Messages.Rows.{FewFields}
use cdc_connector.Decoder.Messages.Keys.{KeysFirst, parse_delete-key}
use cdc_connector.Decoder.Messages.Merged.{merge_toasted-decoded}

abbrev valid : Utf8
valid _ = true

abbrev id_field : Field
id_field = record { is_key = true; name = codes "id"; kind = FieldKind.int4 }

abbrev name_field : Field
name_field = record { is_key = false; name = codes "name"; kind = FieldKind.text }

abbrev users : ReplicaKind → List Field → RelationData
users kind fields = record {
  inner = record {
    relation_oid = 1;
    name = codes "users";
    namespace = codes "public";
    fields = fields;
    replica_id = kind;
  };
  key_fields = record { name = codes "id"; kind = FieldKind.int4 } ∷ [];
  key_indexes = 0 ∷ [];
}

abbrev two_fields : List Field
two_fields = id_field ∷ name_field ∷ []

abbrev row_map : RelationMap
row_map = (1, users ReplicaKind.row two_fields) ∷ []

abbrev key_map : RelationMap
key_map = (1, users ReplicaKind.keys two_fields) ∷ []

abbrev ann : List Cell
ann = binary_int4 (pos 7) ∷ text_format (codes "ann") ∷ []

abbrev same_name : List Cell
same_name = binary_int4 (pos 8) ∷ unchanged ∷ []

abbrev id_cell : Cell
id_cell = binary_int4 (pos 7)

ann-RowSendable : RowSendable valid false two_fields ann
ann-RowSendable = ((refl, omega arith), ((refl, omega arith), tt))

same_name-RowSendable : RowSendable valid true two_fields same_name
same_name-RowSendable = ((refl, omega arith), (refl, tt))

parse-encode_example :
    TupleData.parse valid (encode_tuple ann ++ 9 ∷ []) two_fields false
    ≡ ok (values ann, length (encode_tuple ann))
parse-encode_example =
    parse-encode valid two_fields false ann (9 ∷ []) (omega arith) ann-RowSendable

parse_insert-encode_example :
    parse_insert valid (message b'I' 1 (b'N' ∷ encode_tuple ann)) row_map
    ≡ ok (record { op = Op.insert (values ann); rel = 1 }, users ReplicaKind.row two_fields)
parse_insert-encode_example =
    parse_insert-encode valid row_map 1 (users ReplicaKind.row two_fields) refl (omega arith)
      (omega arith) ann ann-RowSendable

parse_update-encode_example :
    parse_update valid
      (message b'U' 1 (b'O' ∷ encode_tuple ann ++ b'N' ∷ encode_tuple same_name))
      row_map
    ≡ ok (
      record { op = Op.update (values ann) (values same_name); rel = 1 },
      users ReplicaKind.row two_fields,
    )
parse_update-encode_example =
    parse_update-encode valid row_map 1 (users ReplicaKind.row two_fields) refl (omega arith)
      (omega arith) ann same_name refl ann-RowSendable same_name-RowSendable

parse_delete-encode_example :
    parse_delete valid (message b'D' 1 (b'O' ∷ encode_tuple ann)) row_map
    ≡ ok (record { op = Op.delete (values ann); rel = 1 }, users ReplicaKind.row two_fields)
parse_delete-encode_example =
    parse_delete-encode valid row_map 1 (users ReplicaKind.row two_fields) refl (omega arith)
      (omega arith) ann refl ann-RowSendable

row_map-FewFields : FewFields row_map
row_map-FewFields oid relation h = ground (arith, h)

abbrev merged : ChangeEvent
merged = record { op = Op.update (values ann) (values same_name); rel = 1 }

merges : (merge_toasted merged.op).1 ≡ ok tt
unfolding merge_toasted merge_row cell_value
merges = refl

merge_toasted-decoded_example : All Settled (written (merge_toasted merged.op).0)
merge_toasted-decoded_example =
    merge_toasted-decoded valid
      (message b'U' 1 (b'O' ∷ encode_tuple ann ++ b'N' ∷ encode_tuple same_name)) row_map merged
      (users ReplicaKind.row two_fields) row_map-FewFields (inr (inl parse_update-encode_example))
      merges

parse_bounds_example :
    (length (values ann) ≡ col_count (encode_tuple ann ++ 9 ∷ []))
    × (2 + length (values ann) ≤ length (encode_tuple ann))
    × (length (encode_tuple ann) ≤ length (encode_tuple ann ++ 9 ∷ []))
parse_bounds_example =
    parse_bounds valid (encode_tuple ann ++ 9 ∷ []) two_fields false (omega arith) (values ann)
      (length (encode_tuple ann)) parse-encode_example

parse-uniform_example :
    TupleData.parse valid (0 ∷ 1 ∷ b'n' ∷ []) two_fields false
    ≡ parse_each valid (0 ∷ 1 ∷ b'n' ∷ []) false (id_field ∷ []) 2 []
parse-uniform_example =
    parse-uniform valid (0 ∷ 1 ∷ b'n' ∷ []) two_fields false (omega arith) (omega arith)
      (omega arith)

parse-RowConforms_example :
    RowConforms false (take (col_count (encode_tuple ann ++ 9 ∷ [])) two_fields) (values ann)
parse-RowConforms_example =
    parse-RowConforms valid (encode_tuple ann ++ 9 ∷ []) two_fields false (values ann)
      (length (encode_tuple ann)) (omega arith) parse-encode_example

short_text : parse_value valid (b'b' ∷ 0 ∷ 0 ∷ 0 ∷ 9 ∷ []) name_field false ≡ panic
unfolding parse_value parse_binary parse_binary_value
short_text = refl

abbrev tag : ℕ
tag = b'b'

parse_value-panic_example :
    (tag ≡ b'b') × (FieldKind.text ≡ FieldKind.text) × (5 < 5 + from_be_bytes (0 ∷ 0 ∷ 0 ∷ 9 ∷ []))
parse_value-panic_example =
    parse_value-panic valid tag (0 ∷ 0 ∷ 0 ∷ 9 ∷ []) name_field false short_text

id-RowSendable :
    RowSendable valid false (users ReplicaKind.keys two_fields).key_fields (id_cell ∷ [])
id-RowSendable = ((refl, omega arith), tt)

two-KeysFirst : KeysFirst (users ReplicaKind.keys two_fields) 1
unfolding count_from
two-KeysFirst = record { identity = refl; positions = refl; columns = refl }

parse_delete-key_example :
    parse_delete valid (message b'D' 1 (b'K' ∷ encode_tuple (key_tuple (id_cell ∷ []) 1))) key_map
    ≡ ok (
      record { op = Op.delete (values (id_cell ∷ [])); rel = 1 },
      users ReplicaKind.keys two_fields,
    )
parse_delete-key_example =
    parse_delete-key valid key_map 1 (users ReplicaKind.keys two_fields) refl (omega arith) 1
      two-KeysFirst id_cell [] (omega arith) id-RowSendable
