-- ===== src/Decoder/Messages.antt =====
-- cdc-wal-reader/src/decoder/{common, insert, update, delete}.rs: the change messages.
-- The metrics that the parsers record are left out.
pub mod RoundTrip
pub mod Rows
pub mod Keys
pub mod Merged
use cdc_connector.Prelude.{
  ℕ, ◌+◌, Bool, true, false, not, List, [], ◌∷◌, Bytes, length, Outcome, ok, err, panic, ◌>>=◌,
  ◌>>◌, fail_if, ok_or, slice_from, ltb, ◌==◌, if◌then◌else◌, nat_eq,
}
use cdc_connector.Bytes.{read_be}
use cdc_connector.HashMap.{HashMap, lookup}
use cdc_connector.Avro.Kind.{ReplicaKind, same_replica}
use cdc_connector.Avro.Value.{PgValue}
use cdc_connector.Avro.Relation.{Field}
use cdc_connector.Avro.Event.{Op, ChangeEvent}
use cdc_connector.Decoder.Errors.{
  DecoderError, wrong_old_tuple_key, wrong_new_tuple_key, truncated_input, unknown_relation,
  wrong_old_tuple_kind, Decoded, Utf8,
}
use cdc_connector.Decoder.RelationData.{RelationData}
use cdc_connector.Decoder.TupleData

abbrev pub RelationMap : Type 0
RelationMap = HashMap ℕ RelationData

-- common.rs
unfoldable pub get_old_tuple_data : Utf8 → Bytes → RelationData → Decoded (List PgValue × ℕ)
get_old_tuple_data valid [] relation = err truncated_input
get_old_tuple_data valid (b ∷ bs) relation =
    if b == b'K'
    then (do
      fail_if (not (same_replica relation.inner.replica_id ReplicaKind.keys))
          (wrong_old_tuple_kind ReplicaKind.keys)
      (keys, size) ←
          TupleData.parse_keys valid bs relation.key_fields relation.key_indexes
            (length relation.inner.fields)
      ok (keys, size + 1))
    else if b == b'O'
    then (do
      fail_if (not (same_replica relation.inner.replica_id ReplicaKind.row))
          (wrong_old_tuple_kind ReplicaKind.row)
      (row, size) ← TupleData.parse valid bs relation.inner.fields false
      ok (row, size + 1))
    else err (wrong_old_tuple_key b)

unfoldable pub get_new_tuple_data : Utf8 → Bytes → List Field → Bool → Decoded (List PgValue)
get_new_tuple_data valid [] fields is_update = err truncated_input
get_new_tuple_data valid (b ∷ bs) fields is_update =
    if b == b'N'
    then (do (tuple, _) ← TupleData.parse valid bs fields is_update; ok tuple)
    else err (wrong_new_tuple_key b)

-- What the three parsers begin with: the relation that the message names.
unfoldable pub find_relation : Bytes → RelationMap → Decoded (ℕ × RelationData)
find_relation xs relation_map = do
  fail_if (ltb (length xs) 5) truncated_input
  relation_oid ← read_be xs 1 5
  relation ← ok_or (lookup relation_oid relation_map) (unknown_relation relation_oid)
  ok (relation_oid, relation)

-- insert.rs
unfoldable pub parse_insert : Utf8 → Bytes → RelationMap → Decoded (ChangeEvent × RelationData)
parse_insert valid xs relation_map = do
  (relation_oid, relation) ← find_relation xs relation_map
  tail ← slice_from xs 5
  row ← get_new_tuple_data valid tail relation.inner.fields false
  ok (record { op = Op.insert row; rel = relation.inner.relation_oid }, relation)

-- `match get_old_tuple_data(…)` of update.rs: an N tuple at once is no old row.
unfoldable pub old_or_empty : Decoded (List PgValue × ℕ) → Decoded (List PgValue × ℕ)
old_or_empty (ok r) = ok r
old_or_empty (err (wrong_old_tuple_key b)) =
    if b == b'N' then ok ([], 0) else err (wrong_old_tuple_key b)
old_or_empty (err e) = err e
old_or_empty panic = panic

-- update.rs
unfoldable pub parse_update : Utf8 → Bytes → RelationMap → Decoded (ChangeEvent × RelationData)
parse_update valid xs relation_map = do
  (relation_oid, relation) ← find_relation xs relation_map
  tail ← slice_from xs 5
  (old, old_data_end) ← old_or_empty (get_old_tuple_data valid tail relation)
  fail_if (ltb (length xs) (old_data_end + 5)) truncated_input
  rest ← slice_from xs (old_data_end + 5)
  new_data ← get_new_tuple_data valid rest relation.inner.fields true
  ok (record { op = Op.update old new_data; rel = relation_oid }, relation)

-- delete.rs
unfoldable pub parse_delete : Utf8 → Bytes → RelationMap → Decoded (ChangeEvent × RelationData)
parse_delete valid xs relation_map = do
  (relation_oid, relation) ← find_relation xs relation_map
  tail ← slice_from xs 5
  (old, _) ← get_old_tuple_data valid tail relation
  ok (record { op = Op.delete old; rel = relation_oid }, relation)
