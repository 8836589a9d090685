-- ===== src/Decoder/RelationData.antt =====
-- cdc-wal-reader/src/decoder/relation.rs: the relation message.
pub mod Encode
mod Strings
mod Parts
mod Columns
pub mod RoundTrip
pub mod Truncated
pub mod Identity
use cdc_connector.Prelude.{
  ℕ, zero, suc, ◌+◌, Bool, true, false, ◌&&◌, ◌||◌, List, [], ◌∷◌, ◌++◌, Bytes, Text, length, ok,
  err, ◌>>=◌, ◌>>◌, fail_if, ok_or, index, slice, slice_from, ltb, ◌==◌, if◌then◌else◌,
}
use cdc_connector.Bytes.{read_be}
use cdc_connector.Avro.Kind.{FieldKind, ReplicaKind}
use cdc_connector.Avro.Relation.{Field, Relation, FieldAccess}
use cdc_connector.Decoder.Errors.{
  wrong_field_data_flag, invalid_oid, truncated_input, wrong_replica_id, Decoded, Utf8, from_utf8,
}
use cdc_connector.Decoder.NullWord.{find_null_word}

pub record KeyField : Type 0 where
  pub name : Text
  pub kind : FieldKind

instance abbrev pub key_field_access : FieldAccess KeyField
key_field_access = record { get_name = λ f. f.name; get_kind = λ f. f.kind }

pub record RelationData : Type 0 where
  pub inner : Relation
  -- The fields of `inner` that are marked as keys, and their positions.
  pub key_fields : List KeyField
  pub key_indexes : List ℕ

pub data FieldParseResult : Type 0 where
  physical : Field → ℕ → FieldParseResult
  logical : ℕ → FieldParseResult

-- `iter().all(|&b| b < 128)`
abbrev pub all_ascii : Bytes → Bool
all_ascii [] = true
all_ascii (b ∷ bs) = ltb b 128 && all_ascii bs

unfoldable pub extract_string : Utf8 → Bytes → Decoded Text
extract_string valid xs = do
  found ← find_null_word xs
  nul ← ok_or found truncated_input
  s ← slice xs 0 nul
  if all_ascii s then ok s else from_utf8 valid s

unfoldable pub byte_size_len : ℕ → ℕ
byte_size_len str_len = 10 + str_len

unfoldable pub kind_from_oid_mod : ℕ → ℕ → Decoded FieldKind
kind_from_oid_mod t_oid t_mod =
    if t_oid == 16
    then ok FieldKind.bool
    else if t_oid == 20
    then ok FieldKind.int8
    else if t_oid == 23
    then ok FieldKind.int4
    else if t_oid == 25
    then ok FieldKind.text
    else if t_oid == 1114
    then ok FieldKind.timestamp
    else err (invalid_oid t_oid)

-- The part of `parse_field` behind the flag, for a field on disk.
unfoldable pub parse_physical : Bool → Text → Bytes → Decoded FieldParseResult
unfolding kind_from_oid_mod byte_size_len
parse_physical is_key name xs = do
  let after_name = 1 + length name + 1
  t_oid ← read_be xs after_name (after_name + 4)
  t_mod ← read_be xs (after_name + 4) (after_name + 8)
  kind ← kind_from_oid_mod t_oid t_mod
  ok (physical (record { is_key = is_key; name = name; kind = kind }) (byte_size_len (length name)))

unfoldable pub parse_field : Utf8 → Bytes → Decoded FieldParseResult
parse_field valid xs = do
  fail_if (ltb (length xs) 10) truncated_input
  flag ← index xs 0
  tail ← slice_from xs 1
  name ← extract_string valid tail
  if flag == 0
      then parse_physical false name xs
      else if flag == 1
      then parse_physical true name xs
      else if flag == 2 || flag == 3
      then ok (logical (byte_size_len (length name)))
      else err (wrong_field_data_flag flag)

-- What the loop takes of a result: the bytes to go on, and the field to push, if any.
abbrev taken : FieldParseResult → ℕ × List Field
taken (physical field bytes) = (bytes, field ∷ [])
taken (logical b) = (b, [])

-- The loop `for _ in 0..cols`: the rounds left, the position and the fields so far.
unfoldable pub parse_fields : Utf8 → ℕ → Bytes → ℕ → List Field → Decoded (List Field)
parse_fields valid zero xs col_start_id fields = ok fields
parse_fields valid (suc cols) xs col_start_id fields = do
  tail ← slice_from xs col_start_id
  r ← parse_field valid tail
  let (size, found) = taken r
  parse_fields valid cols xs (col_start_id + size) (fields ++ found)

-- `filter_map` over the fields, for the keys.
unfoldable pub keys_of : List Field → List KeyField
keys_of [] = []
keys_of (f ∷ fs) =
    let rest = keys_of fs in
    if f.is_key then record { name = f.name; kind = f.kind } ∷ rest else rest

-- `enumerate().filter_map(…)` from position `i` on.
unfoldable pub key_indexes_from : ℕ → List Field → List ℕ
key_indexes_from i [] = []
key_indexes_from i (f ∷ fs) =
    let rest = key_indexes_from (suc i) fs in if f.is_key then i ∷ rest else rest

unfoldable pub relation_data : Relation → RelationData
unfolding keys_of key_indexes_from
relation_data inner = record {
  inner = inner;
  key_fields = keys_of inner.fields;
  key_indexes = key_indexes_from 0 inner.fields;
}

unfoldable pub replica_kind : ℕ → Decoded ReplicaKind
replica_kind b =
    if b == b'd'
    then ok ReplicaKind.keys
    else if b == b'f'
    then ok ReplicaKind.row
    else err (wrong_replica_id b)

-- `RelationData::parse`
unfoldable pub parse : Utf8 → Bytes → Decoded RelationData
parse valid xs = do
  fail_if (ltb (length xs) 10) truncated_input
  relation_oid ← read_be xs 1 5
  namespace ← extract_string valid (← slice_from xs 5)
  relname ← extract_string valid (← slice_from xs (5 + length namespace + 1))
  fail_if (ltb (length xs) (5 + length namespace + 1 + length relname + 3)) truncated_input
  let replica_id_pos = 5 + length namespace + 1 + length relname + 1
  replica_id ← replica_kind (← index xs replica_id_pos)
  cols ← read_be xs (replica_id_pos + 1) (replica_id_pos + 3)
  fields ← parse_fields valid cols xs (replica_id_pos + 3) []
  ok (
      relation_data (record {
        relation_oid = relation_oid;
        name = relname;
        namespace = namespace;
        fields = fields;
        replica_id = replica_id;
      }))
