-- ===== src/Decoder/Messages/Keys.antt =====
-- Change messages with a key tuple, as PostgreSQL sends them under the default replica identity,
-- of relations whose first columns are the key.
use cdc_connector.Prelude.{
  ℕ, suc, ◌+◌, ◌^◌, ◌≤◌, ◌<◌, ◌≡◌, refl, true, false, List, [], ◌∷◌, ◌++◌, ok, err, panic, some,
  Bytes, length, drop, arith, length-append, drop-append, drop-drop, append-nil, nat_eq,
}
use cdc_connector.HashMap.{lookup}
use cdc_connector.Avro.Kind.{ReplicaKind}
use cdc_connector.Avro.Relation.{field_access}
use cdc_connector.Avro.Event.{Op}
use cdc_connector.Decoder.Errors.{Utf8, wrong_new_tuple_key}
use cdc_connector.Decoder.RelationData.{RelationData, key_field_access}
use cdc_connector.Decoder.TupleData.Encode.{Cell, encode_tuple, RowSendable, values}
use cdc_connector.Decoder.TupleData.KeyTuples.{
  count_from, key_tuple, parse_keys-prefix, parse_keys-wide,
}
use cdc_connector.Decoder.Messages.{
  RelationMap, get_old_tuple_data, get_new_tuple_data, old_or_empty, parse_update, parse_delete,
}
use cdc_connector.Decoder.Messages.RoundTrip.{message, find_relation-message}

-- The key is the first columns, and `others` columns follow it.
pub record KeysFirst (relation : RelationData) (others : ℕ) : Type 0 where
  pub identity : relation.inner.replica_id ≡ ReplicaKind.keys
  pub positions : relation.key_indexes ≡ count_from 0 (length relation.key_fields)
  pub columns : length relation.inner.fields ≡ length relation.key_fields + others

past_tag :
    (oid : ℕ) (tuple rest : Bytes)
    → drop (length tuple + 2 + 5) (message b'U' oid (b'K' ∷ tuple ++ b'N' ∷ rest)) ≡ rest
past_tag oid tuple rest =
    rw (seven, ← drop-drop 1 (length tuple) (tuple ++ b'N' ∷ rest), drop-append tuple (b'N' ∷ rest))
      refl
  where
    seven : length tuple + 2 + 5 ≡ suc (suc (suc (suc (suc (suc (length tuple + 1))))))
    seven = omega arith

get_new-past :
    (valid : Utf8) (relation : RelationData) (new : List Cell)
    → length new < 256
    → get_new_tuple_data valid (encode_tuple new) relation.inner.fields true
      ≡ err (wrong_new_tuple_key 0)
unfolding get_new_tuple_data encode_tuple
get_new-past valid relation new few = ground arith

length-encode_tuple : (new : List Cell) → 2 ≤ length (encode_tuple new)
unfolding encode_tuple
length-encode_tuple new = omega arith

module _ (valid : Utf8) (relation_map : RelationMap) (oid : ℕ) (relation : RelationData)
    (known : lookup oid relation_map ≡ some relation) (oid_fits : oid < 2 ^ 32) (others : ℕ)
    (first : KeysFirst relation others) where
  get_old-key :
      (key : Cell) (keys : List Cell) (rest : Bytes)
      → length relation.inner.fields ≤ 6
      → RowSendable valid false relation.key_fields (key ∷ keys)
      → get_old_tuple_data valid
          (b'K' ∷ encode_tuple (key_tuple (key ∷ keys) others) ++ rest)
          relation
        ≡ ok (values (key ∷ keys), length (encode_tuple (key_tuple (key ∷ keys) others)) + 2)
  unfolding get_old_tuple_data
  get_old-key key keys rest few h = ground (
    arith,
    first.identity,
    first.positions,
    first.columns,
    parse_keys-prefix valid relation.key_fields key keys others rest (omega (arith, first.columns))
        h,
  )

  -- A delete of such a relation of at most 6 columns is read as the delete of the key's values.
  pub parse_delete-key :
      (key : Cell) (keys : List Cell)
      → length relation.inner.fields ≤ 6
      → RowSendable valid false relation.key_fields (key ∷ keys)
      → parse_delete valid
          (message b'D' oid (b'K' ∷ encode_tuple (key_tuple (key ∷ keys) others)))
          relation_map
        ≡ ok (record { op = Op.delete (values (key ∷ keys)); rel = oid }, relation)
  unfolding parse_delete
  parse_delete-key key keys few h = ground (
    arith,
    find_relation-message valid relation_map oid relation known oid_fits b'D'
        (b'K' ∷ encode_tuple (key_tuple (key ∷ keys) others)),
    append-nil (encode_tuple (key_tuple (key ∷ keys) others)),
    get_old-key key keys [] few h,
  )

  -- An update of such a relation with a key tuple is refused: the parser goes on one byte behind
  -- the tag of the new tuple, at the high byte of its number of columns.
  pub parse_update-key :
      (key : Cell) (keys : List Cell) (new : List Cell)
      → length relation.inner.fields ≤ 6
      → RowSendable valid false relation.key_fields (key ∷ keys)
      → length new ≡ length relation.inner.fields
      → parse_update valid
          (message b'U' oid
            (b'K' ∷ encode_tuple (key_tuple (key ∷ keys) others) ++ b'N' ∷ encode_tuple new))
          relation_map
        ≡ err (wrong_new_tuple_key 0)
  unfolding parse_update old_or_empty
  parse_update-key key keys new few h same = ground (
    arith,
    find_relation-message valid relation_map oid relation known oid_fits b'U'
        (b'K' ∷ tuple ++ b'N' ∷ encode_tuple new),
    get_old-key key keys (b'N' ∷ encode_tuple new) few h,
    length-append tuple (b'N' ∷ encode_tuple new),
    past_tag oid tuple (encode_tuple new),
    get_new-past valid relation new (omega arith),
    length-encode_tuple new,
  )
    where
      tuple : Bytes
      tuple = encode_tuple (key_tuple (key ∷ keys) others)

  -- A delete of such a relation of 7 columns or more, some of them not in the key, ends in a panic.
  pub parse_delete-wide :
      (keys : List Cell)
      → 1 ≤ others
      → 7 ≤ length relation.inner.fields
      → length relation.inner.fields < 2 ^ 16
      → RowSendable valid false relation.key_fields keys
      → parse_delete valid
          (message b'D' oid (b'K' ∷ encode_tuple (key_tuple keys others)))
          relation_map
        ≡ panic
  unfolding parse_delete get_old_tuple_data
  parse_delete-wide keys some_other wide fits h = ground (
    arith,
    find_relation-message valid relation_map oid relation known oid_fits b'D'
        (b'K' ∷ encode_tuple (key_tuple keys others)),
    first.identity,
    first.columns,
    append-nil (encode_tuple (key_tuple keys others)),
    parse_keys-wide valid relation.key_fields relation.key_indexes keys others [] some_other
        (omega (arith, first.columns)) (omega (arith, first.columns)) h,
  )
