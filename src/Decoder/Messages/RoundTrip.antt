-- ===== src/Decoder/Messages/RoundTrip.antt =====
-- The change messages that PostgreSQL sends, without key tuples, are read back.
use cdc_connector.Prelude.{
  ℕ, suc, ◌+◌, ◌^◌, ◌<◌, ◌≡◌, Bool, true, false, List, [], ◌∷◌, ◌++◌, ok, some, Bytes, length, drop,
  arith, length-append, drop-append, append-nil, nat_eq,
}
use cdc_connector.Bytes.{to_be_bytes, from_be-to_be_32}
use cdc_connector.HashMap.{lookup}
use cdc_connector.Avro.Kind.{ReplicaKind}
use cdc_connector.Avro.Relation.{field_access}
use cdc_connector.Avro.Event.{Op}
use cdc_connector.Decoder.Errors.{Utf8}
use cdc_connector.Decoder.RelationData.{RelationData}
use cdc_connector.Decoder.TupleData.Encode.{Cell, encode_tuple, RowSendable, values}
use cdc_connector.Decoder.TupleData.RoundTrip.{parse-encode}
use cdc_connector.Decoder.Messages.{
  RelationMap, get_old_tuple_data, get_new_tuple_data, find_relation, parse_insert, old_or_empty,
  parse_update, parse_delete,
}

-- A change message: its tag, the relation, and the rest.
abbrev pub message : ℕ → ℕ → Bytes → Bytes
message tag oid tail = tag ∷ to_be_bytes 4 oid ++ tail

-- What follows the old tuple of an update.
behind :
    (oid : ℕ) (old new : List Cell)
    → drop
        (length (encode_tuple old) + 1 + 5)
        (message b'U' oid (b'O' ∷ encode_tuple old ++ b'N' ∷ encode_tuple new))
      ≡ b'N' ∷ encode_tuple new
behind oid old new = rw six (drop-append (encode_tuple old) (b'N' ∷ encode_tuple new))
  where
    six :
        length (encode_tuple old) + 1 + 5
        ≡ suc (suc (suc (suc (suc (suc (length (encode_tuple old)))))))
    six = omega arith

module _ (valid : Utf8) (relation_map : RelationMap) (oid : ℕ) (relation : RelationData)
    (known : lookup oid relation_map ≡ some relation) (oid_fits : oid < 2 ^ 32) where
  pub find_relation-message :
      (tag : ℕ) (tail : Bytes)
      → find_relation (message tag oid tail) relation_map ≡ ok (oid, relation)
  unfolding find_relation
  find_relation-message tag tail = ground (arith, from_be-to_be_32 oid)

  module _ (few : length relation.inner.fields < 2 ^ 16) where
    get_new-encode :
        (is_update : Bool) (cells : List Cell)
        → RowSendable valid is_update relation.inner.fields cells
        → get_new_tuple_data valid (b'N' ∷ encode_tuple cells) relation.inner.fields is_update
          ≡ ok (values cells)
    unfolding get_new_tuple_data
    get_new-encode is_update cells h =
        rw (rw append-nil at (parse-encode valid relation.inner.fields is_update cells [] few h))

    get_old-encode :
        (cells : List Cell) (rest : Bytes)
        → relation.inner.replica_id ≡ ReplicaKind.row
        → RowSendable valid false relation.inner.fields cells
        → get_old_tuple_data valid (b'O' ∷ encode_tuple cells ++ rest) relation
          ≡ ok (values cells, length (encode_tuple cells) + 1)
    unfolding get_old_tuple_data
    get_old-encode cells rest r h =
        rw (r, parse-encode valid relation.inner.fields false cells rest few h)

    -- An insert of a known relation is read as the insert of the values that were sent.
    pub parse_insert-encode :
        (cells : List Cell)
        → RowSendable valid false relation.inner.fields cells
        → parse_insert valid (message b'I' oid (b'N' ∷ encode_tuple cells)) relation_map
          ≡ ok (
            record { op = Op.insert (values cells); rel = relation.inner.relation_oid },
            relation,
          )
    unfolding parse_insert
    parse_insert-encode cells h = ground (
      arith,
      find_relation-message b'I' (b'N' ∷ encode_tuple cells),
      get_new-encode false cells h,
    )

    -- With the full replica identity an update is read as the old and the new values that were sent.
    pub parse_update-encode :
        (old new : List Cell)
        → relation.inner.replica_id ≡ ReplicaKind.row
        → RowSendable valid false relation.inner.fields old
        → RowSendable valid true relation.inner.fields new
        → parse_update valid
            (message b'U' oid (b'O' ∷ encode_tuple old ++ b'N' ∷ encode_tuple new))
            relation_map
          ≡ ok (record { op = Op.update (values old) (values new); rel = oid }, relation)
    unfolding parse_update old_or_empty
    parse_update-encode old new r ho hn = ground (
      arith,
      find_relation-message b'U' (b'O' ∷ encode_tuple old ++ b'N' ∷ encode_tuple new),
      get_old-encode old (b'N' ∷ encode_tuple new) r ho,
      get_new-encode true new hn,
      length-append (encode_tuple old) (b'N' ∷ encode_tuple new),
      behind oid old new,
    )

    -- An update with no old tuple is read as one with an empty old row.
    pub parse_update-encode_new :
        (new : List Cell)
        → RowSendable valid true relation.inner.fields new
        → parse_update valid (message b'U' oid (b'N' ∷ encode_tuple new)) relation_map
          ≡ ok (record { op = Op.update [] (values new); rel = oid }, relation)
    unfolding parse_update old_or_empty get_old_tuple_data
    parse_update-encode_new new hn =
        ground
          (arith, find_relation-message b'U' (b'N' ∷ encode_tuple new), get_new-encode true new hn)

    -- With the full replica identity a delete is read as the old values that were sent.
    pub parse_delete-encode :
        (old : List Cell)
        → relation.inner.replica_id ≡ ReplicaKind.row
        → RowSendable valid false relation.inner.fields old
        → parse_delete valid (message b'D' oid (b'O' ∷ encode_tuple old)) relation_map
          ≡ ok (record { op = Op.delete (values old); rel = oid }, relation)
    unfolding parse_delete
    parse_delete-encode old r ho = ground (
      arith,
      find_relation-message b'D' (b'O' ∷ encode_tuple old),
      append-nil (encode_tuple old),
      get_old-encode old [] r ho,
    )
