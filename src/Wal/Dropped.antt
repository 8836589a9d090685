-- ===== src/Wal/Dropped.antt =====
-- What the loop of cdc-wal-reader/src/lib.rs does with messages that are not decoded.
use cdc_connector.Prelude.{
  ℕ, ◌≤◌, ◌<◌, ◌^◌, ◌≡◌, refl, true, false, List, ◌∷◌, ◌++◌, some, panic, length, nat_eq,
}
use cdc_connector.HashMap.{lookup}
use cdc_connector.Avro.Relation.{field_access}
use cdc_connector.Decoder.Errors.{Utf8}
use cdc_connector.Decoder.RelationData.{RelationData, key_field_access}
use cdc_connector.Decoder.TupleData.Encode.{Cell, encode_tuple, RowSendable}
use cdc_connector.Decoder.TupleData.KeyTuples.{key_tuple}
use cdc_connector.Decoder.Messages.RoundTrip.{message}
use cdc_connector.Decoder.Messages.Keys.{KeysFirst, parse_update-key, parse_delete-wide}
use cdc_connector.Wal.{
  Producer, Session, Received, event, xlog_data, wal_loop, handle, xlog, change, send_to_producer,
}

module _ (P : Producer) (valid : Utf8) (s : Session P.State) (oid : ℕ) (relation : RelationData)
    (others : ℕ) (known : lookup oid s.relation_map ≡ some relation) (oid_fits : oid < 2 ^ 32)
    (first : KeysFirst relation others) (inside : s.in_transaction ≡ true) where
  -- Inside a transaction, an update that carries the old key, of a relation of at most six columns
  -- with the keys in front, is lost: the loop goes on as if it had not come, in the same transaction.
  pub wal_loop-lost_update :
      (key : Cell) (keys new : List Cell) (rest : List Received)
      → length relation.inner.fields ≤ 6
      → RowSendable valid false relation.key_fields (key ∷ keys)
      → length new ≡ length relation.inner.fields
      → wal_loop P valid s (
          event (
            xlog_data (
              message b'U' oid
                (b'K' ∷ encode_tuple (key_tuple (key ∷ keys) others) ++ b'N' ∷ encode_tuple new)))
          ∷ rest)
        ≡ wal_loop P valid s rest
  unfolding wal_loop handle xlog change send_to_producer
  wal_loop-lost_update key keys new rest few h same =
      rw
        (
          parse_update-key valid s.relation_map oid relation known oid_fits others first key keys
              new few h same,
          inside,
        )
        refl

  -- Inside a transaction, a delete that carries the key, of a relation of seven columns or more with
  -- the keys in front and others behind them, ends the loop with a panic.
  pub wal_loop-wide_delete :
      (keys : List Cell) (rest : List Received)
      → 1 ≤ others
      → 7 ≤ length relation.inner.fields
      → length relation.inner.fields < 2 ^ 16
      → RowSendable valid false relation.key_fields keys
      → wal_loop P valid s (
          event (xlog_data (message b'D' oid (b'K' ∷ encode_tuple (key_tuple keys others)))) ∷ rest)
        ≡ panic
  unfolding wal_loop handle xlog change send_to_producer
  wal_loop-wide_delete keys rest some_other wide fits h =
      rw
        (
          parse_delete-wide valid s.relation_map oid relation known oid_fits others first keys
              some_other wide fits h,
          inside,
        )
        refl
