-- ===== src/Wal/DroppedTests.antt =====
-- The theorems about messages that are not decoded at concrete transactions.
use cdc_connector.Prelude.{
  ◌≡◌, refl, true, false, List, [], ◌∷◌, ◌++◌, none, panic, pos, codes, arith,
}
use cdc_connector.Avro.Kind.{FieldKind, ReplicaKind}
use cdc_connector.Avro.Relation.{Field}
use cdc_connector.Decoder.Errors.{Utf8}
use cdc_connector.Decoder.RelationData.{RelationData, key_field_access}
use cdc_connector.Decoder.TupleData.Encode.{
  Cell, binary_int4, text_format, encode_tuple, RowSendable,
}
use cdc_connector.Decoder.TupleData.KeyTuples.{count_from, key_tuple}
use cdc_connector.Decoder.Messages.RoundTrip.{message}
use cdc_connector.Decoder.Messages.Keys.{KeysFirst}
use cdc_connector.Wal.{Producer, Session, event, xlog_data, commit, wal_loop}
use cdc_connector.Wal.Dropped.{wal_loop-lost_update, wal_loop-wide_delete}

abbrev valid : Utf8
valid _ = true

abbrev accepting : Producer
accepting = record {
  State = Unit;
  start_transaction = λ s. (s, none);
  send = λ s r e. (s, none);
  on_relation = λ s r. (s, none);
  commit_transaction = λ s n. (s, none);
  abort_transaction = λ s. (s, none);
}

abbrev name_field : Field
name_field = record { is_key = false; name = codes "name"; kind = FieldKind.text }

abbrev users : List Field → RelationData
users more = record {
  inner = record {
    relation_oid = 1;
    name = codes "users";
    namespace = codes "public";
    fields = record { is_key = true; name = codes "id"; kind = FieldKind.int4 } ∷ name_field ∷ more;
    replica_id = ReplicaKind.keys;
  };
  key_fields = record { name = codes "id"; kind = FieldKind.int4 } ∷ [];
  key_indexes = 0 ∷ [];
}

abbrev wide : List Field
wide = name_field ∷ name_field ∷ name_field ∷ name_field ∷ name_field ∷ []

abbrev inside : List Field → Session Unit
inside more = record {
  producer = tt;
  relation_map = (1, users more) ∷ [];
  in_transaction = true;
  applied = [];
}

abbrev old_key : Cell
old_key = binary_int4 (pos 7)

abbrev new_row : List Cell
new_row = binary_int4 (pos 8) ∷ text_format (codes "ann") ∷ []

key-RowSendable : RowSendable valid false (users []).key_fields (old_key ∷ [])
key-RowSendable = ((refl, omega arith), tt)

narrow-KeysFirst : KeysFirst (users []) 1
unfolding count_from
narrow-KeysFirst = record { identity = refl; positions = refl; columns = refl }

wide-KeysFirst : KeysFirst (users wide) 6
unfolding count_from
wide-KeysFirst = record { identity = refl; positions = refl; columns = refl }

wal_loop-lost_update_example :
    wal_loop accepting valid (inside []) (
      event (
        xlog_data (
          message b'U' 1
            (b'K' ∷ encode_tuple (key_tuple (old_key ∷ []) 1) ++ b'N' ∷ encode_tuple new_row)))
      ∷ event (commit 40 41)
      ∷ [])
    ≡ wal_loop accepting valid (inside []) (event (commit 40 41) ∷ [])
wal_loop-lost_update_example =
    wal_loop-lost_update accepting valid (inside []) 1 (users []) 1 refl (omega arith)
      narrow-KeysFirst refl old_key [] new_row (event (commit 40 41) ∷ []) (omega arith)
      key-RowSendable refl

wal_loop-wide_delete_example :
    wal_loop accepting valid (inside wide) (
      event (xlog_data (message b'D' 1 (b'K' ∷ encode_tuple (key_tuple (old_key ∷ []) 6))))
      ∷ event (commit 40 41)
      ∷ [])
    ≡ panic
wal_loop-wide_delete_example =
    wal_loop-wide_delete accepting valid (inside wide) 1 (users wide) 6 refl (omega arith)
      wide-KeysFirst refl (old_key ∷ []) (event (commit 40 41) ∷ []) (omega arith) (omega arith)
      (omega arith) key-RowSendable
