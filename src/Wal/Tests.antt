-- ===== src/Wal/Tests.antt =====
-- The theorems about the loop of cdc-wal-reader/src/lib.rs at concrete sequences of events.
use cdc_connector.Prelude.{
  ℕ, suc, ◌≡◌, refl, true, false, List, [], ◌∷◌, ◌++◌, some, none, ok, Text, Bytes, codes, pos, map,
  length,
}
use cdc_connector.Avro.Kind.{FieldKind, ReplicaKind}
use cdc_connector.Avro.Value.{PgValue}
use cdc_connector.Avro.Event.{Op, ChangeEvent}
use cdc_connector.Decoder.Errors.{Utf8}
use cdc_connector.Decoder.RelationData.{RelationData}
use cdc_connector.Decoder.TupleData
use cdc_connector.Decoder.Messages.{RelationMap, parse_insert, find_relation, get_new_tuple_data}
use cdc_connector.Wal.{
  Producer, xlog_data, begin, commit, keep_alive, Received, event, Session, wal_loop,
  start_wal_input, handle, after_commit, begin_transaction, close,
}
use cdc_connector.Wal.Recorded.{Call, Log, recorded}
use cdc_connector.Wal.Protocol.{
  Request, Asked, asked, phase_after, open_after, commits, start_wal_input-Closed,
}
use cdc_connector.Wal.Delivery.{
  Decodes, inserted, AllDecode, AllQuiet, keep_alive_event, commit_event, wal_loop-transaction,
  wal_loop-failed_send,
}
use cdc_connector.Wal.FailedCommit.{wal_loop-failed_commit}
use cdc_connector.Wal.Identity.{Database, DbTopic, alter_table, alter_tables}

abbrev valid : Utf8
valid _ = true

-- A producer that takes everything.
abbrev accepting : Producer
accepting = record {
  State = Unit;
  start_transaction = λ s. (s, none);
  send = λ s r e. (s, none);
  on_relation = λ s r. (s, none);
  commit_transaction = λ s n. (s, none);
  abort_transaction = λ s. (s, none);
}

-- A producer that counts, and whose sends fail.
abbrev failing : Producer
failing = record {
  State = ℕ;
  start_transaction = λ n. (suc n, none);
  send = λ n r e. (suc n, some (codes "timeout"));
  on_relation = λ n r. (suc n, none);
  commit_transaction = λ n lsn. (suc n, none);
  abort_transaction = λ n. (suc n, none);
}

abbrev users : RelationData
users = record {
  inner = record {
    relation_oid = 1;
    name = codes "users";
    namespace = codes "public";
    fields = record { is_key = true; name = codes "id"; kind = FieldKind.int4 } ∷ [];
    replica_id = ReplicaKind.keys;
  };
  key_fields = record { name = codes "id"; kind = FieldKind.int4 } ∷ [];
  key_indexes = 0 ∷ [];
}

abbrev relations : RelationMap
relations = (1, users) ∷ []

abbrev insert_tail : Bytes
insert_tail = 0 ∷ 0 ∷ 0 ∷ 1 ∷ b'N' ∷ 0 ∷ 1 ∷ b'b' ∷ 0 ∷ 0 ∷ 0 ∷ 4 ∷ 0 ∷ 0 ∷ 0 ∷ 9 ∷ []

abbrev nine : ChangeEvent
nine = record { op = Op.insert (PgValue.int4 (pos 9) ∷ []); rel = 1 }

decodes_nine : Decodes valid relations nine users (b'I' ∷ insert_tail)
unfolding parse_insert find_relation get_new_tuple_data TupleData.parse TupleData.parse_each
    TupleData.parse_value TupleData.parse_binary_value TupleData.parse_binary
decodes_nine = inserted insert_tail refl

abbrev outside : Session (Log Unit)
outside = record {
  producer = record { inner = tt; calls = [] };
  relation_map = relations;
  in_transaction = false;
  applied = [];
}

wal_loop-transaction_example :
    (p : Unit {0}) × (wal_loop (recorded accepting) valid outside (
        event begin ∷ map (λ m. event (xlog_data m)) ((b'I' ∷ insert_tail) ∷ [])
        ++ event (commit 40 41) ∷ [])
      ≡ wal_loop
          (recorded accepting)
          valid
          (record {
            producer = record {
              inner = p;
              calls = Call.commit 41 none ∷ Call.send nine none ∷ Call.start ∷ [];
            };
            relation_map = relations;
            in_transaction = false;
            applied = 40 ∷ [];
          })
          [])
wal_loop-transaction_example =
    wal_loop-transaction accepting valid (λ p r e. refl) outside ((b'I' ∷ insert_tail) ∷ [])
      (nine ∷ []) 40 41 [] (λ p n. refl) refl (AllDecode.cons decodes_nine AllDecode.nil)

abbrev inside : Session ℕ
inside = record { producer = 0; relation_map = relations; in_transaction = true; applied = [] }

wal_loop-failed_send_example :
    wal_loop failing valid inside (
      event (xlog_data (b'I' ∷ insert_tail)) ∷ map event (keep_alive ∷ commit 40 41 ∷ [])
      ++ event begin ∷ [])
    ≡ wal_loop failing valid
        (record { producer = 2; relation_map = relations; in_transaction = false; applied = [] })
        (event begin ∷ [])
wal_loop-failed_send_example =
    wal_loop-failed_send failing valid inside nine users (b'I' ∷ insert_tail) (codes "timeout")
      (keep_alive ∷ commit 40 41 ∷ []) (event begin ∷ []) decodes_nine refl refl
      (AllQuiet.cons keep_alive_event (AllQuiet.cons (commit_event 40 41) AllQuiet.nil))

abbrev cut_off : List Received
cut_off = event begin ∷ event (commit 40 41) ∷ event begin ∷ []

abbrev aborted : Session (Asked Unit)
aborted = record {
  producer = record {
    inner = tt;
    calls =
        (Request.abort, none)
        ∷ (Request.start, none)
        ∷ (Request.commit_at 41, none)
        ∷ (Request.start, none)
        ∷ [];
  };
  relation_map = [];
  in_transaction = true;
  applied = 40 ∷ [];
}

runs_cut_off :
    start_wal_input (asked accepting) valid (record { inner = tt; calls = [] }) cut_off ≡ ok aborted
unfolding start_wal_input wal_loop handle begin_transaction after_commit close
runs_cut_off = refl

start_wal_input-Closed_example :
    (open_after aborted.producer.calls ≡ some false)
    × (commits aborted.producer.calls ≡ length aborted.applied)
start_wal_input-Closed_example =
    start_wal_input-Closed accepting valid tt cut_off aborted runs_cut_off
      (refl, (refl, (refl, (refl, tt))))

-- Behind a refused commit, the next start breaks the protocol.
refused_commit :
    open_after (
      (Request.start, none)
      ∷ (Request.commit_at 41, some (codes "timeout"))
      ∷ (Request.start, none)
      ∷ [])
    ≡ none
unfolding open_after phase_after
refused_commit = refl

-- A database that keeps the statements.
abbrev log_database : Database
log_database = record { State = List Text; query = λ s t. ok []; execute = λ s t. ok (t ∷ s) }

abbrev topics : List DbTopic
topics = record { name = codes "users"; namespace = codes "public" } ∷ []

abbrev altered : List Text
altered = map (alter_table (codes "FULL")) topics

altering : alter_tables log_database [] (codes "FULL") topics ≡ ok (altered, topics)
unfolding alter_tables
altering = refl

-- A producer whose commits fail.
abbrev refusing : Producer
refusing = record {
  State = Unit;
  start_transaction = λ s. (s, none);
  send = λ s r e. (s, none);
  on_relation = λ s r. (s, none);
  commit_transaction = λ s n. (s, some (codes "timeout"));
  abort_transaction = λ s. (s, none);
}

abbrev opened : Session (Log Unit)
opened = record {
  producer = record { inner = tt; calls = Call.start ∷ [] };
  relation_map = [];
  in_transaction = true;
  applied = [];
}

wal_loop-failed_commit_example :
    wal_loop (recorded refusing) valid opened (event (commit 40 41) ∷ event begin ∷ [])
    ≡ wal_loop
        (recorded refusing)
        valid
        (record {
          producer = record {
            inner = tt;
            calls = Call.start ∷ Call.commit 41 (some (codes "timeout")) ∷ Call.start ∷ [];
          };
          relation_map = [];
          in_transaction = true;
          applied = [];
        })
        []
wal_loop-failed_commit_example =
    wal_loop-failed_commit refusing valid opened 40 41 (codes "timeout") [] refl refl
