-- ===== src/Pipeline/Tests.antt =====
-- The theorems about the producer and a sink over a broker, at a concrete transaction.
use cdc_connector.Prelude.{
  ◌≡◌, refl, true, false, List, [], ◌∷◌, ◌++◌, none, ok, codes, pos, map, arith,
}
use cdc_connector.Avro.Value.{PgValue}
use cdc_connector.Avro.Event.{merge_toasted}
use cdc_connector.Decoder.TupleData
use cdc_connector.Decoder.Messages.{parse_insert, find_relation, get_new_tuple_data}
use cdc_connector.Wal.{
  Session, Received, event, xlog_data, begin, commit, keep_alive, wal_loop, handle, xlog, change,
  send_to_producer, after_send, begin_transaction, close,
}
use cdc_connector.Sink.{Consumer, consume, message, table_names_of}
use cdc_connector.Producer.{lsn_record, read_lsn, cdc_producer, send}
use cdc_connector.Producer.Topics.{delivered}
use cdc_connector.Postgres.Relations
use cdc_connector.Postgres.Relations.{from_rels}
use cdc_connector.Postgres.Sink.{
  PostgresSink, to_sql, params, postgres_sink, on_event, on_relation, apply_merged, apply,
  get_upsert, prepared_upsert, execute, executed,
}
use cdc_connector.Postgres.Database.{put}
use cdc_connector.Postgres.Replica.Events.{view}
use cdc_connector.Postgres.Replica.Memory.{memory, memory_database}
use cdc_connector.Postgres.Replica.Fixtures.{
  users, rels, start, rels-Followable, start-Current, ann,
}
use cdc_connector.Pipeline.Transaction.{changes}
use cdc_connector.Pipeline.Delivered.{stream_of, after_handed, TakesHanded, wal_loop-consume}
use cdc_connector.Pipeline.Replicated.{wal_loop-replicates}
use cdc_connector.Pipeline.Restart.{on_topic, wal_loop-read_lsn}
use cdc_connector.Pipeline.Invisible.{wal_loop-hidden}
use cdc_connector.Pipeline.Transaction.{record_of}
use cdc_connector.Producer.{event_topic, event_record, kafka_producer}
use cdc_connector.Pipeline.Fixtures.{
  sent, seen, taken, transactions, reordered, handed, valid, known, insert_tail, one_event, Kept,
  keeping, broker, producer, outside, ann_record, handed, messages, records, connection, Sends-ann,
  arrives,
}

abbrev empty_sink : Consumer (PostgresSink memory)
empty_sink = record { sink = start; committed = [] }

takes_seen : TakesHanded (postgres_sink memory) start seen
unfolding to_sql params on_event on_relation apply_merged apply merge_toasted get_upsert
    prepared_upsert execute executed from_rels Relations.update table_names_of
takes_seen = (refl, ((λ e. cc), tt))

wal_loop-consume_example :
    (k : Kept) × (wal_loop (cdc_producer one_event keeping producer) valid outside connection
      ≡ ok (record {
        producer = k;
        relation_map = known;
        in_transaction = false;
        applied = 40 ∷ [];
      }))
    × (k.0 ≡ map record_of sent)
    × (consume
          (postgres_sink memory)
          one_event
          (codes "cdc")
          empty_sink
          (stream_of (map record_of seen))
        ≡ ok (record {
          sink = after_handed (postgres_sink memory) start seen;
          committed = delivered ann_record ∷ [];
        }))
wal_loop-consume_example =
    wal_loop-consume (postgres_sink memory) one_event (codes "cdc") (codes "k") valid keeping broker
      outside known connection sent seen transactions (40 ∷ []) empty_sink refl arrives taken
      reordered takes_seen

ann_in_topic : ann_record.topic ≡ event_topic (codes "cdc") users.namespace users.name
unfolding event_record kafka_producer
ann_in_topic = refl

wal_loop-replicates_example :
    (s' : Session Kept) × (c' : Consumer (PostgresSink memory)) × (wal_loop
        (cdc_producer one_event keeping producer)
        valid
        outside
        connection
      ≡ ok s')
    × (s'.producer.0 ≡ map record_of sent)
    × (consume
          (postgres_sink memory)
          one_event
          (codes "cdc")
          empty_sink
          (stream_of (map record_of seen))
        ≡ ok c')
    × (view memory memory_database users c'.sink.client
        ≡ put (PgValue.int4 (pos 1) ∷ []) ann (λ k. none))
wal_loop-replicates_example =
    wal_loop-replicates memory memory_database rels rels-Followable 1 users refl one_event
      (codes "cdc") (codes "k") valid keeping broker outside known connection sent seen transactions
      (40 ∷ []) empty_sink refl arrives taken reordered start-Current
      (refl, ((users, refl, (refl, refl), ann_in_topic), (tt, tt))) takes_seen

wal_loop-read_lsn_example :
    (wal_loop
        (cdc_producer one_event keeping producer)
        valid
        outside
        (event begin ∷ changes messages ++ event (commit 40 41) ∷ [])
      ≡ wal_loop
          (cdc_producer one_event keeping producer)
          valid
          (record {
            producer = (records ++ lsn_record producer 41 ∷ [], []);
            relation_map = known;
            in_transaction = false;
            applied = 40 ∷ [];
          })
          [])
    × (read_lsn 0
          (map message (on_topic producer.lsn_topic (records ++ lsn_record producer 41 ∷ [])))
        ≡ ok 41)
wal_loop-read_lsn_example =
    wal_loop-read_lsn valid one_event keeping producer broker outside known messages handed records
      40 41 [] refl Sends-ann (omega arith) taken.0
      (on_topic producer.lsn_topic (records ++ lsn_record producer 41 ∷ [])) refl

abbrev cut_off : List Received
cut_off = event begin ∷ event (xlog_data (b'I' ∷ insert_tail)) ∷ event keep_alive ∷ []

-- A session behind an earlier transaction.
abbrev later : Session Kept
later = record {
  producer = (lsn_record producer 7 ∷ [], []);
  relation_map = known;
  in_transaction = false;
  applied = [];
}

abbrev aborted : Session Kept
aborted = record {
  producer = (lsn_record producer 7 ∷ [], []);
  relation_map = known;
  in_transaction = true;
  applied = [];
}

runs_cut_off : wal_loop (cdc_producer one_event keeping producer) valid later cut_off ≡ ok aborted
unfolding wal_loop handle xlog change send_to_producer after_send begin_transaction close send
    parse_insert find_relation get_new_tuple_data TupleData.parse TupleData.parse_each
    TupleData.parse_value TupleData.parse_binary_value TupleData.parse_binary
    TupleData.parse_text_value
runs_cut_off = refl

wal_loop-hidden_example : broker.visible aborted.producer ≡ broker.visible later.producer
wal_loop-hidden_example =
    wal_loop-hidden valid one_event keeping producer broker later aborted cut_off
      (tt, (tt, (tt, tt))) runs_cut_off
