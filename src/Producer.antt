-- ===== src/Producer.antt =====
-- cdc-producer/src/main.rs: the producer that writes to Kafka, the reading of the last LSN, and the
-- creation of topics. `Wal` drives the producer through the interface `Wal.Producer`.
mod Tests
pub mod Topics
pub mod Lsn
pub mod Main
use cdc_connector.Prelude.{
  ℕ, Bool, true, false, List, [], ◌∷◌, ◌++◌, Option, none, some, Bytes, Text, codes, Outcome, ok,
  err, ◌>>=◌, ◌==◌, if◌then◌else◌, length, ◌⊎◌, inl, inr, ◌||◌,
}
use cdc_connector.Bytes.{to_be_bytes, from_be_bytes}
use cdc_connector.Avro.Relation.{Relation}
use cdc_connector.Avro.Event.{ChangeEvent}
use cdc_connector.Avro.Codec.{AvroCodec}
use cdc_connector.Wal
use cdc_connector.Wal.{Reply}
use cdc_connector.Wal.Identity.{DbTopic}
use cdc_connector.Sink.{Streamed, message, kafka_error, KafkaError, stream_error}

-- A `FutureRecord` of the crate rdkafka.
pub record FutureRecord : Type 0 where
  pub topic : Text
  pub key : Bytes
  pub payload : Bytes

-- `FutureProducer` of the crate rdkafka: the calls made of it, as effects on its state with the
-- text of an error.
pub record FutureProducer : Type 1 where
  pub State : Type 0
  pub begin_transaction : State → State × Reply
  pub send : State → FutureRecord → State × Reply
  pub commit_transaction : State → State × Reply
  pub abort_transaction : State → State × Reply

-- `KafkaProducer` without the client.
pub record KafkaProducer : Type 0 where
  pub topic : Text
  pub lsn_topic : Text
  pub rel_topic : Text
  pub key : Text

-- `KafkaProducer::new` behind the connection, on the topic and the key of the configuration.
unfoldable pub kafka_producer : Text → Text → KafkaProducer
kafka_producer topic key = record {
  topic = topic;
  lsn_topic = topic ++ codes ".lsn";
  rel_topic = topic ++ codes ".relations";
  key = key;
}

-- The records that are sent.
unfoldable pub event_topic : Text → Text → Text → Text
event_topic topic namespace name = topic ++ (codes ".events." ++ (namespace ++ (codes "." ++ name)))

unfoldable pub event_record : KafkaProducer → Relation → Bytes → FutureRecord
event_record p relation payload = record {
  topic = event_topic p.topic relation.namespace relation.name;
  key = p.key;
  payload = payload;
}

unfoldable pub relation_record : KafkaProducer → Relation → Bytes → FutureRecord
relation_record p relation payload = record {
  topic = p.rel_topic;
  key = to_be_bytes 4 relation.relation_oid;
  payload = payload;
}

unfoldable pub lsn_record : KafkaProducer → ℕ → FutureRecord
lsn_record p lsn = record { topic = p.lsn_topic; key = codes "lsn"; payload = to_be_bytes 8 lsn }

module _ (avro : AvroCodec) (K : FutureProducer) (p : KafkaProducer) where
  unfoldable pub send : K.State → Relation → ChangeEvent → K.State × Reply
  send s relation event = elim (avro.event_into_avro event) [
    | inl e ↦ (s, some e)
    | inr payload ↦ K.send s (event_record p relation payload)
  ]

  unfoldable pub on_relation : K.State → Relation → K.State × Reply
  on_relation s relation = elim (avro.relation_into_avro relation) [
    | inl e ↦ (s, some e)
    | inr payload ↦ K.send s (relation_record p relation payload)
  ]

  -- The LSN is written inside the transaction that it ends.
  unfoldable pub commit_transaction : K.State → ℕ → K.State × Reply
  commit_transaction s lsn =
      let (s', reply) = K.send s (lsn_record p lsn) in
      elim reply [ some e ↦ (s', some e) | none ↦ K.commit_transaction s' ]

  -- `impl CdcProducer for KafkaProducer`
  abbrev pub cdc_producer : Wal.Producer
  cdc_producer = record {
    State = K.State;
    start_transaction = K.begin_transaction;
    send = send;
    on_relation = on_relation;
    commit_transaction = commit_transaction;
    abort_transaction = K.abort_transaction;
  }

-- `u64::from_be_bytes` of a payload that converts to eight bytes.
unfoldable pub take_lsn : ℕ → Option Bytes → ℕ
take_lsn latest_lsn none = latest_lsn
take_lsn latest_lsn (some lsn_bytes) =
    if length lsn_bytes == 8 then from_be_bytes lsn_bytes else latest_lsn

-- The loop of `read_lsn`, which starts from 0; the list ends with the stream or the timeout.
unfoldable pub read_lsn : ℕ → List Streamed → Outcome KafkaError ℕ
read_lsn latest_lsn [] = ok latest_lsn
read_lsn latest_lsn (message m ∷ rest) = read_lsn (take_lsn latest_lsn m.payload) rest
read_lsn latest_lsn (kafka_error ∷ rest) = err stream_error

-- `NewTopic` and `AdminClient` of the crate rdkafka. Metadata is the number of partitions of each
-- topic that is returned.
pub record NewTopic : Type 0 where
  pub name : Text
  pub partitions : ℕ
  pub replication : ℕ
  pub compact : Bool

pub record AdminClient : Type 1 where
  pub State : Type 0
  pub fetch_metadata : State → Text → Outcome KafkaError (List ℕ)
  pub create_topics : State → NewTopic → Outcome KafkaError State

-- `metadata.topics().is_empty() || metadata.topics()[0].partitions().is_empty()`
abbrev pub is_missing : List ℕ → Bool
is_missing [] = true
is_missing (partitions ∷ _) = partitions == 0

module _ (A : AdminClient) where
  unfoldable pub ensure_topic : A.State → Text → ℕ → ℕ → Bool → Outcome KafkaError A.State
  ensure_topic s topic partitions replication compact = A.fetch_metadata s topic >>= λ metadata.
      if is_missing metadata
      then A.create_topics s (record {
        name = topic;
        partitions = partitions;
        replication = replication;
        compact = compact;
      })
      else ok s

  unfoldable pub ensure_db_topics : A.State → Text → List DbTopic → Outcome KafkaError A.State
  ensure_db_topics s topic [] = ok s
  ensure_db_topics s topic (db_topic ∷ rest) = do
    s' ← ensure_topic s (event_topic topic db_topic.namespace db_topic.name) 1 1 false
    ensure_db_topics s' topic rest

  -- `check_topics`, on the topic of the configuration.
  unfoldable pub check_topics : A.State → Text → List DbTopic → Outcome KafkaError A.State
  check_topics s topic db_topics = do
    s1 ← ensure_topic s (topic ++ codes ".lsn") 1 1 true
    s2 ← ensure_topic s1 (topic ++ codes ".relations") 1 1 true
    ensure_db_topics s2 topic db_topics
