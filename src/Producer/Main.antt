-- ===== src/Producer/Main.antt =====
-- `main` of cdc-producer/src/main.rs, behind its configuration.
use cdc_connector.Prelude.{
  ℕ, ◌≡◌, ◌<◌, ◌^◌, refl, Bool, List, ◌∷◌, ◌++◌, Option, some, Text, codes, Outcome, ok, ◌>>=◌,
  expect, expect_ok, map, All,
}
use cdc_connector.Avro.Codec.{AvroCodec}
use cdc_connector.Decoder.Errors.{Utf8}
use cdc_connector.Wal.{StartWalInputError, Received, Session, start_wal_input}
use cdc_connector.Wal.Identity.{Database, DbTopic, configure_replica_identity}
use cdc_connector.Sink.{KafkaError, Streamed, Message, message}
use cdc_connector.Producer.{
  FutureProducer, kafka_producer, lsn_record, cdc_producer, AdminClient, check_topics, read_lsn,
}
use cdc_connector.Producer.Topics.{delivered}
use cdc_connector.Producer.Lsn.{NoLsn, read_lsn-lsn_record}

-- `KafkaConfig` and the rest of `ProducerConfig` that is read here.
pub record ProducerConfig : Type 0 where
  pub topic : Text
  pub key : Text
  pub publication : Text
  pub will_connect_to_feldera : Bool

abbrev pub default_topic : Text
default_topic = codes "cdc"

abbrev pub default_metrics_config : ℕ
default_metrics_config = 9000

-- The connections that main makes: `KafkaProducer::new` up to `init_transactions`, the stream of the
-- LSN topic up to the timeout, and the replication connection from an LSN on with what it receives.
pub record Connections (K : FutureProducer) : Type 0 where
  pub init_transactions : Option K.State
  pub lsn_stream : Text → Outcome KafkaError (List Streamed)
  pub replicate : ℕ → Outcome StartWalInputError (List Received)

module _ (valid : Utf8) (avro : AvroCodec) (D : Database) (A : AdminClient)
    (K : FutureProducer) where
  -- `read_lsn`, around its loop.
  unfoldable pub read_last_lsn : Connections K → ProducerConfig → Outcome KafkaError ℕ
  read_last_lsn c config = do
    stream ← c.lsn_stream (config.topic ++ codes ".lsn")
    read_lsn 0 stream

  -- `start_wal_input`, with the connection to the server.
  unfoldable pub connect_wal_input :
      Connections K → ProducerConfig → ℕ → K.State → Outcome StartWalInputError (Session K.State)
  connect_wal_input c config lsn producer = do
    received ← c.replicate lsn
    start_wal_input (cdc_producer avro K (kafka_producer config.topic config.key)) valid producer
        received

  unfoldable pub main_producer :
      Connections K
      → ProducerConfig
      → D.State
      → A.State
      → Outcome StartWalInputError (Session K.State)
  main_producer c config database admin = do
    (database', db_names) ←
        configure_replica_identity D database config.publication config.will_connect_to_feldera
    admin' ← expect_ok (check_topics A admin config.topic db_names)
    lsn ← expect_ok (read_last_lsn c config)
    producer ← expect c.init_transactions
    expect_ok (connect_wal_input c config lsn producer)

  -- Where the tables are altered, the topics are there and the last LSN record in its topic is that
  -- of `lsn`, the producer connects to the server from `lsn` on, and goes through what it receives;
  -- an error of the loop ends it with a panic.
  pub main_producer-resumes :
      (c : Connections K) (config : ProducerConfig) (database database' : D.State)
      (admin admin' : A.State) (db_names : List DbTopic) (before after : List Message) (lsn : ℕ)
      (producer : K.State) (received : List Received)
      → configure_replica_identity D database config.publication config.will_connect_to_feldera
        ≡ ok (database', db_names)
      → check_topics A admin config.topic db_names ≡ ok admin'
      → c.lsn_stream (config.topic ++ codes ".lsn")
        ≡ ok (
            map message (
              before
              ++ delivered (lsn_record (kafka_producer config.topic config.key) lsn) ∷ after))
      → All (λ m. NoLsn m.payload) after
      → lsn < 2 ^ 64
      → c.init_transactions ≡ some producer
      → c.replicate lsn ≡ ok received
      → main_producer c config database admin
        ≡ expect_ok (
            start_wal_input
              (cdc_producer avro K (kafka_producer config.topic config.key))
              valid
              producer
              received)
  unfolding main_producer read_last_lsn connect_wal_input
  main_producer-resumes c config database database' admin admin' db_names before after lsn producer
        received db topics stream none_after small init replicating =
      rw
        (
          db,
          topics,
          stream,
          read_lsn-lsn_record (kafka_producer config.topic config.key) 0 lsn before after small
              none_after,
          init,
          replicating,
        )
        refl
