-- ===== src/Sink/Client.antt =====
-- `KafkaConfig` and `KafkaClient` of cdc-sink/src/lib.rs, and what the mains of the two connectors
-- (postgres-connector/src/main.rs, feldera-connector/src/main.rs) share.
use cdc_connector.Prelude.{
  ℕ, List, [], ◌∷◌, ◌++◌, Option, none, some, Text, codes, Outcome, ok, err, ◌>>=◌, expect,
  expect_ok, ◌⊎◌, inl, inr,
}
use cdc_connector.HashMap.{HashMap}
use cdc_connector.Avro.Relation.{Relation}
use cdc_connector.Avro.Codec.{AvroCodec}
use cdc_connector.Sink.{
  KafkaSink, KafkaError, subscription, Streamed, Consumer, load_relations, consume,
}

pub record KafkaConfig : Type 0 where
  pub brokers : Text
  pub topic : Text
  pub groupid : Text

abbrev pub default_topic : Text
default_topic = codes "cdc"

abbrev pub default_group : Text
default_group = codes "default"

-- A configuration as it is read: what is left out has its default.
unfoldable pub kafka_config : (brokers : Text) (topic groupid : Option Text) → KafkaConfig
kafka_config brokers topic groupid = record {
  brokers = brokers;
  topic = or_default topic default_topic;
  groupid = or_default groupid default_group;
}
  where
    or_default : Option Text → Text → Text
    or_default none d = d
    or_default (some t) d = t

-- `StreamConsumer` and `TopicPartitionList` of the crate rdkafka. Metadata is the numbers of the
-- partitions of each topic that is returned; a list of partitions is to be read from the beginning.
-- `replay` is what the stream yields within the time that load_relations gives it, `events` what it
-- yields behind a subscription.
pub record StreamConsumer : Type 1 where
  pub State : Type 0
  pub Partitions : Type 0
  pub create : KafkaConfig → Option State
  pub fetch_metadata : State → Text → Outcome KafkaError (List (List ℕ))
  pub no_partitions : Partitions
  -- `add_partition_offset(.., Offset::Beginning)`, with the text of an error.
  pub add_partition : Partitions → Text → ℕ → Text ⊎ Partitions
  pub assign : State → Partitions → Outcome KafkaError State
  pub replay : State → List Streamed
  pub subscribe : State → List Text → Option State
  pub events : State → List Streamed

module _ (R : StreamConsumer) where
  -- `KafkaClient`
  pub record KafkaClient : Type 0 where
    pub consumer : R.State
    pub topic : Text

  -- `KafkaConfig::connect`
  unfoldable pub connect : KafkaConfig → Outcome KafkaError KafkaClient
  connect config = do
    consumer ← expect (R.create config)
    ok (record { consumer = consumer; topic = config.topic })

  -- `map_err` of an addition.
  abbrev pub added : Text ⊎ R.Partitions → Outcome KafkaError R.Partitions
  added (inl e) = err (subscription e)
  added (inr partitions) = ok partitions

  -- The loop over the partitions of a topic.
  unfoldable pub add_partitions : R.Partitions → Text → List ℕ → Outcome KafkaError R.Partitions
  add_partitions tpl topic [] = ok tpl
  add_partitions tpl topic (id ∷ ids) = do
    tpl' ← added (R.add_partition tpl topic id)
    add_partitions tpl' topic ids

  -- `topics().first().ok_or_else(..)`
  abbrev pub first_topic : Text → List (List ℕ) → Outcome KafkaError (List ℕ)
  first_topic topic [] = err (subscription (codes "topic " ++ (topic ++ codes " not found")))
  first_topic topic (partitions ∷ _) = ok partitions

  unfoldable pub reset_committed_offsets_and_assign : R.State → Text → Outcome KafkaError R.State
  reset_committed_offsets_and_assign s topic = do
    metadata ← R.fetch_metadata s topic
    ids ← first_topic topic metadata
    tpl ← add_partitions R.no_partitions topic ids
    R.assign s tpl

  -- `KafkaClient::load_relations`, around the loop `load_relations`.
  unfoldable pub load_all_relations :
      AvroCodec → KafkaClient → Outcome KafkaError (KafkaClient × HashMap ℕ Relation)
  load_all_relations avro c = do
    s ← reset_committed_offsets_and_assign c.consumer (c.topic ++ codes ".relations")
    relations ← load_relations avro [] (R.replay s)
    ok (record c { consumer = s }, relations)

  -- The topics that are subscribed to; the first is a regular expression.
  abbrev pub subscribed_topics : Text → List Text
  subscribed_topics topic =
      (codes "^" ++ (topic ++ codes "\\.events\\..*")) ∷ (topic ++ codes ".relations") ∷ []

  module _ (S : KafkaSink) (avro : AvroCodec) where
    -- `KafkaClient::consume_from_kafka`, around the loop `consume`.
    unfoldable pub consume_from_kafka :
        KafkaClient → S.State → Outcome KafkaError (Consumer S.State)
    consume_from_kafka c sink = do
      s ← expect (R.subscribe c.consumer (subscribed_topics c.topic))
      consume S avro c.topic (record { sink = sink; committed = [] }) (R.events s)

    -- The main of a connector behind its configuration, with the making of its sink.
    unfoldable pub run_connector :
        KafkaConfig → (HashMap ℕ Relation → Option S.State) → Outcome KafkaError (Consumer S.State)
    run_connector config new_sink = do
      kafka ← connect config
      (kafka', relations) ← expect_ok (load_all_relations avro kafka)
      sink ← expect (new_sink relations)
      consume_from_kafka kafka' sink
