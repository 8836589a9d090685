-- ===== src/Feldera/Main.antt =====
-- The start of feldera-connector/src/main.rs: `FelderaConfig` and `main`.
use cdc_connector.Prelude.{ℕ, ◌≡◌, [], some, Text, Outcome, ok, nat_eq, All}
use cdc_connector.HashMap.{HashMap}
use cdc_connector.Avro.Relation.{Relation}
use cdc_connector.Avro.Codec.{AvroCodec}
use cdc_connector.Sink.{KafkaError, Consumer}
use cdc_connector.Sink.Client.{
  KafkaConfig, StreamConsumer, KafkaClient, run_connector, connect, load_all_relations,
  consume_from_kafka, subscribed_topics,
}
use cdc_connector.Sink.Dispatch.{Taken}
use cdc_connector.Feldera.{Api, FelderaConnector, feldera_connector, feldera_sink}
use cdc_connector.Feldera.NoPanic.{consume-feldera}

pub record FelderaConfig : Type 0 where
  pub url : Text
  pub pipeline : Text

module _ (A : Api) (R : StreamConsumer) (avro : AvroCodec) (new_client : Text → A.State)
    (kafka : KafkaConfig) (feldera : FelderaConfig) where
  -- `main`, on the two configurations; `new_client` is `Client::new`.
  unfoldable pub main_feldera : Outcome KafkaError (Consumer (FelderaConnector A))
  main_feldera =
      run_connector R (feldera_sink A) avro kafka (λ relations.
        some (feldera_connector A (new_client feldera.url) feldera.pipeline relations))

  -- Where Kafka is connected, the relations are loaded and the topics are subscribed to, the
  -- connector, in a build without overflow checks, consumes whatever the stream yields to its end without a panic, and commits only
  -- messages whose events the sink took.
  pub main_feldera-consumes :
      (connected loaded : KafkaClient R) (relations : HashMap ℕ Relation) (subscribed : R.State)
      → connect R kafka ≡ ok connected
      → load_all_relations R avro connected ≡ ok (loaded, relations)
      → R.subscribe loaded.consumer (subscribed_topics R loaded.topic) ≡ some subscribed
      → (c : Consumer (FelderaConnector A)) × (main_feldera ≡ ok c)
        × All (Taken (feldera_sink A) avro loaded.topic) c.committed
  unfolding main_feldera run_connector consume_from_kafka
  main_feldera-consumes connected loaded relations subscribed con load sub =
      let sink = feldera_connector A (new_client feldera.url) feldera.pipeline relations in
      let (c, e, sound) =
        consume-feldera A avro loaded.topic (record { sink = sink; committed = [] })
          (R.events subscribed) tt in
      (c, rw (con, load, sub) e, sound)
