-- ===== src/Postgres/Main.antt =====
-- The start of postgres-connector/src/main.rs: `PostgresConfig`, `PostgresSink::new` and `main`.
use cdc_connector.Prelude.{
  ℕ, ◌≡◌, arith, [], ◌++◌, Option, none, some, Text, codes, Outcome, ok, nat_eq, All,
}
use cdc_connector.HashMap.{HashMap}
use cdc_connector.Avro.Relation.{Relation}
use cdc_connector.Avro.Codec.{AvroCodec}
use cdc_connector.Sink.{KafkaError, Consumer}
use cdc_connector.Sink.Client.{
  KafkaConfig, StreamConsumer, KafkaClient, run_connector, connect, load_all_relations,
  consume_from_kafka, subscribed_topics,
}
use cdc_connector.Sink.Dispatch.{Taken, Carries}
use cdc_connector.Postgres.Statements.{decimal}
use cdc_connector.Postgres.Relations.{from_rels}
use cdc_connector.Postgres.Refresh.{from_rels-Follows}
use cdc_connector.Postgres.Rows.{WritableEvent, Followed, consume-postgres}
use cdc_connector.Postgres.Sink.{Client, PostgresSink, postgres_sink}

pub record PostgresConfig : Type 0 where
  pub host : Text
  pub user : Text
  pub password : Text
  pub port : ℕ

unfoldable pub to_postgres_string : PostgresConfig → Text
to_postgres_string config =
    codes "host="
    ++ (config.host
        ++ (codes " user="
            ++ (config.user
                ++ (codes " password="
                    ++ (config.password ++ (codes " port=" ++ decimal config.port))))))

module _ (K : Client) where
  -- `PostgresSink::new` behind the connection.
  unfoldable pub postgres_sink_of : K.State → HashMap ℕ Relation → PostgresSink K
  postgres_sink_of client relations = record {
    client = client;
    upserts = [];
    deletes = [];
    relations = from_rels relations;
  }

  -- `PostgresSink::new`; `connect_client` is `tokio_postgres::connect`.
  unfoldable pub new_sink :
      (Text → Option K.State) → PostgresConfig → HashMap ℕ Relation → Option (PostgresSink K)
  new_sink connect_client config relations = elim (connect_client (to_postgres_string config)) [
    | none ↦ none
    | some client ↦ some (postgres_sink_of client relations)
  ]

  -- `main`, on the two configurations.
  unfoldable pub main :
      (R : StreamConsumer)
      → AvroCodec
      → (Text → Option K.State)
      → KafkaConfig
      → PostgresConfig
      → Outcome KafkaError (Consumer (PostgresSink K))
  main R avro connect_client kafka postgres =
      run_connector R (postgres_sink K) avro kafka (new_sink connect_client postgres)

  new_sink-connected :
      (connect_client : Text → Option K.State) (config : PostgresConfig)
      (relations : HashMap ℕ Relation) (client : K.State)
      → connect_client (to_postgres_string config) ≡ some client
      → new_sink connect_client config relations ≡ some (postgres_sink_of client relations)
  unfolding new_sink
  new_sink-connected connect_client config relations client e = ground (arith, e)

  -- Where Kafka is connected, the relations are loaded, the database is connected and the topics are
  -- subscribed to, the connector consumes whatever the stream yields to its end without a panic,
  -- from a sink with no statements and the relations that were loaded, and commits only messages
  -- whose events the sink took, as long as no event that arrives has a timestamp out of the range
  -- of dates.
  pub main-consumes :
      (R : StreamConsumer) (avro : AvroCodec) (connect_client : Text → Option K.State)
      (kafka : KafkaConfig) (postgres : PostgresConfig) (connected loaded : KafkaClient R)
      (relations : HashMap ℕ Relation) (client : K.State) (subscribed : R.State)
      → connect R kafka ≡ ok connected
      → load_all_relations R avro connected ≡ ok (loaded, relations)
      → connect_client (to_postgres_string postgres) ≡ some client
      → R.subscribe loaded.consumer (subscribed_topics R loaded.topic) ≡ some subscribed
      → All (Carries (postgres_sink K) avro loaded.topic (WritableEvent K)) (R.events subscribed)
      → (c : Consumer (PostgresSink K)) × (main R avro connect_client kafka postgres ≡ ok c)
        × (All (Taken (postgres_sink K) avro loaded.topic) c.committed × Followed K c.sink)
  unfolding main run_connector consume_from_kafka
  main-consumes R avro connect_client kafka postgres connected loaded relations client subscribed
        con load db sub fits =
      let sink = postgres_sink_of client relations in
      let follows : Followed K sink =
        unfold postgres_sink_of in (relations, from_rels-Follows relations) in
      let (c, e, sound) =
        consume-postgres K avro loaded.topic (record { sink = sink; committed = [] })
          (R.events subscribed) fits tt follows in
      (
        c,
        rw (con, load, new_sink-connected connect_client postgres relations client db, sub) e,
        sound,
      )
