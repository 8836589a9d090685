-- ===== src/Harness.antt =====
-- cdc-integration-tests/src/lib.rs: what the integration tests share, apart from the containers: the
-- commands of the programs, the waiting for rows of the sink, and the reading of the last LSN.
pub mod Waiting
mod Tests
use cdc_connector.Prelude.{
  ℕ, zero, suc, ◌+◌, ◌-◌, ◌<◌, ◌≤◌, ltb, Bool, true, false, List, [], ◌∷◌, ◌++◌, Option, none, some,
  Text, codes, Outcome, ok, err, panic, ◌>>=◌, ◌⊎◌, inl, inr, if◌then◌else◌,
}
use cdc_connector.Wal.{Reply}
use cdc_connector.Sink.{Streamed, message, kafka_error, KafkaError, stream_error, subscription}
use cdc_connector.Producer.{take_lsn}
use cdc_connector.Postgres.Statements.{decimal}

-- `Command` of the standard library, and its variables.
pub record Command : Type 0 where
  pub program : Text
  pub env : List (Text × Text)

-- `CdcProducer::prepare_cmd`
unfoldable pub cdc_producer_cmd : Command
cdc_producer_cmd = record {
  program = codes "../target/debug/cdc-producer";
  env =
      (codes "CDC_PROD_WILL_CONNECT_TO_FELDERA", codes "false")
      ∷ (codes "CDC_PROD_POSTGRES_HOST", codes "localhost")
      ∷ (codes "CDC_PROD_POSTGRES_USER", codes "cdc")
      ∷ (codes "CDC_PROD_POSTGRES_PASSWORD", codes "cdc")
      ∷ (codes "CDC_PROD_POSTGRES_SLOTNAME", codes "cdc_slot")
      ∷ (codes "CDC_PROD_POSTGRES_DBNAME", codes "cdc")
      ∷ (codes "CDC_PROD_POSTGRES_PUBLICATION", codes "cdc_pub")
      ∷ (codes "CDC_PROD_POSTGRES_PORT", codes "5400")
      ∷ (codes "CDC_PROD_KAFKA_BROKERS", codes "localhost:9092")
      ∷ (codes "CDC_PROD_KAFKA_TOPIC", codes "example-topic")
      ∷ (codes "CDC_PROD_KAFKA_KEY", codes "default")
      ∷ (codes "CDC_PROD_POSTGRESS_DBNAME", codes "cdc")
      ∷ (codes "CDC_PROD_METRICS_PORT", codes "9001")
      ∷ (codes "RUST_LOG", codes "debug")
      ∷ [];
}

-- `PostgresConnector::prepare_cmd`
unfoldable pub postgres_connector_cmd : Command
postgres_connector_cmd = record {
  program = codes "../target/debug/postgres-connector";
  env =
      (codes "PG_CONN_POSTGRES_HOST", codes "127.0.0.1")
      ∷ (codes "PG_CONN_POSTGRES_USER", codes "cdc")
      ∷ (codes "PG_CONN_POSTGRES_PASSWORD", codes "cdc")
      ∷ (codes "PG_CONN_POSTGRES_PORT", codes "5401")
      ∷ (codes "PG_CONN_KAFKA_BROKERS", codes "localhost:9092")
      ∷ (codes "PG_CONN_KAFKA_TOPIC", codes "example-topic")
      ∷ (codes "PG_CONN_KAFKA_GROUPID", codes "default")
      ∷ (codes "PG_CONN_METRICS_PORT", codes "9002")
      ∷ (codes "RUST_LOG", codes "debug")
      ∷ [];
}

-- `FelderaConnector::prepare_cmd`
unfoldable pub feldera_connector_cmd : Command
feldera_connector_cmd = record {
  program = codes "../target/debug/postgres-connector";
  env =
      (codes "FELD_CONN_POSTGRES_HOST", codes "127.0.0.1")
      ∷ (codes "FELD_CONN_POSTGRES_USER", codes "cdc")
      ∷ (codes "FELD_CONN_POSTGRES_PASSWORD", codes "cdc")
      ∷ (codes "FELD_CONN_POSTGRES_PORT", codes "5401")
      ∷ (codes "FELD_CONN_KAFKA_BROKERS", codes "localhost:9092")
      ∷ (codes "FELD_CONN_KAFKA_TOPIC", codes "example-topic")
      ∷ (codes "FELD_CONN_KAFKA_GROUPID", codes "default")
      ∷ (codes "FELD_CONN_METRICS_PORT", codes "9002")
      ∷ (codes "RUST_LOG", codes "debug")
      ∷ [];
}

-- The machine that the tests run on: the clients of the two databases, processes, and time in
-- milliseconds. `query_opt` says whether there is a row.
pub record Host : Type 1 where
  pub State : Type 0
  pub Child : Type 0
  pub now : State → ℕ
  pub sleep : State → ℕ → State
  pub query_opt : State → Text → State × (Text ⊎ Bool)
  pub batch_execute : State → Text → State × Reply
  pub spawn : State → Command → State × (Text ⊎ Child)
  pub kill : State → Child → State × Reply
  pub http_get : State → Text → State × (Text ⊎ Text)

-- How a call of the tests ends.
pub data Ended : Type 0 where
  returned panicked : Ended

unfoldable pub row_query : Text → Text → Text
row_query table where_clause =
    codes "SELECT 1 FROM " ++ (table ++ (codes " WHERE " ++ where_clause))

-- `http://localhost:{}/metrics`
unfoldable pub metrics_url : ℕ → Text
metrics_url port = codes "http://localhost:" ++ (decimal port ++ codes "/metrics")

module _ (H : Host) where
  -- `Infra` without the containers, which are only kept.
  pub record Infra : Type 0 where
    pub host : H.State
    pub cdc_producer : H.Child
    pub postgres_connector : H.Child

  -- The loop of `wait_for_sink_row`, on fuel.
  unfoldable pub wait_loop :
      (sql : Text) (start timeout : ℕ) → ℕ → H.State → Option (H.State × Ended)
  wait_loop sql start timeout zero s = none
  wait_loop sql start timeout (suc fuel) s =
      let (s', reply) = H.query_opt s sql in
      let rest = wait_loop sql start timeout fuel (H.sleep s' 500) in
      if ltb timeout (H.now s - start) then some (s, panicked) else elim reply [
        | inl e ↦ some (s', panicked)
        | inr found ↦ (if found then some (s', returned) else rest)
      ]

  unfoldable pub wait_for_sink_row :
      (fuel : ℕ) → H.State → (table where_clause : Text) → ℕ → Option (H.State × Ended)
  wait_for_sink_row fuel s table where_clause timeout =
      wait_loop (row_query table where_clause) (H.now s) timeout fuel s

  -- The loop of `not_sink_row`, on fuel.
  unfoldable pub not_loop :
      (sql : Text) (start timeout : ℕ) → ℕ → H.State → Option (H.State × Ended)
  not_loop sql start timeout zero s = none
  not_loop sql start timeout (suc fuel) s =
      let (s', reply) = H.query_opt s sql in
      let rest = not_loop sql start timeout fuel (H.sleep s' 500) in
      if ltb timeout (H.now s - start) then some (s, returned) else elim reply [
        | inl e ↦ some (s', panicked)
        | inr found ↦ (if found then some (s', panicked) else rest)
      ]

  unfoldable pub not_sink_row :
      (fuel : ℕ) → H.State → (table where_clause : Text) → ℕ → Option (H.State × Ended)
  not_sink_row fuel s table where_clause timeout =
      not_loop (row_query table where_clause) (H.now s) timeout fuel s

  abbrev ended : H.State × Reply → H.State × Ended
  ended (s, none) = (s, returned)
  ended (s, some e) = (s, panicked)

  unfoldable pub exec_on_source : H.State → Text → H.State × Ended
  exec_on_source s query = ended (H.batch_execute s query)

  -- The new process in place of the old one, which is killed again as it is dropped.
  unfoldable pub replaced : H.Child → H.State × (Text ⊎ H.Child) → H.State × Option H.Child
  replaced old (s, inl e) = (s, none)
  replaced old (s, inr child) =
      let (s', reply) = H.kill s old in elim reply [ none ↦ (s', some child) | some e ↦ (s', none) ]

  -- `kill`, half a second, and `TestBinary::spawn`, without the threads that keep the output; each
  -- may panic.
  unfoldable pub restart : H.State → H.Child → Command → H.State × Option H.Child
  restart s child cmd =
      let (s', reply) = H.kill s child in
      elim reply [ none ↦ replaced child (H.spawn (H.sleep s' 500) cmd) | some e ↦ (s', none) ]

  abbrev with_producer : Infra → H.State × Option H.Child → Infra × Ended
  with_producer i (s, none) = (record i { host = s }, panicked)
  with_producer i (s, some child) = (record i { host = s; cdc_producer = child }, returned)

  unfoldable pub restart_producer : Infra → Infra × Ended
  restart_producer i = with_producer i (restart i.host i.cdc_producer cdc_producer_cmd)

  abbrev with_connector : Infra → H.State × Option H.Child → Infra × Ended
  with_connector i (s, none) = (record i { host = s }, panicked)
  with_connector i (s, some child) = (record i { host = s; postgres_connector = child }, returned)

  unfoldable pub restart_connector : Infra → Infra × Ended
  restart_connector i =
      with_connector i (restart i.host i.postgres_connector postgres_connector_cmd)

  unfoldable pub get_metrics_for : H.State → ℕ → H.State × (Text ⊎ Text)
  get_metrics_for s port = H.http_get s (metrics_url port)

-- `InfraOptions`, and its default.
pub record InfraOptions : Type 0 where
  pub pg_connector_json : Bool

abbrev pub default_options : InfraOptions
default_options = record { pg_connector_json = false }

-- The settings of the consumer of `read_lsn`, apart from the level of its logs.
abbrev pub lsn_settings : List (Text × Text)
lsn_settings =
    (codes "group.id", codes "test-lsn-read")
    ∷ (codes "bootstrap.servers", codes "localhost:9092")
    ∷ (codes "enable.partition.eof", codes "false")
    ∷ (codes "session.timeout.ms", codes "6000")
    ∷ (codes "isolation.level", codes "read_committed")
    ∷ (codes "auto.offset.reset", codes "earliest")
    ∷ []

-- The loop of `read_lsn`; the list ends with the stream or with a timeout.
unfoldable pub latest_lsn_of : ℕ → List Streamed → Outcome KafkaError ℕ
latest_lsn_of latest_lsn [] = ok latest_lsn
latest_lsn_of latest_lsn (message m ∷ rest) = latest_lsn_of (take_lsn latest_lsn m.payload) rest
latest_lsn_of latest_lsn (kafka_error ∷ rest) = err stream_error

-- `read_lsn`, on what subscribing to the topic gives and on what is then received.
unfoldable pub test_read_lsn : (subscribed : Option Text) → List Streamed → Outcome KafkaError ℕ
test_read_lsn none received = latest_lsn_of 0 received
test_read_lsn (some e) received = err (subscription e)

abbrev pub two_seconds : ℕ
two_seconds = 2000
