-- ===== src/Lib.antt =====
-- cdc-connector follows the changes of a PostgreSQL database through logical replication, writes them
-- to Kafka, and writes them from Kafka to a PostgreSQL database or to a Feldera pipeline. This
-- library models the program's crates, file by file:
--
-- Prelude       Boolean tests, lists on the native numbers, results with panics (Outcome), signed
--               integers; Bytes and HashMap: network byte order, and maps as association lists.
-- Avro          cdc-avro/src/lib.rs. Value, Event, Relation and Kind are its types, Merge is about
--               merge_toasted, Serde about the serializing of values and kinds, Json about
--               to_json_value. The Avro encoding is a crate: Avro.Codec is its interface.
-- Decoder       cdc-wal-reader/src/decoder. NullWord and RelationData are relation.rs, TupleData is
--               tuple_data.rs, Messages is insert.rs, update.rs, delete.rs and common.rs, and Errors is
--               mod.rs. TupleData.Encode and RelationData.Encode describe what PostgreSQL sends.
--               NullWord.Reference is the search for a zero byte one by one, NullWord.Portable the
--               path of find_null_word for other targets. DecodeTool is
--               cdc-wal-reader/src/bin/relation_decode.rs.
--               Fixtures and the modules named after the files run the repository's own tests
--               of the decoders.
-- Wal           cdc-wal-reader/src/lib.rs. A Session is the state of the loop of start_wal_input, and
--               handle one round of it; Producer is the trait, and Recorded keeps the calls made of
--               one, which Delivery is about; Protocol is about the calls with their replies, and
--               FailedCommit and Dropped are about failures. Identity is configure_replica_identity.
-- Producer      cdc-producer/src/main.rs. cdc_producer fills the interface Wal.Producer; Producer.Main
--               is main.
-- Sink          cdc-sink/src/lib.rs. KafkaSink is the trait, consume the loop of consume_from_kafka,
--               Sink.Client the client around the loops, and what the mains of the sinks share.
-- Postgres      postgres-connector/src: Statements is statements.rs; Relations, Sink and Main are
--               main.rs. postgres_sink fills the interface KafkaSink. Database is the interface to the
--               documented behaviour of the statements in PostgreSQL: how they change the rows of a
--               table; Replica.replay is a change at the source, Replica is about the two, and
--               Replica.Memory is a database that meets the interface.
-- Feldera       feldera-connector/src/main.rs. feldera_sink fills the interface KafkaSink;
--               Feldera.Main is main. Ingress is the interface to the documented behaviour of the
--               requests, Feeds is about what they feed to the tables, and Collecting is a pipeline that
--               meets the interface.
-- Pipeline      The loop, the producer and a sink over a broker, whose documented behaviour is the
--               interface Pipeline.Broker: which records a reader of committed records sees. That the
--               broker takes the calls of a run is a hypothesis about that run (TakesTransactions), and
--               a sink may read the topics interleaved in any way (Interleaved), each in its order
--               (Pipeline.Order).
--               Pipeline.Stream is a whole connection, Replicated the way to the database, and Feeding
--               the way to a Feldera pipeline.
-- Harness       cdc-integration-tests/src/lib.rs without the containers: the commands of the programs,
--               the waits for rows of the sink (Harness.Waiting is about them), and read_lsn.
--
-- The decoders turn the bytes of Wal's events to change events, Wal hands these to the producer, and
-- what the producer writes to its topics is what Sink reads and hands to one of the two sinks. Calls
-- of other crates (the replication client, Kafka, the database, HTTP, Avro, chrono, the UTF-8 check)
-- are parameters. Effects are explicit: a call takes a state and returns one. A panic is a value of
-- its own, so that an index or a slice out of range is seen.
--
-- Integers are natural numbers below the bound of their type or, where signed, the type of Prelude.Int.
-- Lists and texts stand for vectors and strings; lengths are taken to be in range of usize. Five
-- functions run on fuel: scan_words and scan_portable of Decoder.NullWord, with about as many rounds as
-- there are bytes, where each round passes eight, and out of fuel they panic, and decimal of
-- Postgres.Statements, with 20 digits, the most a usize has; wait_loop and not_loop of Harness end
-- within rounds that their timeout gives. Loops over a stream are recursion on the list of what it
-- yields; of the LSN topic this is what arrives before the timeout. Sums of i64 wrap around, as in a
-- build without overflow checks; a timestamp out of the range of dates panics in the PostgreSQL sink
-- (Postgres.Writable). The words of find_null_word are little-endian.
--
-- Not modelled: metrics, logs, the reading of configuration files, the code behind the calls that
-- connect to servers (parameters of the mains), the Avro encoding of the crate serde_avro_fast
-- (a parameter), benchmarks, and of the integration tests the starting of the containers, the threads
-- that keep the output of the programs, and the scenarios of cdc-integration-tests/tests/events.rs.
pub mod Prelude
pub mod Bytes
pub mod HashMap
pub mod Avro
pub mod Decoder
pub mod Wal
pub mod Sink
pub mod Producer
pub mod Postgres
pub mod Feldera
pub mod Pipeline
pub mod Harness
