-- ===== src/Sink.antt =====
-- cdc-sink/src/lib.rs: what a sink is, the loading of relations, and the loop that consumes events.
mod Tests
pub mod Relations
pub mod Dispatch
pub mod Events
pub mod Client
use cdc_connector.Prelude.{
  ℕ, Bool, true, false, List, [], ◌∷◌, Option, none, some, Bytes, Text, codes, Outcome, ok, err,
  panic, ◌>>=◌, ◌==◌, ◌&&◌, text_beq, if◌then◌else◌, map, Eq, nat_eq,
}
use cdc_connector.HashMap.{HashMap, lookup, insert, map_values}
use cdc_connector.Avro.Relation.{Relation}
use cdc_connector.Avro.Event.{ChangeEvent}
use cdc_connector.Avro.Codec.{AvroCodec, FromAvroError}

pub data SinkError : Type 0 where
  unknown_relation : ℕ → SinkError
  platform : Text → SinkError
  toasted_in_key_only : SinkError

-- The trait `KafkaSink`: an `async` call is its effect on the sink, and what it returns.
pub record KafkaSink : Type 1 where
  pub State : Type 0
  pub on_event : State → ChangeEvent → State × Outcome SinkError (Unit {0})
  pub on_relation : State → Relation → State × Outcome SinkError (Unit {0})

-- `BorrowedMessage` of the crate rdkafka: what the loops read of it.
pub record Message : Type 0 where
  pub topic : Text
  pub payload : Option Bytes

-- What a stream of messages yields.
pub data Streamed : Type 0 where
  message : Message → Streamed
  kafka_error : Streamed

-- `load_relations`. What `timeout(.., stream.next())` gives within the five seconds: a message or an
-- error; the end of the list is the end of the stream or of the time. `payload_view` of bytes does
-- not fail.
pub data KafkaError : Type 0 where
  stream_error : KafkaError
  subscription : Text → KafkaError

abbrev pub take_decoded : HashMap ℕ Relation → Outcome FromAvroError Relation → HashMap ℕ Relation
take_decoded relations (ok rel) = insert rel.relation_oid rel relations
take_decoded relations _ = relations

abbrev pub take_payload : AvroCodec → HashMap ℕ Relation → Option Bytes → HashMap ℕ Relation
take_payload avro relations none = relations
take_payload avro relations (some payload) =
    take_decoded relations (avro.relation_from_avro payload)

unfoldable pub load_relations :
    AvroCodec → HashMap ℕ Relation → List Streamed → Outcome KafkaError (HashMap ℕ Relation)
load_relations avro relations [] = ok relations
load_relations avro relations (message m ∷ rest) =
    load_relations avro (take_payload avro relations m.payload) rest
load_relations avro relations (kafka_error ∷ rest) = err stream_error

-- `str::strip_prefix` and `str::starts_with`
abbrev pub strip_prefix : Text → Text → Option Text
strip_prefix [] s = some s
strip_prefix (p ∷ ps) [] = none
strip_prefix (p ∷ ps) (c ∷ s) = if p == c then strip_prefix ps s else none

abbrev pub starts_with : Text → Text → Bool
starts_with [] s = true
starts_with (p ∷ ps) [] = false
starts_with (p ∷ ps) (c ∷ s) = p == c && starts_with ps s

-- The state of `consume_from_kafka`: the sink, and the messages of the calls of `commit_message`,
-- the latest first.
pub record Consumer (S : Type 0) : Type 0 where
  pub sink : S
  pub committed : List Message

module _ (S : KafkaSink) where
  -- A message is committed only behind an event that the sink took.
  unfoldable pub after_event :
      Consumer S.State
      → Message
      → S.State × Outcome SinkError (Unit {0})
      → Outcome KafkaError (Consumer S.State)
  after_event c m (s, ok u) = ok (record c { sink = s; committed = m ∷ c.committed })
  after_event c m (s, err e) = ok (record c { sink = s })
  after_event c m (s, panic) = panic

  unfoldable pub after_relation :
      Consumer S.State
      → S.State × Outcome SinkError (Unit {0})
      → Outcome KafkaError (Consumer S.State)
  after_relation c (s, panic) = panic
  after_relation c (s, _) = ok (record c { sink = s })

  -- An event or a relation that is not decoded is logged.
  unfoldable pub take_event :
      Consumer S.State
      → Message
      → Outcome FromAvroError ChangeEvent
      → Outcome KafkaError (Consumer S.State)
  take_event c m (ok event) = after_event c m (S.on_event c.sink event)
  take_event c m _ = ok c

  unfoldable pub take_relation :
      Consumer S.State → Outcome FromAvroError Relation → Outcome KafkaError (Consumer S.State)
  take_relation c (ok relation) = after_relation c (S.on_relation c.sink relation)
  take_relation c _ = ok c

  -- The part of a round behind `strip_prefix`, on the rest of the topic.
  unfoldable pub dispatch :
      AvroCodec
      → Consumer S.State
      → Message
      → Bytes
      → Option Text
      → Outcome KafkaError (Consumer S.State)
  dispatch avro c m payload none = ok c
  dispatch avro c m payload (some topic) =
      if starts_with (codes ".event") topic
      then take_event c m (avro.event_from_avro payload)
      else if text_beq topic (codes ".relations")
      then take_relation c (avro.relation_from_avro payload)
      else ok c

  -- A round without the metrics, for the topic `prefix` of the client.
  unfoldable pub consume_payload :
      AvroCodec
      → Text
      → Consumer S.State
      → Message
      → Option Bytes
      → Outcome KafkaError (Consumer S.State)
  consume_payload avro prefix c m none = ok c
  consume_payload avro prefix c m (some payload) =
      dispatch avro c m payload (strip_prefix prefix m.topic)

  unfoldable pub consume_message :
      AvroCodec → Text → Consumer S.State → Streamed → Outcome KafkaError (Consumer S.State)
  consume_message avro prefix c kafka_error = ok c
  consume_message avro prefix c (message m) = consume_payload avro prefix c m m.payload

  -- The loop of `consume_from_kafka`; no error of the stream ends it.
  unfoldable pub consume :
      AvroCodec → Text → Consumer S.State → List Streamed → Outcome KafkaError (Consumer S.State)
  consume avro prefix c [] = ok c
  consume avro prefix c (m ∷ ms) = do
    c' ← consume_message avro prefix c m
    consume avro prefix c' ms

-- `TableNames`
abbrev pub TableNames : Type 0
TableNames = HashMap ℕ Text

unfoldable pub table_names_of : HashMap ℕ Relation → TableNames
table_names_of rels = map_values (λ r. r.name) rels
