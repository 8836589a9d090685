-- ===== src/Producer/Topics.antt =====
-- The topics of the producer (cdc-producer/src/main.rs) against those that the sinks tell apart
-- (cdc-sink/src/lib.rs).
use cdc_connector.Prelude.{ℕ, ◌≡◌, refl, ◌++◌, ◌∙◌, some, Bytes, Text, codes, ok}
use cdc_connector.Avro.Relation.{Relation}
use cdc_connector.Avro.Event.{ChangeEvent}
use cdc_connector.Avro.Codec.{AvroCodec}
use cdc_connector.Sink.{
  KafkaSink, Message, message, Consumer, after_event, after_relation, take_event, take_relation,
  dispatch, consume_payload, consume_message,
}
use cdc_connector.Sink.Dispatch.{strip_prefix-append}
use cdc_connector.Producer.{
  FutureRecord, kafka_producer, event_topic, event_record, relation_record, lsn_record,
}

-- A record of the producer as the message that a consumer gets.
unfoldable pub delivered : FutureRecord → Message
delivered r = record { topic = r.topic; payload = some r.payload }

module _ (S : KafkaSink) (avro : AvroCodec) (topic key : Text) where
  consume_message-dispatch :
      (c : Consumer S.State) (r : FutureRecord) (rest : Text)
      → r.topic ≡ topic ++ rest
      → consume_message S avro topic c (message (delivered r))
        ≡ dispatch S avro c (delivered r) r.payload (some rest)
  unfolding consume_message consume_payload delivered
  consume_message-dispatch c r rest e = rw (e, strip_prefix-append topic rest) refl

  pub consume_message-event :
      (c : Consumer S.State) (relation : Relation) (event : ChangeEvent) (payload : Bytes)
      → avro.event_from_avro payload ≡ ok event
      → consume_message S avro topic c
          (message (delivered (event_record (kafka_producer topic key) relation payload)))
        ≡ after_event S c
            (delivered (event_record (kafka_producer topic key) relation payload))
            (S.on_event c.sink event)
  unfolding event_record event_topic kafka_producer take_event dispatch
  consume_message-event c relation event payload h =
      consume_message-dispatch c (event_record (kafka_producer topic key) relation payload)
        (codes ".events." ++ (relation.namespace ++ (codes "." ++ relation.name))) refl
      ∙ rw h refl

  pub consume_message-relation :
      (c : Consumer S.State) (relation : Relation) (payload : Bytes)
      → avro.relation_from_avro payload ≡ ok relation
      → consume_message S avro topic c
          (message (delivered (relation_record (kafka_producer topic key) relation payload)))
        ≡ after_relation S c (S.on_relation c.sink relation)
  unfolding relation_record kafka_producer take_relation dispatch
  consume_message-relation c relation payload h =
      consume_message-dispatch c (relation_record (kafka_producer topic key) relation payload)
        (codes ".relations") refl
      ∙ rw h refl

  pub consume_message-lsn :
      (c : Consumer S.State) (lsn : ℕ)
      → consume_message S avro topic c
          (message (delivered (lsn_record (kafka_producer topic key) lsn)))
        ≡ ok c
  unfolding lsn_record kafka_producer dispatch
  consume_message-lsn c lsn =
      consume_message-dispatch c (lsn_record (kafka_producer topic key) lsn) (codes ".lsn") refl

  -- A sink with the topic of the producer, and with a codec that reads back what it writes, hands
  -- the very event that the producer sent to `on_event`, and the very relation to `on_relation`;
  -- a record of an LSN leaves it as it is.
  pub consume_message-records :
      (c : Consumer S.State) (relation : Relation) (event : ChangeEvent)
      (event_bytes relation_bytes : Bytes) (lsn : ℕ)
      → avro.event_from_avro event_bytes ≡ ok event
      → avro.relation_from_avro relation_bytes ≡ ok relation
      → (consume_message S avro topic c
            (message (delivered (event_record (kafka_producer topic key) relation event_bytes)))
          ≡ after_event S c
              (delivered (event_record (kafka_producer topic key) relation event_bytes))
              (S.on_event c.sink event))
        × (consume_message S avro topic c (
              message
                (delivered (relation_record (kafka_producer topic key) relation relation_bytes)))
            ≡ after_relation S c (S.on_relation c.sink relation))
        × (consume_message S avro topic c
              (message (delivered (lsn_record (kafka_producer topic key) lsn)))
            ≡ ok c)
  consume_message-records c relation event event_bytes relation_bytes lsn he hr = (
    consume_message-event c relation event event_bytes he,
    consume_message-relation c relation relation_bytes hr,
    consume_message-lsn c lsn,
  )
