-- ===== src/Sink/Dispatch.antt =====
-- What `consume_from_kafka` of cdc-sink/src/lib.rs hands to the sink, and what it commits.
use cdc_connector.Prelude.{
  ◌≡◌, ◌≢◌, refl, Bool, true, false, List, [], ◌∷◌, ◌++◌, Option, none, some, arith, Bytes, Text,
  codes, Outcome, ok, err, panic, text_beq, if◌then◌else◌, All, Outcome-Cases, is_ok, is_err,
  is_panic,
}
use cdc_connector.Avro.Relation.{Relation}
use cdc_connector.Avro.Event.{ChangeEvent}
use cdc_connector.Avro.Codec.{AvroCodec, FromAvroError}
use cdc_connector.Sink.{
  KafkaSink, KafkaError, Message, Streamed, message, kafka_error, Consumer, after_event,
  after_relation, take_event, take_relation, dispatch, consume_payload, consume_message, consume,
  strip_prefix, starts_with,
}

pub strip_prefix-append : (p s : Text) → strip_prefix p (p ++ s) ≡ some s
strip_prefix-append [] s = refl
strip_prefix-append (c ∷ p) s = ground (arith, strip_prefix-append p s)

pub starts_with-append : (p s : Text) → starts_with p (p ++ s) ≡ true
starts_with-append [] s = refl
starts_with-append (c ∷ p) s = ground (arith, starts_with-append p s)

module _ (S : KafkaSink) (avro : AvroCodec) (prefix : Text) where
  -- A message that the sink took as an event, in some state of it.
  pub record Taken (m : Message) : Type 0 where
    pub payload : Bytes
    pub event : ChangeEvent
    pub before : S.State
    pub has_payload : m.payload ≡ some payload
    pub decodes : avro.event_from_avro payload ≡ ok event
    pub took : (S.on_event before event).1 ≡ ok tt

  -- A message whose event, if it carries one, is of some kind.
  abbrev pub Carries : (ChangeEvent → Type 0) → Streamed → Type 0
  Carries Fine kafka_error = Unit
  Carries Fine (message m) =
      (payload : Bytes) (e : ChangeEvent)
      → m.payload ≡ some payload
      → avro.event_from_avro payload ≡ ok e
      → Fine e

  module _ (Fine : ChangeEvent → Type 0) (Good : S.State → Type 0)
      (event_keeps : (s : S.State) (e : ChangeEvent)
        → Fine e
        → Good s
        → ((S.on_event s e).1 ≢ panic) × Good (S.on_event s e).0)
      (relation_keeps : (s : S.State) (r : Relation)
        → Good s
        → ((S.on_relation s r).1 ≢ panic) × Good (S.on_relation s r).0) where
    abbrev Sound : Consumer S.State → Type 0
    Sound c = All Taken c.committed × Good c.sink

    -- The loop goes on, with a consumer that is sound.
    abbrev Goes : Outcome KafkaError (Consumer S.State) → Type 0
    Goes r = (c : Consumer S.State) × (r ≡ ok c) × Sound c

    Goes-if :
        (b : Bool) {m n : Outcome KafkaError (Consumer S.State)}
        → Goes m
        → Goes n
        → Goes (if b then m else n)
    Goes-if true km kn = km
    Goes-if false km kn = kn

    after_event-Goes :
        (c : Consumer S.State) (m : Message) (payload : Bytes) (event : ChangeEvent)
        → m.payload ≡ some payload
        → avro.event_from_avro payload ≡ ok event
        → Fine event
        → Sound c
        → Goes (after_event S c m (S.on_event c.sink event))
    unfolding after_event
    after_event-Goes c m payload event has_payload decodes fine h =
        let (calm, good) = event_keeps c.sink event fine h.1 in
        elim (Outcome-Cases (S.on_event c.sink event).1) [
          | is_ok u e ↦ (
            record c { sink = (S.on_event c.sink event).0; committed = m ∷ c.committed },
            rw e refl,
            ((taken e, h.0), good),
          )
          | is_err x e ↦ (record c { sink = (S.on_event c.sink event).0 }, rw e refl, (h.0, good))
          | is_panic e ↦ absurd (calm e)
        ]
      where
        taken : (S.on_event c.sink event).1 ≡ ok tt → Taken m
        taken e = record {
          payload = payload;
          event = event;
          before = c.sink;
          has_payload = has_payload;
          decodes = decodes;
          took = e;
        }

    take_event-Goes :
        (c : Consumer S.State) (m : Message) (payload : Bytes)
        → m.payload ≡ some payload
        → Carries Fine (message m)
        → Sound c
        → (r : Outcome FromAvroError ChangeEvent) → avro.event_from_avro payload ≡ r
        → Goes (take_event S c m r)
    unfolding take_event
    take_event-Goes c m payload has_payload fits h (ok event) decodes =
        after_event-Goes c m payload event has_payload decodes
          (fits payload event has_payload decodes) h
    take_event-Goes c m payload has_payload fits h (err x) decodes = (c, refl, h)
    take_event-Goes c m payload has_payload fits h panic decodes = (c, refl, h)

    take_relation-Goes :
        (c : Consumer S.State)
        → Sound c
        → (r : Outcome FromAvroError Relation) → Goes (take_relation S c r)
    unfolding take_relation after_relation
    take_relation-Goes c h (ok relation) =
        let (calm, good) = relation_keeps c.sink relation h.1 in
        elim (Outcome-Cases (S.on_relation c.sink relation).1) [
          | is_ok u e ↦
              (record c { sink = (S.on_relation c.sink relation).0 }, rw e refl, (h.0, good))
          | is_err x e ↦
              (record c { sink = (S.on_relation c.sink relation).0 }, rw e refl, (h.0, good))
          | is_panic e ↦ absurd (calm e)
        ]
    take_relation-Goes c h (err x) = (c, refl, h)
    take_relation-Goes c h panic = (c, refl, h)

    dispatch-Goes :
        (c : Consumer S.State) (m : Message) (payload : Bytes) (topic : Option Text)
        → m.payload ≡ some payload
        → Carries Fine (message m)
        → Sound c
        → Goes (dispatch S avro c m payload topic)
    unfolding dispatch
    dispatch-Goes c m payload none has_payload fits h = (c, refl, h)
    dispatch-Goes c m payload (some topic) has_payload fits h =
        Goes-if (starts_with (codes ".event") topic)
          (take_event-Goes c m payload has_payload fits h (avro.event_from_avro payload) refl)
          (Goes-if (text_beq topic (codes ".relations"))
            (take_relation-Goes c h (avro.relation_from_avro payload)) (c, refl, h))

    consume_message-Goes :
        (c : Consumer S.State) (m : Streamed)
        → Carries Fine m
        → Sound c
        → Goes (consume_message S avro prefix c m)
    unfolding consume_message consume_payload
    consume_message-Goes c kafka_error fits h = (c, refl, h)
    consume_message-Goes c (message m) fits h = with_payload m.payload refl
      where
        with_payload :
            (p : Option Bytes) → m.payload ≡ p → Goes (consume_payload S avro prefix c m p)
        with_payload none e = (c, refl, h)
        with_payload (some p) e = dispatch-Goes c m p (strip_prefix prefix m.topic) e fits h

    -- With a sink that does not panic on events of a kind, the loop consumes any stream of such events
    -- to its end.
    pub consume-Carries :
        (c : Consumer S.State) (ms : List Streamed)
        → All (Carries Fine) ms
        → All Taken c.committed
        → Good c.sink
        → (c' : Consumer S.State) × (consume S avro prefix c ms ≡ ok c')
          × (All Taken c'.committed × Good c'.sink)
    unfolding consume
    consume-Carries c [] fits h g = (c, refl, (h, g))
    consume-Carries c (m ∷ ms) (fit, fits) h g =
        let (c', e, (h', g')) = consume_message-Goes c m fit (h, g) in
        let (c'', e', sound) = consume-Carries c' ms fits h' g' in (c'', rw (e, e') refl, sound)

  All-Carries : (ms : List Streamed) → All (Carries (λ e. Unit {0})) ms
  All-Carries [] = tt
  All-Carries (kafka_error ∷ ms) = (tt, All-Carries ms)
  All-Carries (message m ∷ ms) = ((λ payload e has decodes. tt), All-Carries ms)

  module _ (Good : S.State → Type 0)
      (event_keeps : (s : S.State) (e : ChangeEvent)
        → Good s
        → ((S.on_event s e).1 ≢ panic) × Good (S.on_event s e).0)
      (relation_keeps : (s : S.State) (r : Relation)
        → Good s
        → ((S.on_relation s r).1 ≢ panic) × Good (S.on_relation s r).0) where
    -- With a sink that does not panic in the states that it reaches, the loop consumes any stream to
    -- its end, errors of the stream and messages that are not decoded included; every message that
    -- it commits is one that is decoded to an event which the sink took without an error.
    pub consume-Taken :
        (c : Consumer S.State) (ms : List Streamed)
        → All Taken c.committed
        → Good c.sink
        → (c' : Consumer S.State) × (consume S avro prefix c ms ≡ ok c')
          × (All Taken c'.committed × Good c'.sink)
    consume-Taken c ms h g =
        consume-Carries (λ e. Unit {0}) Good (λ s e fine. event_keeps s e) relation_keeps c ms
          (All-Carries ms) h g
