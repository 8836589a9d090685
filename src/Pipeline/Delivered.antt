-- ===== src/Pipeline/Delivered.antt =====
-- What a sink (cdc-sink/src/lib.rs) makes of the records that the producer wrote.
use cdc_connector.Prelude.{
  ℕ, ◌≡◌, ◌≢◌, refl, ap, ◌∙◌, false, List, [], ◌∷◌, ◌++◌, Bytes, Text, Outcome, ok, err, panic, map,
  nat_eq, All, append_assoc,
}
use cdc_connector.HashMap.{insert}
use cdc_connector.Avro.Codec.{AvroCodec}
use cdc_connector.Decoder.Errors.{Utf8}
use cdc_connector.Decoder.Messages.{RelationMap}
use cdc_connector.Wal.{Session, Received, wal_loop}
use cdc_connector.Sink.{
  KafkaSink, SinkError, Message, message, Streamed, Consumer, consume, after_event, after_relation,
}
use cdc_connector.Producer.{
  FutureRecord, FutureProducer, KafkaProducer, kafka_producer, event_record, relation_record,
  lsn_record, cdc_producer,
}
use cdc_connector.Producer.Topics.{
  delivered, consume_message-event, consume_message-relation, consume_message-lsn,
}
use cdc_connector.Pipeline.Broker.{Broker, TakesTransactions, flatten}
use cdc_connector.Pipeline.Transaction.{
  Sends, nil, cons, describe, Handed, event, relation, lsn_of, record_of, Readable, of_event,
  of_relation, of_lsn,
}
use cdc_connector.Pipeline.Stream.{
  Arrives, closed, between, transaction, reported_onto, wal_loop-Arrives,
}

-- The messages of records, as a consumer's stream.
abbrev pub stream_of : List FutureRecord → List Streamed
stream_of rs = map (λ r. message (delivered r)) rs

-- The messages of the events, committed one after the other, the latest first.
abbrev pub committed_onto : List Handed → List Message → List Message
committed_onto [] ms = ms
committed_onto (event e r ∷ hs) ms = committed_onto hs (delivered r ∷ ms)
committed_onto (relation q r ∷ hs) ms = committed_onto hs ms
committed_onto (lsn_of r ∷ hs) ms = committed_onto hs ms

-- The orders in which records of several topics are read: the topics have one partition each
-- (`check_topics`), in which Kafka keeps the order, and of neighbours from two topics either may come
-- first.
pub data Interleaved : List Handed → List Handed → Type 0 where
  done : Interleaved [] []
  keep : {h : Handed} {hs hs' : List Handed} → Interleaved hs hs' → Interleaved (h ∷ hs) (h ∷ hs')
  swap :
      {g h : Handed} {hs : List Handed}
      → (record_of g).topic ≢ (record_of h).topic
      → Interleaved (g ∷ h ∷ hs) (h ∷ g ∷ hs)
  both :
      {hs hs' hs'' : List Handed} → Interleaved hs hs' → Interleaved hs' hs'' → Interleaved hs hs''

pub All-Interleaved :
    (P : Handed → Type 0) (hs hs' : List Handed) → Interleaved hs hs' → All P hs → All P hs'
All-Interleaved P hs hs' done all = tt
All-Interleaved P hs hs' (keep {hs = more} {hs' = more'} i) (one, rest) =
    (one, All-Interleaved P more more' i rest)
All-Interleaved P hs hs' (swap apart) (one, (two, rest)) = (two, (one, rest))
All-Interleaved P hs hs' (both {hs' = middle} i j) all =
    All-Interleaved P middle hs' j (All-Interleaved P hs middle i all)

module _ (valid : Utf8) (avro : AvroCodec) (p : KafkaProducer) where
  Readable-Sends :
      (known later : RelationMap) (ms : List Bytes) (hs more : List Handed) (rs : List FutureRecord)
      → Sends valid avro p known later ms hs rs
      → All (Readable avro p) more
      → All (Readable avro p) (hs ++ more)
  Readable-Sends known later ms hs more rs nil all = all
  Readable-Sends known later ms hs more rs
        (cons {r = r} {ms = ms'} {hs = hs'} {rs = rs'} d out back ds) all =
      (of_event r.inner back, Readable-Sends known later ms' hs' more rs' ds all)
  Readable-Sends known later ms hs more rs
        (describe {r = r} {ms = ms'} {hs = hs'} {rs = rs'} d out back ds) all =
      (
        of_relation back,
        Readable-Sends (insert r.inner.relation_oid r known) later ms' hs' more rs' ds all,
      )

  Readable-Arrives :
      (known later : RelationMap) (received : List Received) (hs : List Handed)
      (rs : List (List FutureRecord × FutureRecord)) (lsns : List ℕ)
      → Arrives valid avro p known later received hs rs lsns
      → All (Readable avro p) hs
  Readable-Arrives known later received hs rs lsns closed = tt
  Readable-Arrives known later received hs rs lsns (between {rest = rest} q more) =
      Readable-Arrives known later rest hs rs lsns more
  Readable-Arrives known later received hs rs lsns
        (transaction {middle = middle} {ms = ms} {hs = now} {hs' = hs'} {rs = sent} {rs' = rs'}
          {lsns = lsns'} {rest = rest} lsn end_lsn ds more) =
      Readable-Sends known middle ms now (lsn_of (lsn_record p end_lsn) ∷ hs') sent ds
        (of_lsn end_lsn, Readable-Arrives middle later rest hs' rs' lsns' more)

  records-Sends :
      (known later : RelationMap) (ms : List Bytes) (hs more : List Handed) (rs : List FutureRecord)
      → Sends valid avro p known later ms hs rs
      → rs ++ map record_of more ≡ map record_of (hs ++ more)
  records-Sends known later ms hs more rs nil = refl
  records-Sends known later ms hs more rs
        (cons {r = r} {payload = payload} {ms = ms'} {hs = hs'} {rs = rs'} d out back ds) =
      ap (λ (xs : List FutureRecord). event_record p r.inner payload ∷ xs)
        (records-Sends known later ms' hs' more rs' ds)
  records-Sends known later ms hs more rs
        (describe {r = r} {payload = payload} {ms = ms'} {hs = hs'} {rs = rs'} d out back ds) =
      ap (λ (xs : List FutureRecord). relation_record p r.inner payload ∷ xs)
        (records-Sends (insert r.inner.relation_oid r known) later ms' hs' more rs' ds)

  records-Arrives :
      (known later : RelationMap) (received : List Received) (hs : List Handed)
      (rs : List (List FutureRecord × FutureRecord)) (lsns : List ℕ)
      → Arrives valid avro p known later received hs rs lsns
      → flatten rs ≡ map record_of hs
  records-Arrives known later received hs rs lsns closed = refl
  records-Arrives known later received hs rs lsns (between {rest = rest} q more) =
      records-Arrives known later rest hs rs lsns more
  records-Arrives known later received hs rs lsns
        (transaction {middle = middle} {ms = ms} {hs = now} {hs' = hs'} {rs = sent} {rs' = rs'}
          {lsns = lsns'} {rest = rest} lsn end_lsn ds more) =
      append_assoc sent (lsn_record p end_lsn ∷ []) (flatten rs')
      ∙ ap (λ (xs : List FutureRecord). sent ++ lsn_record p end_lsn ∷ xs)
          (records-Arrives middle later rest hs' rs' lsns' more)
      ∙ records-Sends known middle ms now (lsn_of (lsn_record p end_lsn) ∷ hs') sent ds

module _ (S : KafkaSink) where
  -- The sink behind all that it reads.
  abbrev pub after_handed : S.State → List Handed → S.State
  after_handed s [] = s
  after_handed s (event e r ∷ hs) = after_handed (S.on_event s e).0 hs
  after_handed s (relation q r ∷ hs) = after_handed (S.on_relation s q).0 hs
  after_handed s (lsn_of r ∷ hs) = after_handed s hs

  -- The sink takes each event without an error, and no relation makes it panic.
  abbrev pub TakesHanded : S.State → List Handed → Type 0
  TakesHanded s [] = Unit
  TakesHanded s (event e r ∷ hs) = ((S.on_event s e).1 ≡ ok tt) × TakesHanded (S.on_event s e).0 hs
  TakesHanded s (relation q r ∷ hs) =
      ((S.on_relation s q).1 ≢ panic) × TakesHanded (S.on_relation s q).0 hs
  TakesHanded s (lsn_of r ∷ hs) = TakesHanded s hs

  abbrev pub behind : Consumer S.State → List Handed → Consumer S.State
  behind c hs = record { sink = after_handed c.sink hs; committed = committed_onto hs c.committed }

  after_relation-calm :
      (c : Consumer S.State) (p : S.State × Outcome SinkError (Unit {0}))
      → p.1 ≢ panic
      → after_relation S c p ≡ ok (record c { sink = p.0 })
  unfolding after_relation
  after_relation-calm c (s, ok u) h = refl
  after_relation-calm c (s, err e) h = refl
  after_relation-calm c (s, panic) h = absurd (h refl)

  module _ (avro : AvroCodec) (topic key : Text) (valid : Utf8) where
    consume-Readable :
        (c : Consumer S.State) (hs : List Handed)
        → All (Readable avro (kafka_producer topic key)) hs
        → TakesHanded c.sink hs
        → consume S avro topic c (stream_of (map record_of hs)) ≡ ok (behind c hs)
    unfolding consume
    consume-Readable c [] readable took = refl
    consume-Readable c (event e _ ∷ hs) (of_event {payload = payload} r back, readable)
          (took, more) =
        let first = event_record (kafka_producer topic key) r payload in
        let next : Consumer S.State = record {
          sink = (S.on_event c.sink e).0;
          committed = delivered first ∷ c.committed;
        } in
        let taken : after_event S c (delivered first) (S.on_event c.sink e) ≡ ok next =
          unfold after_event in rw took refl in
        rw (consume_message-event S avro topic key c r e payload back, taken)
          (consume-Readable next hs readable more)
    consume-Readable c (relation q _ ∷ hs) (of_relation {payload = payload} back, readable)
          (calm, more) =
        let next : Consumer S.State = record c { sink = (S.on_relation c.sink q).0 } in
        rw
          (
            consume_message-relation S avro topic key c q payload back,
            after_relation-calm c (S.on_relation c.sink q) calm,
          )
          (consume-Readable next hs readable more)
    consume-Readable c (lsn_of _ ∷ hs) (of_lsn n, readable) took =
        rw (consume_message-lsn S avro topic key c n) (consume-Readable c hs readable took)

    -- Where the broker takes the calls of the run, a whole connection reaches the sink: the loop comes
    -- to its end outside a transaction and reports the LSN of every commit, and the records that it
    -- adds to the visible ones are those of the events, the relations and the LSNs of the
    -- transactions, in order; a sink with the producer's topic that reads these in any order that
    -- keeps the order within each topic is handed every relation and every event, and commits the
    -- messages of the events, as long as it takes the events in that order and does not panic on the
    -- relations. The transactions are of messages that are decoded and written.
    pub wal_loop-consume :
        (K : FutureProducer) (broker : Broker K) (s : Session K.State) (later : RelationMap)
        (received : List Received) (hs seen : List Handed)
        (rs : List (List FutureRecord × FutureRecord)) (lsns : List ℕ) (c : Consumer S.State)
        → s.in_transaction ≡ false
        → Arrives valid avro (kafka_producer topic key) s.relation_map later received hs rs lsns
        → TakesTransactions K s.producer rs
        → Interleaved hs seen
        → TakesHanded c.sink seen
        → (k : K.State) × (wal_loop
              (cdc_producer avro K (kafka_producer topic key))
              valid
              s
              received
            ≡ ok (record {
              producer = k;
              relation_map = later;
              in_transaction = false;
              applied = reported_onto lsns s.applied;
            }))
          × (broker.visible k ≡ broker.visible s.producer ++ map record_of hs)
          × (consume S avro topic c (stream_of (map record_of seen))
              ≡ ok (record {
                sink = after_handed c.sink seen;
                committed = committed_onto seen c.committed;
              }))
    wal_loop-consume K broker s later received hs seen rs lsns c f arrives taken order took =
        let p = kafka_producer topic key in
        let (k, runs, grown) =
          wal_loop-Arrives valid avro K p broker s.relation_map later s received hs rs lsns arrives
            refl f taken in
        (
          k,
          runs,
          grown
              ∙ ap (λ (xs : List FutureRecord). broker.visible s.producer ++ xs)
                  (records-Arrives valid avro p s.relation_map later received hs rs lsns arrives),
          consume-Readable c seen
              (All-Interleaved (Readable avro p) hs seen order
                (Readable-Arrives valid avro p s.relation_map later received hs rs lsns arrives))
              took,
        )
