-- ===== src/Pipeline/Restart.antt =====
-- The LSN from which the producer starts again (`read_lsn` of cdc-producer/src/main.rs) against the
-- transaction that was committed last.
use cdc_connector.Prelude.{
  ℕ, ◌≡◌, ◌^◌, ◌<◌, refl, false, List, [], ◌∷◌, ◌++◌, Bytes, Text, ok, arith, ap, map, sym, ◌∙◌,
  append_assoc, text_beq, text_beq_iff, if◌then◌else◌,
}
use cdc_connector.Avro.Codec.{AvroCodec}
use cdc_connector.Decoder.Errors.{Utf8}
use cdc_connector.Decoder.Messages.{RelationMap}
use cdc_connector.Wal.{Session, Received, event, begin, commit, wal_loop}
use cdc_connector.Sink.{Message, message}
use cdc_connector.Producer.{
  FutureRecord, FutureProducer, KafkaProducer, lsn_record, read_lsn, cdc_producer,
}
use cdc_connector.Producer.Topics.{delivered}
use cdc_connector.Producer.Lsn.{read_lsn-lsn_record}
use cdc_connector.Pipeline.Broker.{Broker, after_transaction, TakesTransaction}
use cdc_connector.Pipeline.Transaction.{Sends, Handed, changes, wal_loop-visible}

-- The messages of a topic.
unfoldable pub on_topic : Text → List FutureRecord → List Message
on_topic topic [] = []
on_topic topic (r ∷ rs) =
    let rest = on_topic topic rs in if text_beq topic r.topic then delivered r ∷ rest else rest

on_topic-append :
    (topic : Text) (xs ys : List FutureRecord)
    → on_topic topic (xs ++ ys) ≡ on_topic topic xs ++ on_topic topic ys
unfolding on_topic
on_topic-append topic [] ys = refl
on_topic-append topic (x ∷ xs) ys = ground (arith, on_topic-append topic xs ys)

on_topic-lsn_record :
    (p : KafkaProducer) (lsn : ℕ)
    → on_topic p.lsn_topic (lsn_record p lsn ∷ []) ≡ delivered (lsn_record p lsn) ∷ []
unfolding on_topic lsn_record
on_topic-lsn_record p lsn = rw ((text_beq_iff p.lsn_topic p.lsn_topic).1 refl) refl

-- Behind a transaction of messages that are decoded and written, whose calls the broker takes, a
-- producer that starts again reads the end LSN of that transaction, whatever was visible before, as
-- long as every message of the LSN topic arrives before the timeout of `read_lsn`.
pub wal_loop-read_lsn :
    (valid : Utf8) (avro : AvroCodec) (K : FutureProducer) (p : KafkaProducer) (broker : Broker K)
    → (s : Session K.State) (later : RelationMap) (ms : List Bytes) (hs : List Handed)
      (rs : List FutureRecord) (lsn end_lsn : ℕ) (rest : List Received)
    → s.in_transaction ≡ false
    → Sends valid avro p s.relation_map later ms hs rs
    → end_lsn < 2 ^ 64
    → TakesTransaction K s.producer (rs, lsn_record p end_lsn)
    → (heard : List Message)
    → heard
      ≡ on_topic p.lsn_topic
          (broker.visible (after_transaction K s.producer (rs, lsn_record p end_lsn)))
    → (wal_loop
          (cdc_producer avro K p)
          valid
          s
          (event begin ∷ changes ms ++ event (commit lsn end_lsn) ∷ rest)
        ≡ wal_loop
            (cdc_producer avro K p)
            valid
            (record s {
              producer = after_transaction K s.producer (rs, lsn_record p end_lsn);
              relation_map = later;
              in_transaction = false;
              applied = lsn ∷ s.applied;
            })
            rest)
      × (read_lsn 0 (map message heard) ≡ ok end_lsn)
wal_loop-read_lsn valid avro K p broker s later ms hs rs lsn end_lsn rest f ds small taken heard
      all =
    let k = after_transaction K s.producer (rs, lsn_record p end_lsn) in
    let (runs, seen) =
      wal_loop-visible valid avro K p broker s later ms hs rs lsn end_lsn rest f ds taken in
    let before = broker.visible s.producer ++ rs in
    let last = lsn_record p end_lsn in
    let whole : broker.visible k ≡ before ++ last ∷ [] =
      seen ∙ sym (append_assoc (broker.visible s.producer) rs (last ∷ [])) in
    let topic_messages : on_topic p.lsn_topic (broker.visible k)
        ≡ on_topic p.lsn_topic before ++ delivered last ∷ [] =
      ap (on_topic p.lsn_topic) whole
      ∙ on_topic-append p.lsn_topic before (last ∷ [])
      ∙ ap (λ (x : List Message). on_topic p.lsn_topic before ++ x)
          (on_topic-lsn_record p end_lsn) in
    (
      runs,
      rw (all, topic_messages)
          (read_lsn-lsn_record p 0 end_lsn (on_topic p.lsn_topic before) [] small tt),
    )
