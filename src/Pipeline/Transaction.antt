-- ===== src/Pipeline/Transaction.antt =====
-- What the transactions of the server become for the readers of the broker: `start_wal_input` of
-- cdc-wal-reader/src/lib.rs with the producer of cdc-producer/src/main.rs.
use cdc_connector.Prelude.{
  ℕ, ◌≡◌, refl, true, false, List, [], ◌∷◌, ◌++◌, none, Bytes, ok, inr, arith, ap, map, sym, ◌∙◌,
  ◌>>=◌, nat_eq, append_assoc, append-nil,
}
use cdc_connector.Avro.Relation.{Relation}
use cdc_connector.Avro.Event.{ChangeEvent}
use cdc_connector.Avro.Codec.{AvroCodec}
use cdc_connector.Decoder.Errors.{Utf8}
use cdc_connector.Decoder.RelationData.{RelationData}
use cdc_connector.Decoder.Messages.{RelationMap}
use cdc_connector.Wal
use cdc_connector.Wal.{
  Session, Received, take_relation, xlog, ReplicationEvent, xlog_data, begin, commit, handle,
  wal_loop, after_send, after_commit, begin_transaction,
}
use cdc_connector.HashMap.{insert}
use cdc_connector.Decoder.RelationData
use cdc_connector.Wal.Delivery.{Decodes, handle-change}
use cdc_connector.Producer.{
  FutureRecord, FutureProducer, KafkaProducer, event_record, relation_record, on_relation,
  lsn_record, send, commit_transaction, cdc_producer,
}
use cdc_connector.Pipeline.Broker.{Broker, after_sends, after_transaction, Takes, TakesTransaction}

-- What a sink reads: an event, a relation, or an LSN, which it passes over, each with the record
-- that it stands in.
pub data Handed : Type 0 where
  event : ChangeEvent → FutureRecord → Handed
  relation : Relation → FutureRecord → Handed
  lsn_of : FutureRecord → Handed

abbrev pub record_of : Handed → FutureRecord
record_of (event e r) = r
record_of (relation q r) = r
record_of (lsn_of r) = r

-- A record of the producer that is read back as it was written.
pub data Readable (avro : AvroCodec) (p : KafkaProducer) : Handed → Type 0 where
  of_event :
      {e : ChangeEvent} {payload : Bytes} (r : Relation)
      → avro.event_from_avro payload ≡ ok e
      → Readable avro p (event e (event_record p r payload))
  of_relation :
      {r : Relation} {payload : Bytes}
      → avro.relation_from_avro payload ≡ ok r
      → Readable avro p (relation r (relation_record p r payload))
  of_lsn : (n : ℕ) → Readable avro p (lsn_of (lsn_record p n))

-- Messages of a transaction, what they are decoded to, and the records that are sent of it, between
-- the relations that are known before and behind. What the crate serde_avro_fast writes of each
-- event and of each relation it reads back.
pub data Sends (valid : Utf8) (avro : AvroCodec) (p : KafkaProducer)
    : RelationMap → RelationMap → List Bytes → List Handed → List FutureRecord → Type 0 where
  nil : {known : RelationMap} → Sends valid avro p known known [] [] []
  cons :
      {known later : RelationMap} {e : ChangeEvent} {r : RelationData} {m payload : Bytes}
      {ms : List Bytes} {hs : List Handed} {rs : List FutureRecord}
      → Decodes valid known e r m
      → avro.event_into_avro e ≡ inr payload
      → avro.event_from_avro payload ≡ ok e
      → Sends valid avro p known later ms hs rs
      → Sends valid avro p known later
          (m ∷ ms)
          (event e (event_record p r.inner payload) ∷ hs)
          (event_record p r.inner payload ∷ rs)
  describe :
      {known later : RelationMap} {r : RelationData} {tail payload : Bytes} {ms : List Bytes}
      {hs : List Handed} {rs : List FutureRecord}
      → RelationData.parse valid (b'R' ∷ tail) ≡ ok r
      → avro.relation_into_avro r.inner ≡ inr payload
      → avro.relation_from_avro payload ≡ ok r.inner
      → Sends valid avro p (insert r.inner.relation_oid r known) later ms hs rs
      → Sends valid avro p known later
          ((b'R' ∷ tail) ∷ ms)
          (relation r.inner (relation_record p r.inner payload) ∷ hs)
          (relation_record p r.inner payload ∷ rs)

abbrev pub changes : List Bytes → List Received
changes ms = map (λ m. Received.event (xlog_data m)) ms

module _ (valid : Utf8) (avro : AvroCodec) (K : FutureProducer) (p : KafkaProducer)
    (broker : Broker K) where
  abbrev pub P : Wal.Producer
  P = cdc_producer avro K p

  send-encoded :
      (k : K.State) (r : Relation) (e : ChangeEvent) (payload : Bytes)
      → avro.event_into_avro e ≡ inr payload
      → send avro K p k r e ≡ K.send k (event_record p r payload)
  unfolding send
  send-encoded k r e payload out = ground (arith, out)

  on_relation-encoded :
      (k : K.State) (r : Relation) (payload : Bytes)
      → avro.relation_into_avro r ≡ inr payload
      → on_relation avro K p k r ≡ K.send k (relation_record p r payload)
  unfolding on_relation
  on_relation-encoded k r payload out = ground (arith, out)

  handle-relation :
      (s : Session K.State) (r : RelationData) (tail payload : Bytes)
      → RelationData.parse valid (b'R' ∷ tail) ≡ ok r
      → avro.relation_into_avro r.inner ≡ inr payload
      → handle P valid s (xlog_data (b'R' ∷ tail))
        ≡ ok (record s {
          producer = (K.send s.producer (relation_record p r.inner payload)).0;
          relation_map = insert r.inner.relation_oid r s.relation_map;
        })
  unfolding handle xlog take_relation
  handle-relation s r tail payload d out =
      ground (arith, d, on_relation-encoded s.producer r.inner payload out)

  -- A record that is sent, and those behind it.
  pending-sent :
      (k k' : K.State) (first : FutureRecord) (rs : List FutureRecord)
      → (K.send k first).1 ≡ none
      → broker.pending k' ≡ broker.pending (K.send k first).0 ++ rs
      → broker.pending k' ≡ broker.pending k ++ first ∷ rs
  pending-sent k k' first rs accepted held =
      held
      ∙ ap (λ (xs : List FutureRecord). xs ++ rs) (broker.send_pending k first accepted)
      ∙ append_assoc (broker.pending k) (first ∷ []) rs

  -- Messages inside a transaction.
  wal_loop-changes :
      (known later : RelationMap) (s : Session K.State) (ms : List Bytes) (hs : List Handed)
      (rs : List FutureRecord) (rest : List Received)
      → Sends valid avro p known later ms hs rs
      → s.relation_map ≡ known
      → s.in_transaction ≡ true
      → Takes K s.producer rs
      → (wal_loop P valid s (changes ms ++ rest)
          ≡ wal_loop P valid
              (record s { producer = after_sends K s.producer rs; relation_map = later })
              rest)
        × (broker.visible (after_sends K s.producer rs) ≡ broker.visible s.producer)
        × (broker.pending (after_sends K s.producer rs) ≡ broker.pending s.producer ++ rs)
  unfolding wal_loop
  wal_loop-changes known later s ms hs rs rest nil same t taken =
      (rw (← same) refl, refl, sym (append-nil (broker.pending s.producer)))
  wal_loop-changes known later s ms hs rs rest
        (cons {e = e} {r = r} {m = m} {payload = payload} {ms = ms'} {hs = hs'} {rs = rs'} d out
          back ds)
        same t (accepted, taken) =
      let first = event_record p r.inner payload in
      let next : Session K.State = record s { producer = (K.send s.producer first).0 } in
      let (runs, seen, held) = wal_loop-changes known later next ms' hs' rs' rest ds same t taken in
      let handled = handle-change P valid s e r m (rw same d) t in
      let sent : after_send P s (send avro K p s.producer r.inner e) ≡ next =
        unfold after_send in
        rw (send-encoded s.producer r.inner e payload out) (rw accepted refl) in
      (
        rw (handled, sent) runs,
        seen ∙ broker.send_visible s.producer first,
        pending-sent s.producer (after_sends K next.producer rs') first rs' accepted held,
      )
  wal_loop-changes known later s ms hs rs rest
        (describe {r = r} {tail = tail} {payload = payload} {ms = ms'} {hs = hs'} {rs = rs'} d out
          back ds)
        same t (accepted, taken) =
      let first = relation_record p r.inner payload in
      let next : Session K.State = record s {
        producer = (K.send s.producer first).0;
        relation_map = insert r.inner.relation_oid r s.relation_map;
      } in
      let (runs, seen, held) =
        wal_loop-changes (insert r.inner.relation_oid r known) later next ms' hs' rs' rest ds
          (ap (insert r.inner.relation_oid r) same) t taken in
      (
        rw (handle-relation s r tail payload d out) runs,
        seen ∙ broker.send_visible s.producer first,
        pending-sent s.producer (after_sends K next.producer rs') first rs' accepted held,
      )

  committed-lsn :
      (k : K.State) (n : ℕ)
      → (K.send k (lsn_record p n)).1 ≡ none
      → (K.commit_transaction (K.send k (lsn_record p n)).0).1 ≡ none
      → commit_transaction avro K p k n
        ≡ ((K.commit_transaction (K.send k (lsn_record p n)).0).0, none)
  unfolding commit_transaction
  committed-lsn k n sent taken = ground (arith, sent, taken)

  -- A transaction of messages that are decoded and written, and whose records are taken, becomes visible as a whole with its
  -- commit: the records of its events in their order, then the record of its end LSN; its LSN is
  -- reported as applied.
  pub wal_loop-visible :
      (s : Session K.State) (later : RelationMap) (ms : List Bytes) (hs : List Handed)
      (rs : List FutureRecord) (lsn end_lsn : ℕ) (rest : List Received)
      → s.in_transaction ≡ false
      → Sends valid avro p s.relation_map later ms hs rs
      → TakesTransaction K s.producer (rs, lsn_record p end_lsn)
      → (wal_loop P valid s
            (Received.event begin ∷ changes ms ++ Received.event (commit lsn end_lsn) ∷ rest)
          ≡ wal_loop P valid
              (record s {
                producer = after_transaction K s.producer (rs, lsn_record p end_lsn);
                relation_map = later;
                in_transaction = false;
                applied = lsn ∷ s.applied;
              })
              rest)
        × (broker.visible (after_transaction K s.producer (rs, lsn_record p end_lsn))
            ≡ broker.visible s.producer ++ (rs ++ lsn_record p end_lsn ∷ []))
  unfolding wal_loop
  wal_loop-visible s later ms hs rs lsn end_lsn rest f ds (begins, taken, last_sent, commits) =
      let opened = (K.begin_transaction s.producer).0 in
      let started : Session K.State = record s { producer = opened; in_transaction = true } in
      let begun : handle P valid s begin ≡ ok started =
        unfold handle begin_transaction in ground (arith, f) in
      let k = after_sends K opened rs in
      let (runs, seen, held) =
        wal_loop-changes s.relation_map later started ms hs rs
          (Received.event (commit lsn end_lsn) ∷ rest) ds refl refl taken in
      let last = lsn_record p end_lsn in
      let sent = (K.send k last).0 in
      let closed : handle P valid (record started { producer = k; relation_map = later })
            (commit lsn end_lsn)
          ≡ ok (record s {
            producer = (K.commit_transaction sent).0;
            relation_map = later;
            in_transaction = false;
            applied = lsn ∷ s.applied;
          }) =
        unfold handle after_commit in rw (committed-lsn k end_lsn last_sent commits) refl in
      (
        rw begun (runs ∙ ap (λ x. x >>= λ s'. wal_loop P valid s' rest) closed),
        broker.commit_visible sent commits
            ∙ rw
                (
                  broker.send_visible k last,
                  broker.send_pending k last last_sent,
                  seen,
                  held,
                  broker.begin_visible s.producer,
                  broker.begin_pending s.producer begins,
                )
                refl,
      )
