-- ===== src/Pipeline/Invisible.antt =====
-- What the loop of cdc-wal-reader/src/lib.rs leaves hidden from the readers of the broker.
use cdc_connector.Prelude.{
  ◌≡◌, refl, Bool, true, false, List, [], ◌∷◌, none, some, Bytes, Outcome, ok, err, panic, inl, inr,
  arith, ◌∙◌, ◌==◌, if◌then◌else◌, nat_eq, All, Bool-cases, >>=-eq-ok, sum_cases,
}
use cdc_connector.Avro.Relation.{Relation}
use cdc_connector.Avro.Event.{ChangeEvent}
use cdc_connector.Avro.Codec.{AvroCodec}
use cdc_connector.Decoder.Errors.{Decoded, Utf8}
use cdc_connector.Decoder.RelationData
use cdc_connector.Decoder.RelationData.{RelationData}
use cdc_connector.Decoder.Messages.{parse_insert, parse_update, parse_delete}
use cdc_connector.Wal
use cdc_connector.Wal.{
  Producer, Session, StartWalInputError, Received, event, failed, ReplicationEvent, xlog_data,
  begin, commit, keep_alive, message, other, handle, xlog, change, send_to_producer, take_relation,
  wal_loop, close, after_send, begin_transaction,
}
use cdc_connector.Producer.{
  FutureProducer, KafkaProducer, send, on_relation, cdc_producer, event_record, relation_record,
}
use cdc_connector.Pipeline.Broker.{Broker}

-- What is received apart from commits.
abbrev pub NoCommit : Received → Type 0
NoCommit (event (commit lsn end_lsn)) = ⊥
NoCommit r = Unit

module _ (P : Producer) (valid : Utf8) (Inv : P.State → Type 0)
    (start_keeps : (p : P.State) → Inv p → Inv (P.start_transaction p).0)
    (send_keeps : (p : P.State) (r : Relation) (e : ChangeEvent) → Inv p → Inv (P.send p r e).0)
    (relation_keeps : (p : P.State) (r : Relation) → Inv p → Inv (P.on_relation p r).0)
    (abort_keeps : (p : P.State) → Inv p → Inv (P.abort_transaction p).0) where
  -- Where it returns a session, the invariant holds of its producer.
  record Keeps (r : Outcome StartWalInputError (Session P.State)) : Type 0 where
    holds : (s : Session P.State) → r ≡ ok s → Inv s.producer

  Keeps-ok : (s : Session P.State) → Inv s.producer → Keeps (ok s)
  Keeps-ok s h = record { holds = λ s' e. (let same : s' ≡ s = cc in rw same h) }

  Keeps-if :
      (b : Bool) {m n : Outcome StartWalInputError (Session P.State)}
      → Keeps m
      → Keeps n
      → Keeps (if b then m else n)
  Keeps-if true km kn = km
  Keeps-if false km kn = kn

  Keeps-err : (x : StartWalInputError) → Keeps (err x)
  Keeps-err x = record { holds = λ s e. cc }

  Keeps-panic : Keeps panic
  Keeps-panic = record { holds = λ s e. cc }

  after_send-Inv :
      (s : Session P.State) (r : P.State × Wal.Reply) → Inv r.0 → Inv (after_send P s r).producer
  unfolding after_send
  after_send-Inv s (p, none) h = h
  after_send-Inv s (p, some x) h = abort_keeps p h

  change-Keeps :
      (s : Session P.State) (d : Decoded (ChangeEvent × RelationData))
      → Inv s.producer
      → Keeps (change P s d)
  unfolding change send_to_producer
  change-Keeps s (ok (e, r)) h =
      Keeps-if s.in_transaction
        (Keeps-ok (after_send P s (P.send s.producer r.inner e))
          (after_send-Inv s (P.send s.producer r.inner e) (send_keeps s.producer r.inner e h)))
        (Keeps-ok s h)
  change-Keeps s (err x) h = Keeps-if s.in_transaction (Keeps-ok s h) (Keeps-ok s h)
  change-Keeps s panic h = Keeps-if s.in_transaction Keeps-panic (Keeps-ok s h)

  take_relation-Keeps :
      (s : Session P.State) (d : Decoded RelationData)
      → Inv s.producer
      → Keeps (take_relation P s d)
  unfolding take_relation
  take_relation-Keeps s (ok r) h = Keeps-ok _ (relation_keeps s.producer r.inner h)
  take_relation-Keeps s (err x) h = Keeps-ok s h
  take_relation-Keeps s panic h = Keeps-panic

  xlog-Keeps : (s : Session P.State) (bytes : Bytes) → Inv s.producer → Keeps (xlog P valid s bytes)
  unfolding xlog
  xlog-Keeps s [] h = Keeps-panic
  xlog-Keeps s (tag ∷ tail) h =
      Keeps-if (tag == b'R') (take_relation-Keeps s (RelationData.parse valid (tag ∷ tail)) h) (
        Keeps-if (tag == b'I') (change-Keeps s (parse_insert valid (tag ∷ tail) s.relation_map) h) (
          Keeps-if (tag == b'D') (change-Keeps s (parse_delete valid (tag ∷ tail) s.relation_map) h)
            (Keeps-if (tag == b'U')
              (change-Keeps s (parse_update valid (tag ∷ tail) s.relation_map) h) (Keeps-ok s h))))

  begin-Inv : (s : Session P.State) → Inv s.producer → Inv (begin_transaction P s).producer
  unfolding begin_transaction
  begin-Inv s h = elim (Bool-cases s.in_transaction) [
    | inl e ↦ rw e (start_keeps (P.abort_transaction s.producer).0 (abort_keeps s.producer h))
    | inr e ↦ rw e (start_keeps s.producer h)
  ]

  close-Inv : (s : Session P.State) → Inv s.producer → Inv (close P s).producer
  unfolding close
  close-Inv s h = elim (Bool-cases s.in_transaction) [
    | inl e ↦ rw e (abort_keeps s.producer h)
    | inr e ↦ rw e h
  ]

  handle-Keeps :
      (s : Session P.State) (e : ReplicationEvent)
      → NoCommit (event e)
      → Inv s.producer
      → Keeps (handle P valid s e)
  unfolding handle
  handle-Keeps s (xlog_data bytes) n h = xlog-Keeps s bytes h
  handle-Keeps s begin n h = Keeps-ok (begin_transaction P s) (begin-Inv s h)
  handle-Keeps s (commit lsn end_lsn) n h = absurd n
  handle-Keeps s keep_alive n h = Keeps-ok s h
  handle-Keeps s message n h = Keeps-ok s h
  handle-Keeps s other n h = Keeps-ok s h

  wal_loop-Keeps :
      (s : Session P.State) (received : List Received)
      → All NoCommit received
      → Inv s.producer
      → Keeps (wal_loop P valid s received)
  unfolding wal_loop
  wal_loop-Keeps s [] n h = Keeps-ok (close P s) (close-Inv s h)
  wal_loop-Keeps s (failed ∷ rest) n h = Keeps-err Wal.wal_error
  wal_loop-Keeps s (event e ∷ rest) n h = record {
    holds = λ s' eq.
        (let (next, handled, later) =
            >>=-eq-ok (handle P valid s e) (λ x. wal_loop P valid x rest) eq in
          (wal_loop-Keeps next rest n.1 ((handle-Keeps s e n.0 h).holds next handled)).holds s'
            later);
  }

module _ (valid : Utf8) (avro : AvroCodec) (K : FutureProducer) (p : KafkaProducer)
    (broker : Broker K) where
  send-visible :
      (k : K.State) (r : Relation) (e : ChangeEvent)
      → broker.visible (send avro K p k r e).0 ≡ broker.visible k
  unfolding send
  send-visible k r e = elim (sum_cases (avro.event_into_avro e)) [
    | inl (x, eq) ↦ ground (arith, eq)
    | inr (payload, eq) ↦ ground (arith, eq, broker.send_visible k (event_record p r payload))
  ]

  on_relation-visible :
      (k : K.State) (r : Relation) → broker.visible (on_relation avro K p k r).0 ≡ broker.visible k
  unfolding on_relation
  on_relation-visible k r = elim (sum_cases (avro.relation_into_avro r)) [
    | inl (x, eq) ↦ ground (arith, eq)
    | inr (payload, eq) ↦ ground (arith, eq, broker.send_visible k (relation_record p r payload))
  ]

  -- Whatever the broker answers, nothing but a commit makes records visible: behind a stream with no
  -- commit, with changes sent or refused, transactions begun or aborted, and at the end of the
  -- connection, the readers see what they saw before.
  pub wal_loop-hidden :
      (s s' : Session K.State) (received : List Received)
      → All NoCommit received
      → wal_loop (cdc_producer avro K p) valid s received ≡ ok s'
      → broker.visible s'.producer ≡ broker.visible s.producer
  wal_loop-hidden s s' received n e =
      (wal_loop-Keeps (cdc_producer avro K p) valid
          (λ k. broker.visible k ≡ broker.visible s.producer) (λ k h. broker.begin_visible k ∙ h)
          (λ k r event h. send-visible k r event ∙ h) (λ k r h. on_relation-visible k r ∙ h)
          (λ k h. broker.abort_visible k ∙ h) s received n refl).holds
        s' e
