-- ===== src/Wal/Delivery.antt =====
-- What becomes of the changes of one transaction.
use cdc_connector.Prelude.{
  ℕ, ◌≡◌, refl, true, false, List, [], ◌∷◌, ◌++◌, none, some, Bytes, Text, ok, arith, ◌==◌, ap, map,
  ◌∙◌, ◌>>=◌,
}
use cdc_connector.Avro.Relation.{Relation}
use cdc_connector.Avro.Event.{ChangeEvent}
use cdc_connector.Decoder.Errors.{Utf8}
use cdc_connector.Decoder.RelationData.{RelationData}
use cdc_connector.Decoder.Messages.{RelationMap, parse_insert, parse_update, parse_delete}
use cdc_connector.Wal.{
  Producer, ReplicationEvent, xlog_data, begin, commit, keep_alive, message, other, Received, event,
  Session, after_send, send_to_producer, change, xlog, after_commit, begin_transaction, handle,
  wal_loop,
}
use cdc_connector.Wal.Recorded.{Call, Log, recorded}

-- A message that is decoded to an event of a relation.
pub data Decodes (valid : Utf8) (relation_map : RelationMap) (e : ChangeEvent) (r : RelationData)
    : Bytes → Type 0 where
  inserted :
      (tail : Bytes)
      → parse_insert valid (b'I' ∷ tail) relation_map ≡ ok (e, r)
      → Decodes valid relation_map e r (b'I' ∷ tail)
  updated :
      (tail : Bytes)
      → parse_update valid (b'U' ∷ tail) relation_map ≡ ok (e, r)
      → Decodes valid relation_map e r (b'U' ∷ tail)
  deleted :
      (tail : Bytes)
      → parse_delete valid (b'D' ∷ tail) relation_map ≡ ok (e, r)
      → Decodes valid relation_map e r (b'D' ∷ tail)

-- Messages and the events that they are decoded to.
pub data AllDecode (valid : Utf8) (relation_map : RelationMap)
    : List Bytes → List ChangeEvent → Type 0 where
  nil : AllDecode valid relation_map [] []
  cons :
      {e : ChangeEvent} {r : RelationData} {m : Bytes} {ms : List Bytes} {es : List ChangeEvent}
      → Decodes valid relation_map e r m
      → AllDecode valid relation_map ms es
      → AllDecode valid relation_map (m ∷ ms) (e ∷ es)

-- The calls for events that are all sent, behind earlier calls, the latest first.
abbrev pub sent_onto : List ChangeEvent → List Call → List Call
sent_onto [] cs = cs
sent_onto (e ∷ es) cs = sent_onto es (Call.send e none ∷ cs)

-- What the server may send outside a transaction that the loop passes over.
pub data Quiet : ReplicationEvent → Type 0 where
  change_message : (tag : ℕ) (tail : Bytes) → (tag == b'R') ≡ false → Quiet (xlog_data (tag ∷ tail))
  commit_event : (lsn end_lsn : ℕ) → Quiet (commit lsn end_lsn)
  keep_alive_event : Quiet keep_alive
  message_event : Quiet message
  other_event : Quiet other

pub data AllQuiet : List ReplicationEvent → Type 0 where
  nil : AllQuiet []
  cons :
      {e : ReplicationEvent} {es : List ReplicationEvent}
      → Quiet e
      → AllQuiet es
      → AllQuiet (e ∷ es)

module _ (P : Producer) (valid : Utf8) where
  -- A decoded change inside a transaction is handed to the producer.
  pub handle-change :
      (s : Session P.State) (e : ChangeEvent) (r : RelationData) (m : Bytes)
      → Decodes valid s.relation_map e r m
      → s.in_transaction ≡ true
      → handle P valid s (xlog_data m) ≡ ok (after_send P s (P.send s.producer r.inner e))
  unfolding handle xlog change send_to_producer
  handle-change s e r m (inserted tail d) t = ground (arith, d, t)
  handle-change s e r m (updated tail d) t = ground (arith, d, t)
  handle-change s e r m (deleted tail d) t = ground (arith, d, t)

  pub handle-Quiet :
      (s : Session P.State) (e : ReplicationEvent)
      → s.in_transaction ≡ false
      → Quiet e
      → handle P valid s e ≡ ok s
  unfolding handle xlog change
  handle-Quiet s e f (change_message tag tail n) = ground (arith, n, f)
  handle-Quiet s e f (commit_event lsn end_lsn) = ground (arith, f)
  handle-Quiet s e f keep_alive_event = refl
  handle-Quiet s e f message_event = refl
  handle-Quiet s e f other_event = refl

  pub wal_loop-Quiet :
      (s : Session P.State) (es : List ReplicationEvent) (rest : List Received)
      → s.in_transaction ≡ false
      → AllQuiet es
      → wal_loop P valid s (map event es ++ rest) ≡ wal_loop P valid s rest
  unfolding wal_loop
  wal_loop-Quiet s es rest f nil = refl
  wal_loop-Quiet s es rest f (cons {e = e} {es = es'} q qs) =
      rw (handle-Quiet s e f q) (wal_loop-Quiet s es' rest f qs)

  -- A change inside a transaction whose send fails aborts it, and of the events that follow, up to the next
  -- begin or relation message, none reaches the producer: no change is sent, and no commit is made.
  pub wal_loop-failed_send :
      (s : Session P.State) (e : ChangeEvent) (r : RelationData) (m : Bytes) (x : Text)
      (es : List ReplicationEvent) (rest : List Received)
      → Decodes valid s.relation_map e r m
      → s.in_transaction ≡ true
      → (P.send s.producer r.inner e).1 ≡ some x
      → AllQuiet es
      → wal_loop P valid s (event (xlog_data m) ∷ map event es ++ rest)
        ≡ wal_loop P valid
            (record s {
              producer = (P.abort_transaction (P.send s.producer r.inner e).0).0;
              in_transaction = false;
            })
            rest
  unfolding wal_loop after_send
  wal_loop-failed_send s e r m x es rest d t f q =
      rw (handle-change s e r m d t, after_failed) (wal_loop-Quiet aborted es rest refl q)
    where
      aborted : Session P.State
      aborted = record s {
        producer = (P.abort_transaction (P.send s.producer r.inner e).0).0;
        in_transaction = false;
      }

      after_failed : after_send P s (P.send s.producer r.inner e) ≡ aborted
      after_failed = ground (arith, f)

module _ (P : Producer) (valid : Utf8)
    (accepts : (p : P.State) (r : Relation) (e : ChangeEvent) → (P.send p r e).1 ≡ none) where
  wal_loop-changes :
      (relation_map : RelationMap) (s : Session (Log P.State)) (ms : List Bytes)
      (es : List ChangeEvent) (rest : List Received)
      → AllDecode valid relation_map ms es
      → s.relation_map ≡ relation_map
      → s.in_transaction ≡ true
      → (p : P.State) × (wal_loop (recorded P) valid s (map (λ m. event (xlog_data m)) ms ++ rest)
          ≡ wal_loop
              (recorded P)
              valid
              (record s { producer = record { inner = p; calls = sent_onto es s.producer.calls } })
              rest)
  unfolding wal_loop
  wal_loop-changes relation_map s ms es rest nil same t = (s.producer.inner, refl)
  wal_loop-changes relation_map s ms es rest
        (cons {e = e} {r = r} {m = m} {ms = ms'} {es = es'} d ds) same t =
      let (p, later) = wal_loop-changes relation_map next ms' es' rest ds same t in
      (p, rw (handled, accepted) later)
    where
      next : Session (Log P.State)
      next = record s {
        producer = record {
          inner = (P.send s.producer.inner r.inner e).0;
          calls = Call.send e none ∷ s.producer.calls;
        };
      }

      handled :
          handle (recorded P) valid s (xlog_data m)
          ≡ ok (after_send (recorded P) s ((recorded P).send s.producer r.inner e))
      handled = handle-change (recorded P) valid s e r m (rw same d) t

      accepted : after_send (recorded P) s ((recorded P).send s.producer r.inner e) ≡ next
      accepted = unfold after_send in rw (accepts s.producer.inner r.inner e) refl

  -- With a producer that accepts changes and commits, a transaction of messages that are decoded
  -- is handed over as a whole: a start, the events in their order, and the commit with the end LSN;
  -- the LSN of the commit is reported as applied, and the loop goes on outside a transaction.
  pub wal_loop-transaction :
      (s : Session (Log P.State)) (ms : List Bytes) (es : List ChangeEvent) (lsn end_lsn : ℕ)
      (rest : List Received)
      → ((p : P.State) (n : ℕ) → (P.commit_transaction p n).1 ≡ none)
      → s.in_transaction ≡ false
      → AllDecode valid s.relation_map ms es
      → (p : P.State) × (wal_loop
            (recorded P)
            valid
            s
            (event begin ∷ map (λ m. event (xlog_data m)) ms ++ event (commit lsn end_lsn) ∷ rest)
          ≡ wal_loop
              (recorded P)
              valid
              (record s {
                producer = record {
                  inner = p;
                  calls = Call.commit end_lsn none ∷ sent_onto es (Call.start ∷ s.producer.calls);
                };
                in_transaction = false;
                applied = lsn ∷ s.applied;
              })
              rest)
  unfolding wal_loop
  wal_loop-transaction s ms es lsn end_lsn rest commits f ds =
      let (p, sent) =
        wal_loop-changes s.relation_map started ms es (event (commit lsn end_lsn) ∷ rest) ds refl
          refl in
      (
        (P.commit_transaction p end_lsn).0,
        rw begun (sent ∙ ap (λ x. x >>= λ s'. wal_loop (recorded P) valid s' rest) (committed p)),
      )
    where
      started : Session (Log P.State)
      started = record s {
        producer = record {
          inner = (P.start_transaction s.producer.inner).0;
          calls = Call.start ∷ s.producer.calls;
        };
        in_transaction = true;
      }

      begun : handle (recorded P) valid s begin ≡ ok started
      begun = unfold handle begin_transaction in ground (arith, f)

      committed :
          (p : P.State)
          → handle
              (recorded P)
              valid
              (record started {
                producer = record {
                  inner = p;
                  calls = sent_onto es (Call.start ∷ s.producer.calls);
                };
              })
              (commit lsn end_lsn)
            ≡ ok (record s {
              producer = record {
                inner = (P.commit_transaction p end_lsn).0;
                calls = Call.commit end_lsn none ∷ sent_onto es (Call.start ∷ s.producer.calls);
              };
              in_transaction = false;
              applied = lsn ∷ s.applied;
            })
      committed p = unfold handle after_commit in rw (commits p end_lsn) refl
