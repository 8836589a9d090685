-- ===== src/Wal.antt =====
-- cdc-wal-reader/src/lib.rs: the loop that reads replication events and drives a producer.
pub mod Recorded
pub mod Protocol
pub mod Delivery
pub mod Identity
pub mod FailedCommit
pub mod Dropped
mod Tests
mod DroppedTests
use cdc_connector.Prelude.{
  ℕ, Bool, true, false, List, [], ◌∷◌, Option, none, some, Bytes, Text, Outcome, ok, err, panic,
  ◌>>=◌, ◌==◌, if◌then◌else◌, nat_eq,
}
use cdc_connector.HashMap.{insert}
use cdc_connector.Avro.Relation.{Relation}
use cdc_connector.Avro.Event.{ChangeEvent}
use cdc_connector.Decoder.Errors.{Decoded, Utf8}
use cdc_connector.Decoder.RelationData
use cdc_connector.Decoder.RelationData.{RelationData}
use cdc_connector.Decoder.Messages.{RelationMap, parse_insert, parse_update, parse_delete}

-- `Result<(), String>`: an error with its text, or none.
abbrev pub Reply : Type 0
Reply = Option Text

-- The trait `Producer`. An `async` call is its effect on the producer's state, and its reply.
pub record Producer : Type 1 where
  pub State : Type 0
  pub start_transaction : State → State × Reply
  pub send : State → Relation → ChangeEvent → State × Reply
  pub on_relation : State → Relation → State × Reply
  pub commit_transaction : State → ℕ → State × Reply
  pub abort_transaction : State → State × Reply

-- `ReplicationEvent` of the crate pgwire_replication: the variants that the loop tells apart, and
-- those of their fields that it reads.
pub data ReplicationEvent : Type 0 where
  xlog_data : Bytes → ReplicationEvent
  begin : ReplicationEvent
  commit : (lsn end_lsn : ℕ) → ReplicationEvent
  keep_alive message other : ReplicationEvent

-- What `client.recv()` returns; that the connection is closed is the end of a list of these.
pub data Received : Type 0 where
  event : ReplicationEvent → Received
  failed : Received

pub data StartWalInputError : Type 0 where
  postgres_error wal_error : StartWalInputError

-- The variables of the loop, and what it tells the replication client.
pub record Session (S : Type 0) : Type 0 where
  pub producer : S
  pub relation_map : RelationMap
  pub in_transaction : Bool
  -- The arguments of `client.update_applied_lsn`, the latest first.
  pub applied : List ℕ

module _ (P : Producer) where
  -- The end of `send_to_producer`: a failed send aborts the transaction.
  unfoldable pub after_send : Session P.State → P.State × Reply → Session P.State
  after_send s (p, none) = record s { producer = p }
  after_send s (p, some e) = record s {
    producer = (P.abort_transaction p).0;
    in_transaction = false;
  }

  -- An event that was not decoded is logged, and nothing else.
  unfoldable pub send_to_producer :
      Session P.State
      → Decoded (ChangeEvent × RelationData)
      → Outcome StartWalInputError (Session P.State)
  send_to_producer s (ok (change_event, relation)) =
      ok (after_send s (P.send s.producer relation.inner change_event))
  send_to_producer s (err e) = ok s
  send_to_producer s panic = panic

  -- The branch of the tag 'R'.
  unfoldable pub take_relation :
      Session P.State → Decoded RelationData → Outcome StartWalInputError (Session P.State)
  take_relation s (ok relation) = ok (record s {
    producer = (P.on_relation s.producer relation.inner).0;
    relation_map = insert relation.inner.relation_oid relation s.relation_map;
  })
  take_relation s (err e) = ok s
  take_relation s panic = panic

  -- A change is read only inside a transaction.
  unfoldable pub change :
      Session P.State
      → Decoded (ChangeEvent × RelationData)
      → Outcome StartWalInputError (Session P.State)
  change s decoded = if s.in_transaction then send_to_producer s decoded else ok s

  -- `match data[0]`: empty data is logged, and then indexed.
  unfoldable pub xlog :
      Utf8 → Session P.State → Bytes → Outcome StartWalInputError (Session P.State)
  xlog valid s [] = panic
  xlog valid s (tag ∷ tail) =
      if tag == b'R'
      then take_relation s (RelationData.parse valid (tag ∷ tail))
      else if tag == b'I'
      then change s (parse_insert valid (tag ∷ tail) s.relation_map)
      else if tag == b'D'
      then change s (parse_delete valid (tag ∷ tail) s.relation_map)
      else if tag == b'U'
      then change s (parse_update valid (tag ∷ tail) s.relation_map)
      else ok s

  -- The branch of `Commit`, with what the producer answered.
  unfoldable pub after_commit : Session P.State → ℕ → P.State × Reply → Session P.State
  after_commit s lsn (p, none) = record s {
    producer = p;
    in_transaction = false;
    applied = lsn ∷ s.applied;
  }
  after_commit s lsn (p, some e) = record s { producer = p; in_transaction = false }

  unfoldable pub begin_transaction : Session P.State → Session P.State
  begin_transaction s =
      if s.in_transaction
      then record s { producer = (P.start_transaction (P.abort_transaction s.producer).0).0 }
      else record s { producer = (P.start_transaction s.producer).0; in_transaction = true }

  -- One round of the loop of `start_wal_input`.
  unfoldable pub handle :
      Utf8 → Session P.State → ReplicationEvent → Outcome StartWalInputError (Session P.State)
  handle valid s (xlog_data bytes) = xlog valid s bytes
  handle valid s begin = ok (begin_transaction s)
  handle valid s (commit lsn end_lsn) =
      if s.in_transaction
      then ok (after_commit s lsn (P.commit_transaction s.producer end_lsn))
      else ok s
  handle valid s keep_alive = ok s
  handle valid s message = ok s
  handle valid s other = ok s

  -- Behind the loop: the connection was closed.
  unfoldable pub close : Session P.State → Session P.State
  close s =
      if s.in_transaction then record s { producer = (P.abort_transaction s.producer).0 } else s

  -- The loop from a session on.
  unfoldable pub wal_loop :
      Utf8 → Session P.State → List Received → Outcome StartWalInputError (Session P.State)
  wal_loop valid s [] = ok (close s)
  wal_loop valid s (failed ∷ rest) = err wal_error
  wal_loop valid s (event e ∷ rest) = do s' ← handle valid s e; wal_loop valid s' rest

  -- `start_wal_input`, behind the connection to the server.
  unfoldable pub start_wal_input :
      Utf8 → P.State → List Received → Outcome StartWalInputError (Session P.State)
  start_wal_input valid producer received =
      wal_loop valid
        (record { producer = producer; relation_map = []; in_transaction = false; applied = [] })
        received
