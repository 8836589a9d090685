-- ===== src/Wal/Protocol.antt =====
-- The calls that the loop makes of its producer, as a protocol of transactions.
use cdc_connector.Prelude.{
  ℕ, suc, ◌≡◌, refl, Bool, true, false, List, [], ◌∷◌, Option, none, some, Bytes, Outcome, ok, err,
  panic, arith, length, if◌then◌else◌, ◌==◌, Bool-cases, option_cases, inl, inr, ◌>>=◌,
}
use cdc_connector.Avro.Relation.{Relation}
use cdc_connector.Avro.Event.{ChangeEvent}
use cdc_connector.Decoder.Errors.{Decoded, Utf8}
use cdc_connector.Decoder.RelationData
use cdc_connector.Decoder.RelationData.{RelationData}
use cdc_connector.Decoder.Messages.{parse_insert, parse_update, parse_delete}
use cdc_connector.Wal.{
  Reply, Producer, ReplicationEvent, xlog_data, begin, commit, keep_alive, message, other, Received,
  event, failed, StartWalInputError, Session, after_send, send_to_producer, take_relation, change,
  xlog, after_commit, begin_transaction, handle, close, wal_loop, start_wal_input,
}

-- What is asked of a producer.
pub data Request : Type 0 where
  start : Request
  send : Request
  relation : Request
  commit_at : ℕ → Request
  abort : Request

-- A state of the inner producer and the requests so far with their replies, the latest first.
pub record Asked (S : Type 0) : Type 0 where
  pub inner : S
  pub calls : List (Request × Reply)

-- A producer that keeps what is asked of it and what it replies, around any producer.
abbrev pub asked : Producer → Producer
asked P = record {
  State = Asked P.State;
  start_transaction = λ l.
      let (p, r) = P.start_transaction l.inner in
      (record { inner = p; calls = (start, r) ∷ l.calls }, r);
  send = λ l rel e.
      let (p, r) = P.send l.inner rel e in (record { inner = p; calls = (send, r) ∷ l.calls }, r);
  on_relation = λ l rel.
      let (p, r) = P.on_relation l.inner rel in
      (record { inner = p; calls = (relation, r) ∷ l.calls }, r);
  commit_transaction = λ l n.
      let (p, r) = P.commit_transaction l.inner n in
      (record { inner = p; calls = (commit_at n, r) ∷ l.calls }, r);
  abort_transaction = λ l.
      let (p, r) = P.abort_transaction l.inner in
      (record { inner = p; calls = (abort, r) ∷ l.calls }, r);
}

-- The phase of the transactions behind a request: a start opens one where none is open, and a commit
-- and an abort close the one that is open, as long as they are not refused; a refused one leaves it
-- as it is. `none` where the request breaks the protocol: a start comes where none is open, and
-- changes, commits and aborts come inside one. A relation may be announced at any time.
unfoldable pub phase_after : Request → Reply → Bool → Option Bool
phase_after start none false = some true
phase_after start (some e) false = some false
phase_after start r true = none
phase_after send r true = some true
phase_after send r false = none
phase_after relation r inside = some inside
phase_after (commit_at n) none true = some false
phase_after (commit_at n) (some e) true = some true
phase_after (commit_at n) r false = none
phase_after abort none true = some false
phase_after abort (some e) true = some true
phase_after abort r false = none

-- Whether a transaction is open after the requests, the latest of which comes first; `none` if they
-- break the protocol.
unfoldable pub open_after : List (Request × Reply) → Option Bool
open_after [] = some false
open_after ((c, r) ∷ cs) = elim (open_after cs) [
  | some inside ↦ phase_after c r inside
  | none ↦ none
]

-- No start, commit or abort was refused; the sends may fail.
abbrev pub Granted : List (Request × Reply) → Type 0
Granted [] = Unit
Granted ((send, r) ∷ cs) = Granted cs
Granted ((relation, r) ∷ cs) = Granted cs
Granted ((c, r) ∷ cs) = (r ≡ none) × Granted cs

-- The successful commits among the requests.
unfoldable pub commits : List (Request × Reply) → ℕ
commits [] = 0
commits ((commit_at n, none) ∷ cs) = suc (commits cs)
commits (c ∷ cs) = commits cs

module _ (P : Producer) where
  -- Where none was refused the calls so far follow the protocol, and the flag of the loop says whether
  -- a transaction is open; each LSN that was reported as applied goes with a successful commit.
  pub record Consistent (s : Session (Asked P.State)) : Type 0 where
    pub phase : Granted s.producer.calls → open_after s.producer.calls ≡ some s.in_transaction
    pub counted : commits s.producer.calls ≡ length s.applied

  after_send-Consistent :
      (s : Session (Asked P.State)) (r : Relation) (e : ChangeEvent)
      → s.in_transaction ≡ true
      → Consistent s
      → Consistent (after_send (asked P) s ((asked P).send s.producer r e))
  unfolding after_send open_after phase_after commits
  after_send-Consistent s r e t c = elim (option_cases (P.send s.producer.inner r e).1) [
    | inl taken ↦
        rw taken (record { phase = λ g. ground (arith, c.phase g, t); counted = c.counted })
    | inr (x, refused) ↦ rw refused (record {
      phase = λ (aborted, g). ground (arith, c.phase g, t, aborted);
      counted = ground (arith, c.counted);
    })
  ]

  -- Of a step that returns a session, what holds of that session.
  abbrev Keeps : Outcome StartWalInputError (Session (Asked P.State)) → Type 0
  Keeps (ok s) = Consistent s
  Keeps (err e) = Unit
  Keeps panic = Unit

  Keeps-if :
      (b : Bool) (m n : Outcome StartWalInputError (Session (Asked P.State)))
      → (b ≡ true → Keeps m)
      → (b ≡ false → Keeps n)
      → Keeps (if b then m else n)
  Keeps-if true m n km kn = km refl
  Keeps-if false m n km kn = kn refl

  change-Consistent :
      (s : Session (Asked P.State)) (d : Decoded (ChangeEvent × RelationData))
      → Consistent s
      → Keeps (change (asked P) s d)
  unfolding change send_to_producer
  change-Consistent s d c = Keeps-if s.in_transaction _ _ (sent d) (λ _. c)
    where
      sent :
          (d : Decoded (ChangeEvent × RelationData))
          → s.in_transaction ≡ true
          → Keeps (send_to_producer (asked P) s d)
      sent (ok (e, r)) inside = after_send-Consistent s r.inner e inside c
      sent (err x) inside = c
      sent panic inside = tt

  take_relation-Consistent :
      (s : Session (Asked P.State)) (d : Decoded RelationData)
      → Consistent s
      → Keeps (take_relation (asked P) s d)
  unfolding take_relation open_after phase_after commits
  take_relation-Consistent s (ok r) c = record {
    phase = λ g. ground (arith, c.phase g);
    counted = c.counted;
  }
  take_relation-Consistent s (err e) c = c
  take_relation-Consistent s panic c = tt

  xlog-Consistent :
      (valid : Utf8) (s : Session (Asked P.State)) (bytes : Bytes)
      → Consistent s
      → Keeps (xlog (asked P) valid s bytes)
  unfolding xlog
  xlog-Consistent valid s [] c = tt
  xlog-Consistent valid s (tag ∷ tail) c =
      Keeps-if (tag == b'R') _ _
        (λ _. take_relation-Consistent s (RelationData.parse valid (tag ∷ tail)) c)
        λ _.
          Keeps-if (tag == b'I') _ _
            (λ _. change-Consistent s (parse_insert valid (tag ∷ tail) s.relation_map) c)
            λ _.
              Keeps-if (tag == b'D') _ _
                (λ _. change-Consistent s (parse_delete valid (tag ∷ tail) s.relation_map) c)
                λ _.
                  Keeps-if (tag == b'U') _ _
                    (λ _. change-Consistent s (parse_update valid (tag ∷ tail) s.relation_map) c)
                    (λ _. c)

  begin-Consistent :
      (s : Session (Asked P.State)) → Consistent s → Consistent (begin_transaction (asked P) s)
  unfolding begin_transaction open_after phase_after commits
  begin-Consistent s c = elim (Bool-cases s.in_transaction) [
    | inl inside ↦ rw inside (record {
      phase = λ (started, (aborted, g)). ground (arith, c.phase g, inside, started, aborted);
      counted = ground (arith, c.counted);
    })
    | inr outside ↦ rw outside (record {
      phase = λ (started, g). ground (arith, c.phase g, outside, started);
      counted = ground (arith, c.counted);
    })
  ]

  after_commit-Consistent :
      (s : Session (Asked P.State)) (lsn end_lsn : ℕ)
      → s.in_transaction ≡ true
      → Consistent s
      → Consistent (after_commit (asked P) s lsn ((asked P).commit_transaction s.producer end_lsn))
  unfolding after_commit open_after phase_after commits
  after_commit-Consistent s lsn end_lsn t c =
      elim (option_cases (P.commit_transaction s.producer.inner end_lsn).1) [
        | inl taken ↦ rw taken (record {
          phase = λ (granted, g). ground (arith, c.phase g, t);
          counted = ground (arith, c.counted);
        })
        | inr (x, refused) ↦
            rw refused (record { phase = λ (granted, g). cc; counted = ground (arith, c.counted) })
      ]

  -- Every replication event keeps the session consistent.
  pub handle-Consistent :
      (valid : Utf8) (s : Session (Asked P.State)) (e : ReplicationEvent)
      → Consistent s
      → Keeps (handle (asked P) valid s e)
  unfolding handle
  handle-Consistent valid s (xlog_data bytes) c = xlog-Consistent valid s bytes c
  handle-Consistent valid s begin c = begin-Consistent s c
  handle-Consistent valid s (commit lsn end_lsn) c =
      Keeps-if s.in_transaction _ _ (λ inside. after_commit-Consistent s lsn end_lsn inside c)
        (λ _. c)
  handle-Consistent valid s keep_alive c = c
  handle-Consistent valid s message c = c
  handle-Consistent valid s other c = c

  -- How a connection ends.
  abbrev Ends : Session (Asked P.State) → Type 0
  Ends s =
      (Granted s.producer.calls → open_after s.producer.calls ≡ some false)
      × (commits s.producer.calls ≡ length s.applied)

  close-Consistent : (s : Session (Asked P.State)) → Consistent s → Ends (close (asked P) s)
  unfolding close open_after phase_after commits
  close-Consistent s c = elim (Bool-cases s.in_transaction) [
    | inl inside ↦
        rw inside
          ((λ (aborted, g). ground (arith, c.phase g, inside, aborted)), ground (arith, c.counted))
    | inr outside ↦ rw outside ((λ g. ground (arith, c.phase g, outside)), c.counted)
  ]

  -- What holds of the session that the loop returns.
  abbrev Closed : Outcome StartWalInputError (Session (Asked P.State)) → Type 0
  Closed (ok s) = Ends s
  Closed (err e) = Unit
  Closed panic = Unit

  wal_loop-Closed :
      (valid : Utf8) (s : Session (Asked P.State)) (received : List Received)
      → Consistent s
      → Closed (wal_loop (asked P) valid s received)
  unfolding wal_loop
  wal_loop-Closed valid s [] c = close-Consistent s c
  wal_loop-Closed valid s (failed ∷ rest) c = tt
  wal_loop-Closed valid s (event e ∷ rest) c =
      after (handle (asked P) valid s e) (handle-Consistent valid s e c)
        (λ s'. wal_loop-Closed valid s' rest)
    where
      after :
          (r : Outcome StartWalInputError (Session (Asked P.State)))
          → Keeps r
          → ((s' : Session (Asked P.State))
              → Consistent s'
              → Closed (wal_loop (asked P) valid s' rest))
          → Closed (r >>= λ s'. wal_loop (asked P) valid s' rest)
      after (ok s') k step = step s' k
      after (err x) k step = tt
      after panic k step = tt

  -- Whatever the server sends, and whichever sends fail: when the connection is closed and the
  -- producer refused no start, no commit and no abort, the calls made of it followed the protocol of
  -- transactions, none is left open, and as many LSNs were reported as applied as commits succeeded.
  pub start_wal_input-Closed :
      (valid : Utf8) (p : P.State) (received : List Received) (s : Session (Asked P.State))
      → start_wal_input (asked P) valid (record { inner = p; calls = [] }) received ≡ ok s
      → Granted s.producer.calls
      → (open_after s.producer.calls ≡ some false) × (commits s.producer.calls ≡ length s.applied)
  unfolding start_wal_input
  start_wal_input-Closed valid p received s h granted =
      let closed : Ends s = rw h at (
        wal_loop-Closed valid
          (record {
            producer = record { inner = p; calls = [] };
            relation_map = [];
            in_transaction = false;
            applied = [];
          })
          received (unfold open_after commits in record { phase = λ g. refl; counted = refl })) in
      (closed.0 granted, closed.1)
