-- ===== src/Pipeline/Replicated.antt =====
-- The tables of the source in the database of the sink: the loop of cdc-wal-reader/src/lib.rs, the
-- producer of cdc-producer/src/main.rs and the sink of postgres-connector/src/main.rs together.
use cdc_connector.Prelude.{
  ℕ, ◌≡◌, refl, sym, ap, ◌∙◌, arith, false, List, [], ◌∷◌, ◌++◌, some, Text, ok, ◌==◌, nat_eq, All,
  Bool-cases, inl, inr, ◌≢◌, map, Bool, true, if◌then◌else◌,
}
use cdc_connector.HashMap.{HashMap, lookup, insert, lookup-insert}
use cdc_connector.Avro.Relation.{Relation, Field}
use cdc_connector.Avro.Event.{ChangeEvent}
use cdc_connector.Avro.Codec.{AvroCodec}
use cdc_connector.Decoder.Errors.{Utf8}
use cdc_connector.Decoder.Messages.{RelationMap}
use cdc_connector.Wal.{Session, Received, wal_loop}
use cdc_connector.Sink.{Consumer, consume}
use cdc_connector.Producer.{FutureRecord, FutureProducer, kafka_producer, cdc_producer, event_topic}
use cdc_connector.Postgres.Sink.{Client, PostgresSink, postgres_sink, on_relation}
use cdc_connector.Postgres.Refresh.{update-Follows}
use cdc_connector.Postgres.Database.{Database, Rows}
use cdc_connector.Postgres.Replica.{Plain, replay}
use cdc_connector.Postgres.Replica.Caches.{Current}
use cdc_connector.Postgres.Replica.Events.{view}
use cdc_connector.Postgres.Replica.Refines.{Followable, replay_events, on_event-replay}
use cdc_connector.Pipeline.Broker.{Broker, TakesTransactions}
use cdc_connector.Pipeline.Transaction.{Handed, event, relation, lsn_of, record_of}
use cdc_connector.Pipeline.Stream.{Arrives, reported_onto}
use cdc_connector.Pipeline.Delivered.{
  stream_of, after_handed, behind, TakesHanded, wal_loop-consume, Interleaved, done, keep, swap,
  both, All-Interleaved,
}

-- The events among what a sink reads.
abbrev pub events_of : List Handed → List ChangeEvent
events_of [] = []
events_of (event e r ∷ hs) = e ∷ events_of hs
events_of (relation q r ∷ hs) = events_of hs
events_of (lsn_of r ∷ hs) = events_of hs

-- A plain event in the topic of its relation, or a relation that is known as it is: the server
-- describes a relation again on every connection.
abbrev pub PlainHanded : Text → HashMap ℕ Relation → Handed → Type 0
PlainHanded topic rels (event e r) =
    (q : Relation) × (lookup e.rel rels ≡ some q)
    × Plain q e.op
    × (r.topic ≡ event_topic topic q.namespace q.name)
PlainHanded topic rels (relation q r) = lookup q.relation_oid rels ≡ some q
PlainHanded topic rels (lsn_of r) = Unit

conditional-swap :
    (a b : Bool) (f g : Rows → Rows) (rows : Rows)
    → (a ≡ true → b ≡ true → ⊥)
    → (let then_b = (if b then g rows else rows) in if a then f then_b else then_b)
      ≡ (let then_a = (if a then f rows else rows) in if b then g then_a else then_a)
conditional-swap true true f g rows never = absurd (never refl refl)
conditional-swap true false f g rows never = refl
conditional-swap false b f g rows never = refl

-- In every order that keeps the order within the topics, the events of one relation change its table
-- alike.
module _ (topic : Text) (rels : HashMap ℕ Relation) (oid : ℕ) (fields : List Field) where
  replay_events-swap :
      (g h : Handed) (hs : List Handed) (rows : Rows)
      → PlainHanded topic rels g
      → PlainHanded topic rels h
      → (record_of g).topic ≢ (record_of h).topic
      → replay_events oid fields (events_of (h ∷ g ∷ hs)) rows
        ≡ replay_events oid fields (events_of (g ∷ h ∷ hs)) rows
  replay_events-swap (event d r) (event e r') hs rows (q, d_known, d_plain, d_topic)
        (q', e_known, e_plain, e_topic) apart =
      ap (replay_events oid fields (events_of hs)) (
        conditional-swap (d.rel == oid) (e.rel == oid) (replay fields d.op) (replay fields e.op)
          rows never_both)
    where
      never_both : d.rel == oid ≡ true → e.rel == oid ≡ true → ⊥
      never_both d_is e_is =
          let same : d.rel ≡ e.rel = ground (arith, d_is, e_is) in
          let found : lookup e.rel rels ≡ some q = rw same at d_known in
          let both_known : some q ≡ some q' = sym found ∙ e_known in
          let q_eq : q ≡ q' = cc in
          let in_one : event_topic topic q.namespace q.name
              ≡ event_topic topic q'.namespace q'.name =
            ap (λ (x : Relation). event_topic topic x.namespace x.name) q_eq in
          apart (d_topic ∙ in_one ∙ sym e_topic)
  replay_events-swap (event d r) (relation q' r') hs rows dp ep apart = refl
  replay_events-swap (event d r) (lsn_of r') hs rows dp ep apart = refl
  replay_events-swap (relation q r) (event e r') hs rows dp ep apart = refl
  replay_events-swap (relation q r) (relation q' r') hs rows dp ep apart = refl
  replay_events-swap (relation q r) (lsn_of r') hs rows dp ep apart = refl
  replay_events-swap (lsn_of r) (event e r') hs rows dp ep apart = refl
  replay_events-swap (lsn_of r) (relation q' r') hs rows dp ep apart = refl
  replay_events-swap (lsn_of r) (lsn_of r') hs rows dp ep apart = refl

  replay_events-Interleaved :
      (hs seen : List Handed) (rows : Rows)
      → Interleaved hs seen
      → All (PlainHanded topic rels) hs
      → replay_events oid fields (events_of seen) rows
        ≡ replay_events oid fields (events_of hs) rows
  replay_events-Interleaved hs seen rows done plain = refl
  replay_events-Interleaved hs seen rows (keep {h = event e r} {hs = more} {hs' = more'} i)
        (one, rest) =
      replay_events-Interleaved more more' (if e.rel == oid then replay fields e.op rows else rows)
        i rest
  replay_events-Interleaved hs seen rows (keep {h = relation q r} {hs = more} {hs' = more'} i)
        (one, rest) =
      replay_events-Interleaved more more' rows i rest
  replay_events-Interleaved hs seen rows (keep {h = lsn_of r} {hs = more} {hs' = more'} i)
        (one, rest) =
      replay_events-Interleaved more more' rows i rest
  replay_events-Interleaved hs seen rows (swap {g = g} {h = h} {hs = more} apart)
        (one, (two, rest)) =
      replay_events-swap g h more rows one two apart
  replay_events-Interleaved hs seen rows (both {hs' = middle} i j) plain =
      replay_events-Interleaved middle seen rows j
        (All-Interleaved (PlainHanded topic rels) hs middle i plain)
      ∙ replay_events-Interleaved hs middle rows i plain

lookup-insert_known :
    (rels : HashMap ℕ Relation) (r : Relation) (oid : ℕ)
    → lookup r.relation_oid rels ≡ some r
    → lookup oid (insert r.relation_oid r rels) ≡ lookup oid rels
lookup-insert_known rels r oid known = elim (Bool-cases (r.relation_oid == oid)) [
  | inl same ↦
      let e : r.relation_oid ≡ oid = ground arith in
      let found : lookup oid rels ≡ some r = ap (λ (k : ℕ). lookup k rels) (sym e) ∙ known in
      rw (lookup-insert r.relation_oid oid r rels, same, found) refl
  | inr differ ↦ rw (lookup-insert r.relation_oid oid r rels, differ) refl
]

module _ (K : Client) (D : Database K) (rels : HashMap ℕ Relation) (good : Followable rels) where
  -- A relation that is known leaves the sink current, and its rows as they are.
  on_relation-Current :
      (s : PostgresSink K) (r : Relation)
      → lookup r.relation_oid rels ≡ some r
      → Current K D rels s
      → Current K D rels (on_relation K s r).0
  unfolding on_relation
  on_relation-Current s r known h =
      let new = update-Follows s.relations rels r h.follows in
      record {
        follows = record {
          identities = λ oid. rw (← lookup-insert_known rels r oid known) (new.identities oid);
          table_names = λ oid. rw (← lookup-insert_known rels r oid known) (new.table_names oid);
          fields = λ oid. rw (← lookup-insert_known rels r oid known) (new.fields oid);
          keys = λ oid. rw (← lookup-insert_known rels r oid known) (new.keys oid);
        };
        upserts = h.upserts;
        deletes = h.deletes;
      }

  module _ (oid : ℕ) (q : Relation) (known : lookup oid rels ≡ some q) where
    after_handed-replay :
        (topic : Text) (s : PostgresSink K) (hs : List Handed)
        → Current K D rels s
        → All (PlainHanded topic rels) hs
        → TakesHanded (postgres_sink K) s hs
        → view K D q (after_handed (postgres_sink K) s hs).client
          ≡ replay_events oid q.fields (events_of hs) (view K D q s.client)
    unfolding on_relation
    after_handed-replay topic s [] h plain took = refl
    after_handed-replay topic s (event e r ∷ hs) h ((x, found, good_one, in_topic), more)
          (took, later) =
        let (current, changed) =
          on_event-replay K D rels good oid q known s (e ∷ []) h ((x, found, good_one), tt)
            (took, tt) in
        after_handed-replay topic ((postgres_sink K).on_event s e).0 hs current more later
        ∙ ap (replay_events oid q.fields (events_of hs)) changed
    after_handed-replay topic s (relation x r ∷ hs) h (same, more) (calm, later) =
        after_handed-replay topic (on_relation K s x).0 hs (on_relation-Current s x same h) more
          later
    after_handed-replay topic s (lsn_of r ∷ hs) h (one, more) took =
        after_handed-replay topic s hs h more took

    -- The program replicates: where the server sends transactions of messages that are decoded and
    -- written, of plain events in the topics of their relations and of relations that are known, and
    -- the broker takes the calls of the run, the loop comes to its end and its records become visible
    -- in order; a sink that reads them in any order that keeps the order within each topic, and takes
    -- the events in that order, comes to its end; then the table of a relation that the sink knows is
    -- that of before with the changes of the relation, in the order of the source.
    pub wal_loop-replicates :
        (avro : AvroCodec) (topic key : Text) (valid : Utf8) (B : FutureProducer)
        (broker : Broker B) (s : Session B.State) (later : RelationMap) (received : List Received)
        (hs seen : List Handed) (rs : List (List FutureRecord × FutureRecord)) (lsns : List ℕ)
        (c : Consumer (PostgresSink K))
        → s.in_transaction ≡ false
        → Arrives valid avro (kafka_producer topic key) s.relation_map later received hs rs lsns
        → TakesTransactions B s.producer rs
        → Interleaved hs seen
        → Current K D rels c.sink
        → All (PlainHanded topic rels) hs
        → TakesHanded (postgres_sink K) c.sink seen
        → (s' : Session B.State) × (c' : Consumer (PostgresSink K)) × (wal_loop
              (cdc_producer avro B (kafka_producer topic key))
              valid
              s
              received
            ≡ ok s')
          × (broker.visible s'.producer ≡ broker.visible s.producer ++ map record_of hs)
          × (consume (postgres_sink K) avro topic c (stream_of (map record_of seen)) ≡ ok c')
          × (view K D q c'.sink.client
              ≡ replay_events oid q.fields (events_of hs) (view K D q c.sink.client))
    wal_loop-replicates avro topic key valid B broker s later received hs seen rs lsns c f arrives
          taken order h plain took =
        let (k, runs, grown, consumed) =
          wal_loop-consume (postgres_sink K) avro topic key valid B broker s later received hs seen
            rs lsns c f arrives taken order took in
        (
          record {
            producer = k;
            relation_map = later;
            in_transaction = false;
            applied = reported_onto lsns s.applied;
          },
          behind (postgres_sink K) c seen,
          runs,
          grown,
          consumed,
          after_handed-replay topic c.sink seen h
                (All-Interleaved (PlainHanded topic rels) hs seen order plain) took
              ∙ replay_events-Interleaved topic rels oid q.fields hs seen (view K D q c.sink.client)
                  order plain,
        )
