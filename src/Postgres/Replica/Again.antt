-- ===== src/Postgres/Replica/Again.antt =====
-- Events that are delivered again: the sink of postgres-connector/src/main.rs commits a message
-- behind its event, so that after a restart it may be handed events that it took before.
use cdc_connector.Prelude.{
  ℕ, ◌≡◌, refl, sym, ap, subst, ◌∙◌, arith, List, [], ◌∷◌, ◌++◌, Option, none, some, ◌==◌, nat_eq,
  if◌then◌else◌, Bool-cases, inl, inr, All, All-append, fun_ext, option_cases,
}
use cdc_connector.HashMap.{HashMap, lookup}
use cdc_connector.Avro.Value.{PgValue}
use cdc_connector.Avro.Equal.{values_beq}
use cdc_connector.Avro.Relation.{Field, Relation}
use cdc_connector.Avro.Event.{Op, ChangeEvent}
use cdc_connector.Avro.Merge.{overlay}
use cdc_connector.Sink.Events.{after_events, TakesAll}
use cdc_connector.Postgres.Rows.{key_values}
use cdc_connector.Postgres.Sink.{Client, PostgresSink, postgres_sink}
use cdc_connector.Postgres.Database.{Database, Rows}
use cdc_connector.Postgres.Replica.{Plain, replay}
use cdc_connector.Postgres.Replica.Caches.{Current}
use cdc_connector.Postgres.Replica.Events.{view, put-forget}
use cdc_connector.Postgres.Replica.Refines.{Followable, PlainEvent, replay_events, on_event-replay}

-- What a change writes, where it keeps the key: a row, or none, under a key.
abbrev Write : Type 0
Write = List PgValue × Option (List PgValue)

abbrev write : Write → Rows → Rows
write (key, value) rows k = if values_beq key k then value else rows k

abbrev write_of : List Field → Op → Write
write_of fields (Op.insert row) = (key_values fields row, some row)
write_of fields (Op.update old row) = (key_values fields (overlay old row), some (overlay old row))
write_of fields (Op.delete key) = (key, none)

replay-write :
    (r : Relation) (op : Op) (rows : Rows)
    → Plain r op
    → replay r.fields op rows ≡ write (write_of r.fields op) rows
replay-write r (Op.insert row) rows plain = refl
replay-write r (Op.update old row) rows (len, covered, kept, full) =
    put-forget r.fields old row rows kept
replay-write r (Op.delete key) rows plain = refl

abbrev write_all : List Write → Rows → Rows
write_all [] rows = rows
write_all (w ∷ ws) rows = write_all ws (write w rows)

-- What is written last under a key, if anything is.
last_written : List Write → List PgValue → Option (Option (List PgValue))
last_written [] k = none
last_written ((key, value) ∷ ws) k = elim (last_written ws k) [
  | some v ↦ some v
  | none ↦ if values_beq key k then some value else none
]

abbrev written_over : Option (Option (List PgValue)) → Option (List PgValue) → Option (List PgValue)
written_over none before = before
written_over (some v) before = v

write_all-last :
    (ws : List Write) (rows : Rows) (k : List PgValue)
    → write_all ws rows k ≡ written_over (last_written ws k) (rows k)
unfolding last_written
write_all-last [] rows k = refl
write_all-last ((key, value) ∷ ws) rows k = write_all-last ws (write (key, value) rows) k ∙ one_more
  where
    one_more :
        written_over (last_written ws k) (write (key, value) rows k)
        ≡ written_over (last_written ((key, value) ∷ ws) k) (rows k)
    one_more = ground arith

-- Writes that are made again change nothing.
write_all_again :
    (ws : List Write) (rows : Rows) → write_all ws (write_all ws rows) ≡ write_all ws rows
write_all_again ws rows = fun_ext at_key
  where
    at_key : (k : List PgValue) → write_all ws (write_all ws rows) k ≡ write_all ws rows k
    at_key k = elim (option_cases (last_written ws k)) [
      | inl missing ↦ ground (arith, write_all-last ws (write_all ws rows) k, missing)
      | inr (v, found) ↦
          ground (arith, write_all-last ws (write_all ws rows) k, write_all-last ws rows k, found)
    ]

module _ (rels : HashMap ℕ Relation) (oid : ℕ) (q : Relation)
    (known : lookup oid rels ≡ some q) where
  writes_of : List ChangeEvent → List Write
  writes_of [] = []
  writes_of (e ∷ es) =
      let rest = writes_of es in if e.rel == oid then write_of q.fields e.op ∷ rest else rest

  replay_events-writes :
      (es : List ChangeEvent) (rows : Rows)
      → All (PlainEvent rels) es
      → replay_events oid q.fields es rows ≡ write_all (writes_of es) rows
  unfolding writes_of
  replay_events-writes [] rows plain = refl
  replay_events-writes (e ∷ es) rows ((r, r_known, one), more) = elim (Bool-cases (e.rel == oid)) [
    | inl same ↦
        let here : e.rel ≡ oid = ground arith in
        let found : lookup oid rels ≡ some r = ap (λ (k : ℕ). lookup k rels) (sym here) ∙ r_known in
        let both : some r ≡ some q = sym found ∙ known in
        let r_eq : r ≡ q = cc in
        let plain : Plain q e.op = subst (λ (x : Relation). Plain x e.op) r_eq one in
        let own : replay_events oid q.fields es (replay q.fields e.op rows)
            ≡ write_all (writes_of es) (write (write_of q.fields e.op) rows) =
          ap (replay_events oid q.fields es) (replay-write q e.op rows plain)
          ∙ replay_events-writes es (write (write_of q.fields e.op) rows) more in
        rw same own
    | inr differ ↦ rw differ (replay_events-writes es rows more)
  ]

  replay_events_again :
      (es : List ChangeEvent) (rows : Rows)
      → All (PlainEvent rels) es
      → replay_events oid q.fields es (replay_events oid q.fields es rows)
        ≡ replay_events oid q.fields es rows
  replay_events_again es rows plain =
      ap (replay_events oid q.fields es) (replay_events-writes es rows plain)
      ∙ replay_events-writes es (write_all (writes_of es) rows) plain
      ∙ write_all_again (writes_of es) rows
      ∙ sym (replay_events-writes es rows plain)

  replay_events-append :
      (xs ys : List ChangeEvent) (rows : Rows)
      → replay_events oid q.fields (xs ++ ys) rows
        ≡ replay_events oid q.fields ys (replay_events oid q.fields xs rows)
  replay_events-append [] ys rows = refl
  replay_events-append (e ∷ xs) ys rows =
      replay_events-append xs ys (if e.rel == oid then replay q.fields e.op rows else rows)

  -- Delivery at least once is enough: where the sink is handed plain events, then again those from
  -- some event on, then others, and takes them all, the table of a relation is that of events which
  -- are each delivered once.
  pub on_event-again :
      (K : Client) (D : Database K) (s : PostgresSink K) (earlier again later : List ChangeEvent)
      → Followable rels
      → Current K D rels s
      → All (PlainEvent rels) earlier
      → All (PlainEvent rels) again
      → All (PlainEvent rels) later
      → TakesAll (postgres_sink K) s (earlier ++ (again ++ (again ++ later)))
      → view K D q
          (after_events (postgres_sink K) s (earlier ++ (again ++ (again ++ later)))).client
        ≡ replay_events oid q.fields (earlier ++ (again ++ later)) (view K D q s.client)
  on_event-again K D s earlier again later good h pe pa pl took =
      let rows = view K D q s.client in
      let plain = PlainEvent rels in
      let whole =
        on_event-replay K D rels good oid q known s (earlier ++ (again ++ (again ++ later))) h
          (All-append plain earlier (again ++ (again ++ later)) pe
            (All-append plain again (again ++ later) pa (All-append plain again later pa pl)))
          took in
      let replayed = replay_events oid q.fields in
      let before = replayed earlier rows in
      whole.1
      ∙ replay_events-append earlier (again ++ (again ++ later)) rows
      ∙ replay_events-append again (again ++ later) before
      ∙ replay_events-append again later (replayed again before)
      ∙ ap (replayed later) (replay_events_again again before pa)
      ∙ sym (replay_events-append again later before)
      ∙ sym (replay_events-append earlier (again ++ later) rows)
