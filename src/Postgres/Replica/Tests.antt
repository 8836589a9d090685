-- ===== src/Postgres/Replica/Tests.antt =====
-- The theorems about the tables of the sink at two relations, over a database in memory.
use cdc_connector.Prelude.{
  ◌≡◌, refl, ap, false, List, [], ◌∷◌, ◌++◌, none, some, ok, if◌then◌else◌, codes, pos, All, nat_eq,
}
use cdc_connector.Avro.Value.{PgValue}
use cdc_connector.Avro.Equal.{values_beq}
use cdc_connector.Avro.Event.{Op, ChangeEvent, merge_toasted, merge_row}
use cdc_connector.Avro.Merge.{overlay, uncovered}
use cdc_connector.Sink.{table_names_of}
use cdc_connector.Sink.Events.{after_events, TakesAll}
use cdc_connector.Postgres.Relations.{
  extract_key_identity, extract_keys_pos, from_rels, extract_keys_rel,
}
use cdc_connector.Postgres.Rows.{key_values}
use cdc_connector.Postgres.Sink.{
  PostgresSink, to_sql, params, delete_values, pick, get_delete, prepared_delete, get_upsert,
  prepared_upsert, executed, execute, execute_delete, apply, apply_merged, on_event, postgres_sink,
}
use cdc_connector.Postgres.Refresh.{from_rels-Follows}
use cdc_connector.Postgres.Database.{Rows}
use cdc_connector.Postgres.Replica.{replay}
use cdc_connector.Postgres.Replica.Caches.{Current}
use cdc_connector.Postgres.Replica.Events.{view}
use cdc_connector.Postgres.Replica.Memory.{memory, memory_database}
use cdc_connector.Postgres.Replica.Refines.{PlainEvent, replay_events, on_event-replay}
use cdc_connector.Postgres.Replica.Again.{on_event-again}
use cdc_connector.Postgres.Replica.MovedKey.{on_event-moved_key}
use cdc_connector.Postgres.Replica.Fixtures.{
  users, orders, rels, start, rels-Followable, start-Current, ann,
}

abbrev events : List ChangeEvent
events =
    record { op = Op.insert ann; rel = 1 }
    ∷ record { op = Op.insert (PgValue.int4 (pos 7) ∷ PgValue.int8 (pos 90) ∷ []); rel = 2 }
    ∷ record { op = Op.update [] (PgValue.int4 (pos 1) ∷ PgValue.text (codes "bob") ∷ []); rel = 1 }
    ∷ record { op = Op.delete (PgValue.int4 (pos 7) ∷ []); rel = 2 }
    ∷ []

events-Plain : All (PlainEvent rels) events
unfolding uncovered overlay extract_keys_rel
events-Plain = (
  (users, refl, (refl, refl)),
  (
    (orders, refl, (refl, refl)),
    ((users, refl, (refl, refl, tt, refl)), ((orders, refl, (refl, refl)), tt)),
  ),
)

events_taken : TakesAll (postgres_sink memory) start events
unfolding to_sql params on_event apply_merged apply merge_toasted merge_row get_upsert
    prepared_upsert get_delete prepared_delete execute executed execute_delete delete_values
    extract_key_identity pick extract_keys_pos from_rels table_names_of
events_taken = (refl, (refl, (refl, (refl, tt))))

on_event-replay_example :
    Current memory memory_database rels (after_events (postgres_sink memory) start events)
    × (view memory memory_database users (after_events (postgres_sink memory) start events).client
        ≡ replay_events 1 users.fields events (λ k. none))
on_event-replay_example =
    on_event-replay memory memory_database rels rels-Followable 1 users refl start events
      start-Current events-Plain events_taken

abbrev ann_moved : ChangeEvent
ann_moved = record { op = Op.update ann (PgValue.int4 (pos 5) ∷ PgValue.toasted ∷ []); rel = 1 }

abbrev moved : List PgValue
moved = PgValue.int4 (pos 5) ∷ PgValue.text (codes "ann") ∷ []

-- A table in which the row of ann stands.
abbrev with_ann : PostgresSink memory
with_ann = record start {
  client = λ t columns keys k. if values_beq (PgValue.int4 (pos 1) ∷ []) k then some ann else none;
}

with_ann-Current : Current memory memory_database rels with_ann
with_ann-Current = record {
  follows = from_rels-Follows rels;
  upserts = λ oid r stmt known found. cc;
  deletes = λ oid r stmt known found. cc;
}

moved-overlay : overlay ann (PgValue.int4 (pos 5) ∷ PgValue.toasted ∷ []) ≡ moved
unfolding overlay
moved-overlay = refl

moved_covered : uncovered ann (PgValue.int4 (pos 5) ∷ PgValue.toasted ∷ []) ≡ false
unfolding uncovered
moved_covered = refl

moved_taken : (on_event memory with_ann ann_moved).1 ≡ ok tt
unfolding to_sql params on_event apply_merged apply merge_toasted merge_row get_upsert
    prepared_upsert execute executed from_rels table_names_of
moved_taken = refl

on_event-moved_key_example :
    (view memory memory_database users
        (on_event memory with_ann ann_moved).0.client
        (PgValue.int4 (pos 1) ∷ [])
      ≡ some ann)
    × (view memory memory_database users
          (on_event memory with_ann ann_moved).0.client
          (key_values users.fields (overlay ann (PgValue.int4 (pos 5) ∷ PgValue.toasted ∷ [])))
        ≡ some (overlay ann (PgValue.int4 (pos 5) ∷ PgValue.toasted ∷ [])))
    × (replay users.fields ann_moved.op
          (view memory memory_database users with_ann.client)
          (PgValue.int4 (pos 1) ∷ [])
        ≡ none)
on_event-moved_key_example =
    on_event-moved_key memory memory_database rels with_ann 1 users (PgValue.int4 (pos 1))
      (PgValue.text (codes "ann") ∷ []) (PgValue.int4 (pos 5) ∷ PgValue.toasted ∷ [])
      rels-Followable with_ann-Current refl refl moved_covered (rw moved-overlay refl)
      (rw moved-overlay refl) moved_taken

-- The table of users behind the events.
users_behind :
    view memory memory_database users
      (after_events (postgres_sink memory) start events).client
      (PgValue.int4 (pos 1) ∷ [])
    ≡ some (PgValue.int4 (pos 1) ∷ PgValue.text (codes "bob") ∷ [])
unfolding overlay
users_behind = ap (λ (f : Rows). f (PgValue.int4 (pos 1) ∷ [])) on_event-replay_example.1

events_again_taken : TakesAll (postgres_sink memory) start (events ++ (events ++ (events ++ [])))
unfolding to_sql params on_event apply_merged apply merge_toasted merge_row get_upsert
    prepared_upsert get_delete prepared_delete execute executed execute_delete delete_values
    extract_key_identity pick extract_keys_pos from_rels table_names_of
events_again_taken = (
  refl,
  (refl, (refl, (refl, (refl, (refl, (refl, (refl, (refl, (refl, (refl, (refl, tt))))))))))),
)

-- All events twice, and once more.
on_event-again_example :
    view memory memory_database users
      (after_events (postgres_sink memory) start (events ++ (events ++ (events ++ [])))).client
    ≡ replay_events 1 users.fields (events ++ (events ++ [])) (λ k. none)
on_event-again_example =
    on_event-again rels 1 users refl memory memory_database start events events [] rels-Followable
      start-Current events-Plain events-Plain tt events_again_taken
