-- ===== src/Feldera/FedTests.antt =====
-- The lines that the Feldera sink feeds, at a pipeline in memory.
use cdc_connector.Prelude.{◌≡◌, refl, List, [], ◌∷◌, codes, pos, nat_eq}
use cdc_connector.HashMap.{lookup-map_values}
use cdc_connector.Avro.Value.{PgValue}
use cdc_connector.Avro.Relation.{Relation}
use cdc_connector.Avro.Event.{Op, ChangeEvent, merge_toasted, merge_row}
use cdc_connector.Avro.Merge.{overlay}
use cdc_connector.Sink.{table_names_of}
use cdc_connector.Sink.Events.{after_events, TakesAll}
use cdc_connector.Postgres.Replica.Fixtures.{rels, ann}
use cdc_connector.Feldera.{
  FelderaConnector, feldera_connector, feldera_sink, convert_row, convert_op, convert_op_batches,
  to_lines, sent, insert_batch, to_sink_result, insert_merged, on_event, zip_row, extract_names,
}
use cdc_connector.Feldera.Fed.{Knows, all_lines_for}
use cdc_connector.Feldera.Feeds.{on_event-fed}
use cdc_connector.Feldera.Collecting.{collecting, ingress}

abbrev start : FelderaConnector collecting
start = feldera_connector collecting (λ p t. []) (codes "cdc") rels

start-Knows : Knows collecting rels start
unfolding feldera_connector table_names_of
start-Knows = record {
  table_names = λ oid. lookup-map_values (λ (r : Relation). r.name) oid rels;
  field_names = λ oid. lookup-map_values (λ (r : Relation). extract_names r.fields) oid rels;
}

abbrev events : List ChangeEvent
events =
    record { op = Op.insert ann; rel = 1 }
    ∷ record { op = Op.insert (PgValue.int4 (pos 7) ∷ PgValue.int8 (pos 90) ∷ []); rel = 2 }
    ∷ record { op = Op.update ann (PgValue.int4 (pos 2) ∷ PgValue.toasted ∷ []); rel = 1 }
    ∷ record { op = Op.delete ann; rel = 1 }
    ∷ []

taken : TakesAll (feldera_sink collecting) start events
unfolding on_event insert_merged merge_toasted merge_row insert_batch convert_op_batches convert_op
    convert_row zip_row to_lines sent to_sink_result feldera_connector table_names_of
taken = (refl, (refl, (refl, (refl, tt))))

on_event-fed_example :
    (after_events (feldera_sink collecting) start events).inner start.pipeline (codes "users")
    ≡ all_lines_for collecting rels (codes "users") events
unfolding feldera_connector
on_event-fed_example =
    on_event-fed collecting ingress rels start events (codes "users") start-Knows taken

users_lines :
    all_lines_for collecting rels (codes "users") events
    ≡ codes "+.." ∷ codes "-.." ∷ codes "+.." ∷ codes "-.." ∷ []
unfolding zip_row overlay extract_names
users_lines = refl
