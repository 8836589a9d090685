-- ===== src/Feldera.antt =====
-- feldera-connector/src/main.rs: the sink that writes the events to a Feldera pipeline as JSON.
mod Tests
pub mod Collecting
mod FedTests
pub mod Ingress
pub mod Fed
pub mod Feeds
pub mod Batches
pub mod NoPanic
pub mod Main
use cdc_connector.Prelude.{
  ℕ, Bool, true, false, List, [], ◌∷◌, ◌++◌, Option, none, some, Bytes, Text, codes, Outcome, ok,
  err, panic, ◌>>=◌, ok_or, ◌==◌, if◌then◌else◌, nat_eq, text_eq, Eq, map, inl, inr, ◌⊎◌,
}
use cdc_connector.HashMap.{HashMap, lookup, collect_from, map_values}
use cdc_connector.HashMap
use cdc_connector.Avro.Value.{PgValue}
use cdc_connector.Avro.Json.{Json, FormatMicros, to_json_value}
use cdc_connector.Avro.Relation.{Field, Relation}
use cdc_connector.Avro.Event.{Op, ChangeEvent, merge_toasted, ToastedOnKeyIdentity}
use cdc_connector.Sink.{
  SinkError, platform, toasted_in_key_only, KafkaSink, TableNames, table_names_of,
}
use cdc_connector.Sink

pub data Error : Type 0 where
  feldera : Text → Error
  serialization : Text → Error
  unknown_relation : ℕ → Error

abbrev pub FelderaRow : Type 0
FelderaRow = HashMap Text Json

pub data FelderaEvent : Type 0 where
  insert : FelderaRow → FelderaEvent
  delete : FelderaRow → FelderaEvent

-- The crates that are called: chrono's formatting, `serde_json::to_writer` with the text of an
-- error, and the request of feldera_rest_api with its pipeline, its table and its body.
pub record Api : Type 1 where
  pub State : Type 0
  pub format : FormatMicros
  pub to_json : FelderaEvent → Text ⊎ Bytes
  pub http_input : State → (pipeline table body : Text) → State × Option Text

-- `values.iter().zip(fields).map(..)`
unfoldable pub zip_row : FormatMicros → List PgValue → List Text → List (Text × Json)
zip_row format [] fields = []
zip_row format (v ∷ vs) [] = []
zip_row format (v ∷ vs) (f ∷ fs) = (f, to_json_value format v) ∷ zip_row format vs fs

unfoldable pub convert_row :
    FormatMicros → ℕ → List PgValue → HashMap ℕ (List Text) → Outcome Error FelderaRow
convert_row format oid values field_names = do
  fields ← ok_or (lookup oid field_names) (unknown_relation oid)
  ok (collect_from [] (zip_row format values fields))

-- What one event is turned to.
unfoldable pub convert_op :
    FormatMicros → HashMap ℕ (List Text) → ChangeEvent → Outcome Error (List FelderaEvent)
convert_op format field_names event = elim event.op [
  | Op.insert row ↦ (do r ← convert_row format event.rel row field_names; ok (insert r ∷ []))
  | Op.update old row ↦ (do
    o ← convert_row format event.rel old field_names
    r ← convert_row format event.rel row field_names
    ok (delete o ∷ insert r ∷ []))
  | Op.delete old ↦ (do o ← convert_row format event.rel old field_names; ok (delete o ∷ []))
]

unfoldable pub convert_op_batches :
    FormatMicros → HashMap ℕ (List Text) → List ChangeEvent → Outcome Error (List FelderaEvent)
convert_op_batches format field_names [] = ok []
convert_op_batches format field_names (event ∷ batch) = do
  first ← convert_op format field_names event
  rest ← convert_op_batches format field_names batch
  ok (first ++ rest)

-- A line for each event.
unfoldable pub to_lines : (FelderaEvent → Text ⊎ Bytes) → List FelderaEvent → Outcome Error Text
to_lines to_json [] = ok []
to_lines to_json (op ∷ batch) = elim (to_json op) [
  | inl e ↦ err (serialization e)
  | inr line ↦ (do rest ← to_lines to_json batch; ok (line ++ (codes "\n" ++ rest)))
]

unfoldable pub extract_names : List Field → List Text
extract_names fields = map (λ f. f.name) fields

-- `map_err` of `on_event`: every error but one is turned to its text by `Display`.
unfoldable pub sink_error : Error → SinkError
sink_error (unknown_relation oid) = Sink.unknown_relation oid
sink_error (feldera e) = platform (codes "Feldera api had an error " ++ e)
sink_error (serialization e) = platform (codes "Serialization " ++ e)

module _ (A : Api) where
  pub record FelderaConnector : Type 0 where
    pub inner : A.State
    pub pipeline : Text
    pub table_names : TableNames
    pub field_names : HashMap ℕ (List Text)

  -- `FelderaConnector::new` behind the client.
  unfoldable pub feldera_connector : A.State → Text → HashMap ℕ Relation → FelderaConnector
  feldera_connector inner pipeline relations = record {
    inner = inner;
    pipeline = pipeline;
    table_names = table_names_of relations;
    field_names = map_values (λ r. extract_names r.fields) relations;
  }

  -- `send` of a request, and what is made of its error.
  unfoldable pub sent :
      FelderaConnector → A.State × Option Text → FelderaConnector × Outcome Error (Unit {0})
  sent s (inner, none) = (record s { inner = inner }, ok tt)
  sent s (inner, some e) = (record s { inner = inner }, err (feldera e))

  unfoldable pub insert_batch :
      FelderaConnector → Text → List ChangeEvent → FelderaConnector × Outcome Error (Unit {0})
  insert_batch s table records =
      elim (convert_op_batches A.format s.field_names records >>= to_lines A.to_json) [
        | ok json_str ↦ sent s (A.http_input s.inner s.pipeline table json_str)
        | err e ↦ (s, err e)
        | panic ↦ (s, panic)
      ]

  unfoldable pub to_sink_result :
      FelderaConnector × Outcome Error (Unit {0}) → FelderaConnector × Outcome SinkError (Unit {0})
  to_sink_result (s, ok u) = (s, ok u)
  to_sink_result (s, err e) = (s, err (sink_error e))
  to_sink_result (s, panic) = (s, panic)

  unfoldable pub insert_merged :
      FelderaConnector
      → ℕ
      → Op × Outcome ToastedOnKeyIdentity (Unit {0})
      → FelderaConnector × Outcome SinkError (Unit {0})
  insert_merged s rel (op, ok u) = elim (lookup rel s.table_names) [
    | none ↦ (s, err (Sink.unknown_relation rel))
    | some table ↦ to_sink_result (insert_batch s table (record { op = op; rel = rel } ∷ []))
  ]
  insert_merged s rel (op, _) = (s, err toasted_in_key_only)

  unfoldable pub on_event :
      FelderaConnector → ChangeEvent → FelderaConnector × Outcome SinkError (Unit {0})
  on_event s event = insert_merged s event.rel (merge_toasted event.op)

  unfoldable pub on_relation :
      FelderaConnector → Relation → FelderaConnector × Outcome SinkError (Unit {0})
  on_relation s relation = (
    record s {
      table_names = HashMap.insert relation.relation_oid relation.name s.table_names;
      field_names =
          HashMap.insert relation.relation_oid (extract_names relation.fields) s.field_names;
    },
    ok tt,
  )

  -- `impl KafkaSink for FelderaConnector`
  abbrev pub feldera_sink : KafkaSink
  feldera_sink = record { State = FelderaConnector; on_event = on_event; on_relation = on_relation }
