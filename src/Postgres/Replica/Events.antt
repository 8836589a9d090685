-- ===== src/Postgres/Replica/Events.antt =====
-- What an event does to the tables of the sink (`on_event` of postgres-connector/src/main.rs).
use cdc_connector.Prelude.{
  ℕ, ◌≡◌, refl, sym, ap, ◌∙◌, arith, true, List, [], ◌∷◌, length, none, some, Outcome, ok, inl, inr,
  ◌==◌, nat_eq, if◌then◌else◌, Bool-cases, length-map, fun_ext,
}
use cdc_connector.HashMap.{HashMap, lookup}
use cdc_connector.Avro.Value.{PgValue}
use cdc_connector.Avro.Equal.{values_beq}
use cdc_connector.Avro.Relation.{Field, Relation}
use cdc_connector.Avro.Event.{Op}
use cdc_connector.Avro.Merge.{overlay}
use cdc_connector.Wal.{Reply}
use cdc_connector.Sink.{SinkError}
use cdc_connector.Postgres.Relations.{extract_fields_names, extract_keys_rel}
use cdc_connector.Postgres.Rows.{key_values}
use cdc_connector.Postgres.Sink.{Client, PostgresSink, executed}
use cdc_connector.Postgres.Database.{Database, Rows, put, erase, no_null, named_values}
use cdc_connector.Postgres.Replica.{KeysFirst, KeyKept, replay, forget}
use cdc_connector.Postgres.Replica.Shape.{
  upsert_str-query, delete_str-query, named_values-row, column_names-IsName, key_names-IsName,
}
use cdc_connector.Postgres.Replica.Caches.{upsert_of, delete_of, Current}

put-erase : (key row : List PgValue) (rows : Rows) → put key row (erase key rows) ≡ put key row rows
put-erase key row rows = fun_ext at_key
  where
    at_key : (k : List PgValue) → put key row (erase key rows) k ≡ put key row rows k
    at_key k = elim (Bool-cases (values_beq key k)) [
      | inl same ↦ rw same refl
      | inr other ↦ rw other refl
    ]

pub put-forget :
    (fields : List Field) (old row : List PgValue) (rows : Rows)
    → KeyKept fields old row
    → put (key_values fields (overlay old row)) (overlay old row) (forget fields old rows)
      ≡ put (key_values fields (overlay old row)) (overlay old row) rows
put-forget fields [] row rows h = refl
put-forget fields (v ∷ old) row rows h =
    rw h (put-erase (key_values fields (overlay (v ∷ old) row)) (overlay (v ∷ old) row) rows)

pub length-overlay : (old row : List PgValue) → length (overlay old row) ≡ length row
unfolding overlay
length-overlay old [] = ground arith
length-overlay [] (v ∷ row) = omega (arith, length-overlay [] row)
length-overlay (w ∷ old) (v ∷ row) = omega (arith, length-overlay old row)

module _ (K : Client) (D : Database K) where
  -- The rows of the table of a relation.
  abbrev pub view : Relation → K.State → Rows
  view r s = D.rows s r.name (extract_fields_names r) (extract_keys_rel r)

  pub executed-client : (s : PostgresSink K) (p : K.State × Reply) → (executed K s p).0.client ≡ p.0
  unfolding executed
  executed-client s (client, none) = refl
  executed-client s (client, some e) = refl

  pub executed-ok :
      (s : PostgresSink K) (p : K.State × Reply) → (executed K s p).1 ≡ ok tt → p.1 ≡ none
  unfolding executed
  executed-ok s (client, none) h = refl
  executed-ok s (client, some e) h = cc

  module _ (s : K.State) (r : Relation) (first : KeysFirst r) (stmt : K.Statement)
      (values : List PgValue) where
    pub execute-upsert :
        D.query stmt ≡ upsert_of r
        → length values ≡ length r.fields
        → no_null (key_values r.fields values) ≡ true
        → (K.execute s stmt values).1 ≡ none
        → view r (K.execute s stmt values).0 ≡ put (key_values r.fields values) values (view r s)
    execute-upsert q len full replied =
        let key : named_values (extract_keys_rel r) (extract_fields_names r) values
            ≡ key_values r.fields values =
          named_values-row r first values in
        D.execute_upsert s stmt r.name (extract_fields_names r) (extract_keys_rel r) values
          first.table_name (column_names-IsName r first) (key_names-IsName r first)
          (q ∙ upsert_str-query r first) (len ∙ sym columns) (ap no_null key ∙ full) replied
        ∙ ap (λ (k : List PgValue). put k values (view r s)) key
      where
        columns : length (extract_fields_names r) ≡ length r.fields
        columns = unfold extract_fields_names in length-map (λ (f : Field). f.name) r.fields

    pub execute-delete :
        D.query stmt ≡ delete_of r
        → length values ≡ length (extract_keys_rel r)
        → no_null values ≡ true
        → (K.execute s stmt values).1 ≡ none
        → view r (K.execute s stmt values).0 ≡ erase values (view r s)
    execute-delete q len full replied =
        D.execute_delete s stmt r.name (extract_fields_names r) (extract_keys_rel r) values
          first.table_name (key_names-IsName r first) (q ∙ delete_str-query r first) len full
          replied

  module _ (rels : HashMap ℕ Relation) where
    -- The rows behind an event that was taken: those of its relation are changed as at the source,
    -- those of the others are the same.
    abbrev pub Replays : K.State → ℕ → Op → K.State → Type 0
    Replays before rel op after =
        (oid : ℕ) (q : Relation)
        → lookup oid rels ≡ some q
        → view q after ≡ (if rel == oid then replay q.fields op (view q before) else view q before)

    -- What the sink makes of an event: it stays current, and where it took it the rows follow.
    pub record Replayed (s : PostgresSink K) (rel : ℕ) (op : Op)
        (result : PostgresSink K × Outcome SinkError (Unit {0})) : Type 0 where
      pub current : Current K D rels result.0
      pub rows : result.1 ≡ ok tt → Replays s.client rel op result.0.client
