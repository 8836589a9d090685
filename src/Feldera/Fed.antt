-- ===== src/Feldera/Fed.antt =====
-- What the sink of feldera-connector/src/main.rs feeds to the tables of its pipeline.
use cdc_connector.Prelude.{
  ℕ, ◌≡◌, ◌≢◌, refl, sym, ap, subst, ◌∙◌, arith, List, [], ◌∷◌, ◌++◌, Option, none, some, Bytes,
  Text, Outcome, ok, err, panic, nat_eq, text_beq, text_beq_iff, if◌then◌else◌, Bool-cases, inl,
  inr, append-nil, text_eq, Outcome-Cases, is_ok, is_err, is_panic,
}
use cdc_connector.HashMap.{HashMap, lookup, collect_from, map_option}
use cdc_connector.Avro.Value.{PgValue}
use cdc_connector.Avro.Relation.{Relation}
use cdc_connector.Avro.Event.{Op, ChangeEvent}
use cdc_connector.Avro.Merge.{overlay}
use cdc_connector.Sink.{SinkError}
use cdc_connector.Feldera.{
  Api, Error, FelderaRow, FelderaEvent, insert, delete, zip_row, convert_row, convert_op,
  convert_op_batches, to_lines, extract_names, FelderaConnector, sent, insert_batch, to_sink_result,
}
use cdc_connector.Feldera.Ingress.{Ingress, joined, lines_of, to_lines-joined, lines_of-OneLine}

module _ (A : Api) where
  -- A row under the names of the relation's columns.
  abbrev pub image : Relation → List PgValue → FelderaRow
  image r row = collect_from [] (zip_row A.format row (extract_names r.fields))

  -- The changes of a table that an operation is: an update takes the old row out and puts the new
  -- one in, with the old values where it was not sent again.
  abbrev pub changes_of : Relation → Op → List FelderaEvent
  changes_of r (Op.insert row) = insert (image r row) ∷ []
  changes_of r (Op.update old row) = delete (image r old) ∷ insert (image r (overlay old row)) ∷ []
  changes_of r (Op.delete old) = delete (image r old) ∷ []

  -- The lines for one table among those of an event, and of events.
  abbrev pub lines_for : HashMap ℕ Relation → Text → ChangeEvent → List Bytes
  lines_for rels table e = elim (lookup e.rel rels) [
    | none ↦ []
    | some r ↦ if text_beq r.name table then lines_of A.to_json (changes_of r e.op) else []
  ]

  abbrev pub all_lines_for : HashMap ℕ Relation → Text → List ChangeEvent → List Bytes
  all_lines_for rels table [] = []
  all_lines_for rels table (e ∷ es) = lines_for rels table e ++ all_lines_for rels table es

  -- The maps of the sink follow a map of relations.
  pub record Knows (rels : HashMap ℕ Relation) (s : FelderaConnector A) : Type 0 where
    pub table_names :
        (oid : ℕ) → lookup oid s.table_names ≡ map_option (λ r. r.name) (lookup oid rels)
    pub field_names :
        (oid : ℕ)
        → lookup oid s.field_names ≡ map_option (λ r. extract_names r.fields) (lookup oid rels)

  -- The changes of an operation whose row is merged.
  abbrev pub direct : Relation → Op → List FelderaEvent
  direct r (Op.insert row) = insert (image r row) ∷ []
  direct r (Op.update old row) = delete (image r old) ∷ insert (image r row) ∷ []
  direct r (Op.delete old) = delete (image r old) ∷ []

  pub convert-direct :
      (field_names : HashMap ℕ (List Text)) (rel : ℕ) (r : Relation) (op : Op)
      → lookup rel field_names ≡ some (extract_names r.fields)
      → convert_op_batches A.format field_names (record { op = op; rel = rel } ∷ [])
        ≡ ok (direct r op)
  unfolding convert_op_batches convert_op convert_row
  convert-direct field_names rel r (Op.insert row) known = ground (arith, known)
  convert-direct field_names rel r (Op.update old row) known = ground (arith, known)
  convert-direct field_names rel r (Op.delete old) known = ground (arith, known)

  -- What a request leaves of the sink, and what it adds where it is accepted.
  pub record Adds (fed : A.State → Text → Text → List Bytes) (s : FelderaConnector A) (t : Text)
      (lines : List Bytes) (result : FelderaConnector A × Outcome SinkError (Unit {0}))
      : Type 0 where
    pub table_names : result.0.table_names ≡ s.table_names
    pub field_names : result.0.field_names ≡ s.field_names
    pub pipeline : result.0.pipeline ≡ s.pipeline
    pub added :
        result.1 ≡ ok tt
        → (table : Text)
        → fed result.0.inner s.pipeline table
          ≡ fed s.inner s.pipeline table ++ (if text_beq t table then lines else [])

  module _ (I : Ingress A) where
    sent-Adds :
        (s : FelderaConnector A) (t : Text) (es : List FelderaEvent) (p : A.State × Option Text)
        → p ≡ A.http_input s.inner s.pipeline t (joined (lines_of A.to_json es))
        → Adds I.fed s t (lines_of A.to_json es) (to_sink_result A (sent A s p))
    unfolding to_sink_result sent
    sent-Adds s t es (inner, none) made =
        let lines = lines_of A.to_json es in
        let inner_eq : inner ≡ (A.http_input s.inner s.pipeline t (joined lines)).0 =
          ap (λ (x : A.State × Option Text). x.0) made in
        let reply : (A.http_input s.inner s.pipeline t (joined lines)).1 ≡ none =
          sym (ap (λ (x : A.State × Option Text). x.1) made) in
        let at_t : I.fed inner s.pipeline t ≡ I.fed s.inner s.pipeline t ++ lines =
          ap (λ (i : A.State). I.fed i s.pipeline t) inner_eq
          ∙ I.http_input-fed s.inner s.pipeline t lines (lines_of-OneLine A I es) reply in
        record {
          table_names = refl;
          field_names = refl;
          pipeline = refl;
          added = λ took table. elim (Bool-cases (text_beq t table)) [
            | inl same ↦ rw same (
                subst (λ (x : Text). I.fed inner s.pipeline x ≡ I.fed s.inner s.pipeline x ++ lines)
                  ((text_beq_iff t table).0 same) at_t)
            | inr differ ↦
                let unlike : t ≢ table = λ e. (let same = (text_beq_iff t table).1 e in cc) in
                rw differ (
                  ap (λ (i : A.State). I.fed i s.pipeline table) inner_eq
                  ∙ I.http_input-other s.inner s.pipeline t table (joined lines) unlike
                  ∙ sym (append-nil (I.fed s.inner s.pipeline table)))
          ];
        }
    sent-Adds s t es (inner, some e) made = record {
      table_names = refl;
      field_names = refl;
      pipeline = refl;
      added = λ took. cc;
    }

    refused-Adds :
        (s : FelderaConnector A) (t : Text) (lines : List Bytes) (r : Outcome Error (Unit {0}))
        → r ≢ ok tt
        → Adds I.fed s t lines (to_sink_result A (s, r))
    unfolding to_sink_result
    refused-Adds s t lines (ok u) h = absurd (h refl)
    refused-Adds s t lines (err e) h = record {
      table_names = refl;
      field_names = refl;
      pipeline = refl;
      added = λ took. cc;
    }
    refused-Adds s t lines panic h = record {
      table_names = refl;
      field_names = refl;
      pipeline = refl;
      added = λ took. cc;
    }

    pub batch-Adds :
        (s : FelderaConnector A) (t : Text) (batch : List ChangeEvent) (es : List FelderaEvent)
        → convert_op_batches A.format s.field_names batch ≡ ok es
        → Adds I.fed s t (lines_of A.to_json es) (to_sink_result A (insert_batch A s t batch))
    batch-Adds s t batch es converted = elim (Outcome-Cases (to_lines A.to_json es)) [
      | is_ok body e ↦
          let body_eq : body ≡ joined (lines_of A.to_json es) =
            to_lines-joined A.to_json es body e in
          let made : insert_batch A s t batch ≡ sent A s (A.http_input s.inner s.pipeline t body) =
            unfold insert_batch in ground (arith, converted, e) in
          rw made (
            sent-Adds s t es (A.http_input s.inner s.pipeline t body)
              (ap (A.http_input s.inner s.pipeline t) body_eq))
      | is_err x e ↦
          let made : insert_batch A s t batch ≡ (s, err x) =
            unfold insert_batch in ground (arith, converted, e) in
          rw made (refused-Adds s t (lines_of A.to_json es) (err x) (λ q. cc))
      | is_panic e ↦
          let made : insert_batch A s t batch ≡ (s, panic) =
            unfold insert_batch in ground (arith, converted, e) in
          rw made (refused-Adds s t (lines_of A.to_json es) panic (λ q. cc))
    ]
