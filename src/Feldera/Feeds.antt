-- ===== src/Feldera/Feeds.antt =====
-- The events that the sink of feldera-connector/src/main.rs takes, and the lines that it feeds.
use cdc_connector.Prelude.{
  ℕ, ◌≡◌, refl, sym, ap, ◌∙◌, arith, List, [], ◌∷◌, ◌++◌, none, some, Bytes, Text, Outcome, ok, err,
  nat_eq, text_beq, if◌then◌else◌, Bool-cases, inl, inr, option_cases, append-nil, append_assoc,
}
use cdc_connector.HashMap.{HashMap, lookup}
use cdc_connector.Avro.Relation.{Relation}
use cdc_connector.Avro.Event.{Op, ChangeEvent, merge_toasted, toasted_on_key_identity}
use cdc_connector.Avro.Merge.{overlay, uncovered, merge_toasted-overlay, merge_toasted-result}
use cdc_connector.Sink.{SinkError, toasted_in_key_only}
use cdc_connector.Sink
use cdc_connector.Sink.Events.{after_events, TakesAll}
use cdc_connector.Feldera.{
  Api, FelderaEvent, FelderaConnector, insert_batch, to_sink_result, insert_merged, on_event,
  feldera_sink, extract_names,
}
use cdc_connector.Feldera.Ingress.{Ingress, lines_of}
use cdc_connector.Feldera.Fed.{
  changes_of, direct, convert-direct, lines_for, all_lines_for, Knows, batch-Adds,
}

module _ (A : Api) (I : Ingress A) (rels : HashMap ℕ Relation) where
  -- What the sink makes of an event: it knows the relations as before, and where it takes the event
  -- the tables of its pipeline get the lines of the event.
  pub record Feeds (s : FelderaConnector A) (e : ChangeEvent)
      (result : FelderaConnector A × Outcome SinkError (Unit {0})) : Type 0 where
    pub knows : Knows A rels result.0
    pub pipeline : result.0.pipeline ≡ s.pipeline
    pub fed :
        result.1 ≡ ok tt
        → (table : Text)
        → I.fed result.0.inner s.pipeline table
          ≡ I.fed s.inner s.pipeline table ++ lines_for A rels table e

  refused-Feeds :
      (s : FelderaConnector A) (e : ChangeEvent) (x : SinkError)
      → Knows A rels s
      → Feeds s e (s, err x)
  refused-Feeds s e x h = record { knows = h; pipeline = refl; fed = λ took. cc }

  lines_for-known :
      (rel : ℕ) (op : Op) (r : Relation) (t : Text)
      → lookup rel rels ≡ some r
      → lines_for A rels t (record { op = op; rel = rel })
        ≡ (if text_beq r.name t then lines_of A.to_json (changes_of A r op) else [])
  lines_for-known rel op r t known = ground (arith, known)

  merged-Feeds :
      (s : FelderaConnector A) (rel : ℕ) (op merged : Op)
      → Knows A rels s
      → ((r : Relation) → direct A r merged ≡ changes_of A r op)
      → Feeds s (record { op = op; rel = rel }) (insert_merged A s rel (merged, ok tt))
  merged-Feeds s rel op merged h meant = elim (option_cases (lookup rel rels)) [
    | inl missing ↦
        let no_table : lookup rel s.table_names ≡ none = rw missing at (h.table_names rel) in
        let result : insert_merged A s rel (merged, ok tt) ≡ (s, err (Sink.unknown_relation rel)) =
          unfold insert_merged in ground (arith, no_table) in
        rw result (refused-Feeds s (record { op = op; rel = rel }) (Sink.unknown_relation rel) h)
    | inr (r, known) ↦
        let table : lookup rel s.table_names ≡ some r.name = rw known at (h.table_names rel) in
        let names : lookup rel s.field_names ≡ some (extract_names r.fields) =
          rw known at (h.field_names rel) in
        let batch : List ChangeEvent = record { op = merged; rel = rel } ∷ [] in
        let result : insert_merged A s rel (merged, ok tt)
            ≡ to_sink_result A (insert_batch A s r.name batch) =
          unfold insert_merged in ground (arith, table) in
        let adds =
          batch-Adds A I s r.name batch (direct A r merged)
            (convert-direct A s.field_names rel r merged names) in
        rw result (record {
          knows = record {
            table_names = λ oid. rw adds.table_names (h.table_names oid);
            field_names = λ oid. rw adds.field_names (h.field_names oid);
          };
          pipeline = adds.pipeline;
          fed = λ took t.
              adds.added took t
              ∙ ap (λ (ls : List Bytes). I.fed s.inner s.pipeline t ++ ls)
                  (ap
                      (λ (es : List FelderaEvent).
                        if text_beq r.name t then lines_of A.to_json es else [])
                      (meant r)
                    ∙ sym (lines_for-known rel op r t known));
        })
  ]

  pub on_event-Feeds :
      (s : FelderaConnector A) (rel : ℕ) (op : Op)
      → Knows A rels s
      → Feeds s (record { op = op; rel = rel }) (on_event A s (record { op = op; rel = rel }))
  unfolding on_event merge_toasted
  on_event-Feeds s rel (Op.insert row) h =
      merged-Feeds s rel (Op.insert row) (Op.insert row) h (λ r. refl)
  on_event-Feeds s rel (Op.update old row) h = elim (Bool-cases (uncovered old row)) [
    | inl bad ↦
        let failed : (merge_toasted (Op.update old row)).1 ≡ err toasted_on_key_identity =
          rw bad at (merge_toasted-result old row) in
        let result : insert_merged A s rel (merge_toasted (Op.update old row))
            ≡ (s, err toasted_in_key_only) =
          unfold insert_merged in ground (arith, failed) in
        rw result
          (refused-Feeds s (record { op = Op.update old row; rel = rel }) toasted_in_key_only h)
    | inr good ↦
        let result : insert_merged A s rel (merge_toasted (Op.update old row))
            ≡ insert_merged A s rel (Op.update old (overlay old row), ok tt) =
          ap (insert_merged A s rel) (merge_toasted-overlay old row good) in
        rw result
          (merged-Feeds s rel (Op.update old row) (Op.update old (overlay old row)) h (λ r. refl))
  ]
  on_event-Feeds s rel (Op.delete old) h =
      merged-Feeds s rel (Op.delete old) (Op.delete old) h (λ r. refl)

  -- The pipeline is fed the changes of the source: where the sink takes all of a list of events, each
  -- table of its pipeline is fed, behind what it was fed before, the lines of the events of the
  -- relations with its name, in order, and nothing else: a line for the new row of an insert, for
  -- the old row of a delete, and for both of an update, with old values where the new row has none.
  pub on_event-fed :
      (s : FelderaConnector A) (es : List ChangeEvent) (table : Text)
      → Knows A rels s
      → TakesAll (feldera_sink A) s es
      → I.fed (after_events (feldera_sink A) s es).inner s.pipeline table
        ≡ I.fed s.inner s.pipeline table ++ all_lines_for A rels table es
  on_event-fed s [] table h took = sym (append-nil (I.fed s.inner s.pipeline table))
  on_event-fed s (e ∷ es) table h (took, more) =
      let one = on_event-Feeds s e.rel e.op h in
      let next = (on_event A s e).0 in
      let rest : I.fed (after_events (feldera_sink A) next es).inner s.pipeline table
          ≡ I.fed next.inner s.pipeline table ++ all_lines_for A rels table es =
        rw one.pipeline at (on_event-fed next es table one.knows more) in
      rest
      ∙ ap (λ (xs : List Bytes). xs ++ all_lines_for A rels table es) (one.fed took table)
      ∙ append_assoc (I.fed s.inner s.pipeline table) (lines_for A rels table e)
          (all_lines_for A rels table es)
