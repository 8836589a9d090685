-- ===== src/Feldera/NoPanic.antt =====
-- The sink of feldera-connector/src/main.rs does not panic in a build without overflow checks.
use cdc_connector.Prelude.{
  ℕ, ◌≡◌, ◌≢◌, refl, List, [], ◌∷◌, Bytes, Text, Outcome, ok, err, panic, ◌>>=◌, ◌++◌, codes,
  Outcome-Cases, is_ok, is_err, is_panic, option_cases, >>=-ne-panic, ok-ne-panic, inl, inr, ◌⊎◌,
  arith, All, nat_eq,
}
use cdc_connector.HashMap.{HashMap, lookup}
use cdc_connector.Avro.Value.{PgValue}
use cdc_connector.Avro.Json.{FormatMicros}
use cdc_connector.Avro.Event.{Op, ChangeEvent, merge_toasted, ToastedOnKeyIdentity}
use cdc_connector.Avro.Codec.{AvroCodec}
use cdc_connector.Sink.{Consumer, Streamed, consume}
use cdc_connector.Sink.Dispatch
use cdc_connector.Sink.Dispatch.{Taken}
use cdc_connector.Feldera.{
  Api, Error, serialization, FelderaEvent, FelderaConnector, convert_row, convert_op,
  convert_op_batches, to_lines, sent, insert_batch, to_sink_result, insert_merged, on_event,
  on_relation, feldera_sink,
}

module _ (format : FormatMicros) (field_names : HashMap ℕ (List Text)) where
  convert_row-ne-panic :
      (oid : ℕ) (values : List PgValue) → convert_row format oid values field_names ≢ panic
  unfolding convert_row
  convert_row-ne-panic oid values e = ground (arith, e)

  convert_op-ne-panic :
      (rel : ℕ) (op : Op) → convert_op format field_names (record { op = op; rel = rel }) ≢ panic
  unfolding convert_op
  convert_op-ne-panic rel (Op.insert row) =
      >>=-ne-panic (convert_row format rel row field_names) _ (convert_row-ne-panic rel row)
        (λ r. ok-ne-panic _)
  convert_op-ne-panic rel (Op.update old row) =
      >>=-ne-panic (convert_row format rel old field_names) _ (convert_row-ne-panic rel old) (λ o.
        >>=-ne-panic (convert_row format rel row field_names) _ (convert_row-ne-panic rel row)
          (λ r. ok-ne-panic _))
  convert_op-ne-panic rel (Op.delete old) =
      >>=-ne-panic (convert_row format rel old field_names) _ (convert_row-ne-panic rel old)
        (λ o. ok-ne-panic _)

  convert_op_batches-ne-panic :
      (batch : List ChangeEvent) → convert_op_batches format field_names batch ≢ panic
  unfolding convert_op_batches
  convert_op_batches-ne-panic [] = ok-ne-panic []
  convert_op_batches-ne-panic (event ∷ batch) =
      let later = convert_op_batches-ne-panic batch in
      >>=-ne-panic (convert_op format field_names event) _ (convert_op-ne-panic event.rel event.op)
        (λ first.
          >>=-ne-panic (convert_op_batches format field_names batch) _ later
            (λ rest. ok-ne-panic _))

to_lines-ne-panic :
    (to_json : FelderaEvent → Text ⊎ Bytes) (batch : List FelderaEvent)
    → to_lines to_json batch ≢ panic
unfolding to_lines
to_lines-ne-panic to_json [] = ok-ne-panic []
to_lines-ne-panic to_json (op ∷ batch) =
    let later = to_lines-ne-panic to_json batch in with_line (to_json op) later
  where
    with_line :
        (o : Text ⊎ Bytes)
        → to_lines to_json batch ≢ panic
        → elim o as (λ x. Outcome Error Text) [
          | inl e ↦ err (serialization e)
          | inr line ↦ (do rest ← to_lines to_json batch; ok (line ++ (codes "\n" ++ rest)))
        ]
          ≢ panic
    with_line (inl e) later = λ p. cc
    with_line (inr line) later =
        >>=-ne-panic (to_lines to_json batch) _ later (λ rest. ok-ne-panic _)

module _ (A : Api) where
  insert_batch-ne-panic :
      (s : FelderaConnector A) (table : Text) (records : List ChangeEvent)
      → (insert_batch A s table records).1 ≢ panic
  unfolding insert_batch sent
  insert_batch-ne-panic s table records =
      elim (Outcome-Cases
        (convert_op_batches A.format s.field_names records >>= to_lines A.to_json)) [
          | is_ok lines e ↦ λ p. ground (arith, e, p)
          | is_err x e ↦ λ p. ground (arith, e, p)
          | is_panic e ↦ absurd (
              >>=-ne-panic (convert_op_batches A.format s.field_names records) (to_lines A.to_json)
                (convert_op_batches-ne-panic A.format s.field_names records)
                (to_lines-ne-panic A.to_json) e)
        ]

  to_sink_result-ne-panic :
      (r : FelderaConnector A × Outcome Error (Unit {0}))
      → r.1 ≢ panic
      → (to_sink_result A r).1 ≢ panic
  unfolding to_sink_result
  to_sink_result-ne-panic (s, ok u) h e = cc
  to_sink_result-ne-panic (s, err x) h e = cc
  to_sink_result-ne-panic (s, panic) h e = absurd (h refl)

  insert_merged-ne-panic :
      (s : FelderaConnector A) (rel : ℕ) (m : Op × Outcome ToastedOnKeyIdentity (Unit {0}))
      → (insert_merged A s rel m).1 ≢ panic
  unfolding insert_merged
  insert_merged-ne-panic s rel (op, ok u) = elim (option_cases (lookup rel s.table_names)) [
    | inl e ↦ λ p. ground (arith, e, p)
    | inr (table, e) ↦ λ p. ground (
      arith,
      e,
      p,
      to_sink_result-ne-panic (insert_batch A s table (record { op = op; rel = rel } ∷ []))
          (insert_batch-ne-panic s table (record { op = op; rel = rel } ∷ [])),
    )
  ]
  insert_merged-ne-panic s rel (op, err x) = λ e. cc
  insert_merged-ne-panic s rel (op, panic) = λ e. cc

  -- In a build without overflow checks, where the sum of `to_json_value` for a timestamp wraps around,
  -- the Feldera sink consumes any stream to its end without a panic, whatever the pipeline answers, and
  -- every message that is committed is one whose event the sink took without an error.
  pub consume-feldera :
      (avro : AvroCodec) (prefix : Text) (c : Consumer (FelderaConnector A)) (ms : List Streamed)
      → All (Taken (feldera_sink A) avro prefix) c.committed
      → (c' : Consumer (FelderaConnector A)) × (consume (feldera_sink A) avro prefix c ms ≡ ok c')
        × All (Taken (feldera_sink A) avro prefix) c'.committed
  unfolding on_event on_relation
  consume-feldera avro prefix c ms h =
      let (c', e, (taken, good)) =
        Dispatch.consume-Taken (feldera_sink A) avro prefix (λ s. Unit {0})
          (λ s event u. (insert_merged-ne-panic s event.rel (merge_toasted event.op), tt))
          (λ s r u. ((λ p. cc), tt)) c ms h tt in
      (c', e, taken)
