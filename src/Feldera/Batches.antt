-- ===== src/Feldera/Batches.antt =====
-- The rows and the batches of feldera-connector/src/main.rs.
use cdc_connector.Prelude.{
  ℕ, zero, suc, ◌≡◌, refl, ap, sym, ◌∙◌, arith, false, List, [], ◌∷◌, ◌++◌, some, Text, Outcome, ok,
  err, panic, ◌>>=◌, text_eq, text_beq, text_beq_iff, nat_eq, get_elem?, drop, append_assoc,
  Outcome-Cases, is_ok, is_err, is_panic, All,
}
use cdc_connector.HashMap.{HashMap, lookup, insert, collect_from, lookup-insert}
use cdc_connector.Avro.Value.{PgValue}
use cdc_connector.Avro.Json.{FormatMicros, to_json_value}
use cdc_connector.Avro.Event.{ChangeEvent}
use cdc_connector.Feldera.{
  Error, FelderaEvent, FelderaRow, zip_row, convert_row, convert_op, convert_op_batches,
}

join_in_front :
    (first : List FelderaEvent) (m n : Outcome Error (List FelderaEvent))
    → ((m >>= λ xs. n >>= λ ys. ok (xs ++ ys)) >>= λ rest. ok (first ++ rest))
      ≡ ((m >>= λ rest. ok (first ++ rest)) >>= λ xs. n >>= λ ys. ok (xs ++ ys))
join_in_front first (ok xs) (ok ys) = ap ok (sym (append_assoc first xs ys))
join_in_front first (ok xs) (err e) = refl
join_in_front first (ok xs) panic = refl
join_in_front first (err e) n = refl
join_in_front first panic n = refl

-- Batches one after the other are turned to the events of the one and then those of the other; the
-- first error, of either, is the error of both.
pub convert_op_batches-append :
    (format : FormatMicros) (field_names : HashMap ℕ (List Text)) (first second : List ChangeEvent)
    → convert_op_batches format field_names (first ++ second) ≡ (
        convert_op_batches format field_names first >>= λ xs.
        convert_op_batches format field_names second >>= λ ys. ok (xs ++ ys))
unfolding convert_op_batches
convert_op_batches-append format field_names [] second =
    elim (Outcome-Cases (convert_op_batches format field_names second)) [
      | is_ok ys e ↦ rw e refl
      | is_err x e ↦ rw e refl
      | is_panic e ↦ rw e refl
    ]
convert_op_batches-append format field_names (event ∷ batch) second =
    elim (Outcome-Cases (convert_op format field_names event)) [
      | is_ok first e ↦
          rw (e, convert_op_batches-append format field_names batch second)
            (join_in_front first (convert_op_batches format field_names batch)
              (convert_op_batches format field_names second))
      | is_err x e ↦ rw e refl
      | is_panic e ↦ rw e refl
    ]

-- A name that is not among the names.
abbrev pub Absent : Text → List Text → Type 0
Absent f fields = All (λ g. text_beq g f ≡ false) fields

lookup-collect-Absent :
    (format : FormatMicros) (f : Text) (values : List PgValue) (fields : List Text) (m : FelderaRow)
    → Absent f fields
    → lookup f (collect_from m (zip_row format values fields)) ≡ lookup f m
unfolding zip_row
lookup-collect-Absent format f [] fields m h = refl
lookup-collect-Absent format f (v ∷ vs) [] m h = refl
lookup-collect-Absent format f (v ∷ vs) (g ∷ gs) m h =
    lookup-collect-Absent format f vs gs (insert g (to_json_value format v) m) h.1
    ∙ rw (lookup-insert g f (to_json_value format v) m) (rw h.0 refl)

lookup-collect :
    (format : FormatMicros) (i : ℕ) (v : PgValue) (f : Text) (values : List PgValue)
    (fields : List Text) (m : FelderaRow)
    → get_elem? values i ≡ some v
    → get_elem? fields i ≡ some f
    → Absent f (drop (suc i) fields)
    → lookup f (collect_from m (zip_row format values fields)) ≡ some (to_json_value format v)
unfolding zip_row
lookup-collect format i v f [] fields m hv hf h = cc
lookup-collect format i v f (w ∷ vs) [] m hv hf h = cc
lookup-collect format zero v f (w ∷ vs) (g ∷ gs) m hv hf h =
    lookup-collect-Absent format f vs gs (insert g (to_json_value format w) m) h
    ∙ rw (lookup-insert g f (to_json_value format w) m) (ground (arith, hv, hf, text_beq_iff g f))
lookup-collect format (suc i) v f (w ∷ vs) (g ∷ gs) m hv hf h =
    lookup-collect format i v f vs gs (insert g (to_json_value format w) m) hv hf h

-- Of a relation that is known, the row under the name of a field is the value at the place of the
-- field, as JSON, where the name does not come again behind that place.
pub convert_row-lookup :
    (format : FormatMicros) (oid i : ℕ) (v : PgValue) (f : Text) (values : List PgValue)
    (fields : List Text) (field_names : HashMap ℕ (List Text))
    → lookup oid field_names ≡ some fields
    → get_elem? values i ≡ some v
    → get_elem? fields i ≡ some f
    → Absent f (drop (suc i) fields)
    → (row : FelderaRow) × (convert_row format oid values field_names ≡ ok row)
      × (lookup f row ≡ some (to_json_value format v))
unfolding convert_row
convert_row-lookup format oid i v f values fields field_names known hv hf h = (
  collect_from [] (zip_row format values fields),
  rw known refl,
  lookup-collect format i v f values fields [] hv hf h,
)
