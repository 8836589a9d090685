-- ===== src/Postgres/Writable.antt =====
-- The writing of parameters by `to_sql` of postgres-connector/src/main.rs, which panics on a timestamp
-- that is out of the range of dates.
use cdc_connector.Prelude.{
  ℕ, suc, subst, sym, ◌≡◌, ◌≢◌, true, arith, List, [], ◌∷◌, All, Outcome, ok, panic, Bool-cases,
  inl, inr, >>=-ne-panic, ok-ne-panic,
}
use cdc_connector.Avro.Value.{PgValue, is_toasted}
use cdc_connector.Avro.Event.{Op, ToastedOnKeyIdentity, merge_toasted}
use cdc_connector.Avro.Merge.{overlay, uncovered, merge_toasted-overlay, merge_toasted-result}
use cdc_connector.Postgres.Relations.{RelationIdentity, full, keys}
use cdc_connector.Postgres.Sink.{ToSql, to_sql, params, has_index, pick, delete_values}

module _ (enc : ToSql) where
  -- A value that is written, or refused, with no panic: every value but a timestamp out of the range
  -- of dates.
  abbrev pub Writable : PgValue → Type 0
  Writable (PgValue.timestamp t) = enc.timestamp t ≢ panic
  Writable v = Unit

  abbrev pub WritableOp : Op → Type 0
  WritableOp (Op.insert row) = All Writable row
  WritableOp (Op.update old row) = All Writable old × All Writable row
  WritableOp (Op.delete old) = All Writable old

  to_sql-ne-panic : (v : PgValue) → Writable v → to_sql enc v ≢ panic
  unfolding to_sql
  to_sql-ne-panic (PgValue.timestamp t) h =
      >>=-ne-panic (enc.timestamp t) _ h (λ bytes. ok-ne-panic _)
  to_sql-ne-panic (PgValue.text s) h = λ e. ground (arith, e)
  to_sql-ne-panic (PgValue.int4 n) h = λ e. ground (arith, e)
  to_sql-ne-panic (PgValue.int8 n) h = λ e. ground (arith, e)
  to_sql-ne-panic (PgValue.bool b) h = λ e. ground (arith, e)
  to_sql-ne-panic PgValue.null h = λ e. cc
  to_sql-ne-panic PgValue.toasted h = λ e. cc

  pub params-ne-panic : (vs : List PgValue) → All Writable vs → params enc vs ≢ panic
  unfolding params
  params-ne-panic [] h = λ e. cc
  params-ne-panic (v ∷ vs) (one, more) =
      >>=-ne-panic (to_sql enc v) _ (to_sql-ne-panic v one)
        (λ p. >>=-ne-panic (params enc vs) _ (params-ne-panic vs more) (λ ps. ok-ne-panic _))

  pick-Writable :
      (ids : List ℕ) (i : ℕ) (vs : List PgValue) → All Writable vs → All Writable (pick ids i vs)
  unfolding pick
  pick-Writable ids i [] h = tt
  pick-Writable ids i (v ∷ vs) (one, more) = elim (Bool-cases (has_index ids i)) [
    | inl has ↦ rw has (one, pick-Writable ids (suc i) vs more)
    | inr lacks ↦ rw lacks (pick-Writable ids (suc i) vs more)
  ]

  pub delete_values-Writable :
      (identity : RelationIdentity) (old : List PgValue)
      → All Writable old
      → All Writable (delete_values identity old)
  unfolding delete_values
  delete_values-Writable full old h = h
  delete_values-Writable (keys ids) old h = pick-Writable ids 0 old h

  overlay-Writable :
      (old row : List PgValue)
      → All Writable old
      → All Writable row
      → All Writable (overlay old row)
  unfolding overlay
  overlay-Writable old [] ho h = tt
  overlay-Writable [] (v ∷ vs) ho (one, more) = (one, overlay-Writable [] vs tt more)
  overlay-Writable (w ∷ ws) (v ∷ vs) (old, older) (one, more) = elim (Bool-cases (is_toasted v)) [
    | inl kept ↦ rw kept (old, overlay-Writable ws vs older more)
    | inr new ↦ rw new (one, overlay-Writable ws vs older more)
  ]

  -- What `merge_toasted` makes of an event is writable where the event is.
  pub merge_toasted-Writable :
      (op : Op) → WritableOp op → (merge_toasted op).1 ≡ ok tt → WritableOp (merge_toasted op).0
  unfolding merge_toasted
  merge_toasted-Writable (Op.insert row) h e = h
  merge_toasted-Writable (Op.delete old) h e = h
  merge_toasted-Writable (Op.update old row) (ho, h) e = elim (Bool-cases (uncovered old row)) [
    | inl bad ↦ absurd (refuted bad)
    | inr good ↦
        subst (λ (m : Op × Outcome ToastedOnKeyIdentity (Unit {0})). WritableOp m.0)
          (sym (merge_toasted-overlay old row good)) (ho, overlay-Writable old row ho h)
  ]
    where
      refuted : uncovered old row ≡ true → ⊥
      refuted bad = cc (rw bad at (merge_toasted-result old row))
