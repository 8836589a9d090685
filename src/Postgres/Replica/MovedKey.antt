-- ===== src/Postgres/Replica/MovedKey.antt =====
-- An update that changes the key of its row, in the sink of postgres-connector/src/main.rs, whose
-- branch of updates passes over the old row.
use cdc_connector.Prelude.{
  ℕ, ◌≡◌, refl, ap, ◌∙◌, arith, true, false, List, ◌∷◌, length, none, some, ok, ◌==◌, nat_eq,
}
use cdc_connector.HashMap.{HashMap, lookup}
use cdc_connector.Avro.Value.{PgValue}
use cdc_connector.Avro.Equal.{values_beq, values_beq_iff}
use cdc_connector.Avro.Relation.{Relation}
use cdc_connector.Avro.Event.{Op}
use cdc_connector.Avro.Merge.{overlay, uncovered, merge_toasted-overlay}
use cdc_connector.Postgres.Rows.{key_values}
use cdc_connector.Postgres.Sink.{
  Client, PostgresSink, get_upsert, execute, apply, apply_merged, on_event,
}
use cdc_connector.Postgres.Database.{Database, Rows, put, no_null}
use cdc_connector.Postgres.Replica.{replay}
use cdc_connector.Postgres.Replica.Caches.{Current}
use cdc_connector.Postgres.Replica.Events.{view, length-overlay}
use cdc_connector.Postgres.Replica.Refines.{Followable, upsert-Replayed}

module _ (K : Client) (D : Database K) (rels : HashMap ℕ Relation) where
  -- An update with an old row of another key, where the sink takes it, leaves what is in the table
  -- under the old key, and puts the new row under the new key; the source has nothing under the old
  -- key any more.
  pub on_event-moved_key :
      (s : PostgresSink K) (rel : ℕ) (r : Relation) (v : PgValue) (old row : List PgValue)
      → Followable rels
      → Current K D rels s
      → lookup rel rels ≡ some r
      → length row ≡ length r.fields
      → uncovered (v ∷ old) row ≡ false
      → no_null (key_values r.fields (overlay (v ∷ old) row)) ≡ true
      → values_beq (key_values r.fields (overlay (v ∷ old) row)) (key_values r.fields (v ∷ old))
        ≡ false
      → (on_event K s (record { op = Op.update (v ∷ old) row; rel = rel })).1 ≡ ok tt
      → (view K D r
            (on_event K s (record { op = Op.update (v ∷ old) row; rel = rel })).0.client
            (key_values r.fields (v ∷ old))
          ≡ view K D r s.client (key_values r.fields (v ∷ old)))
        × (view K D r
              (on_event K s (record { op = Op.update (v ∷ old) row; rel = rel })).0.client
              (key_values r.fields (overlay (v ∷ old) row))
            ≡ some (overlay (v ∷ old) row))
        × (replay r.fields
              (Op.update (v ∷ old) row)
              (view K D r s.client)
              (key_values r.fields (v ∷ old))
            ≡ none)
  unfolding on_event apply_merged apply
  on_event-moved_key s rel r v old row good h known len covered full moved took =
      let new = overlay (v ∷ old) row in
      let old_key = key_values r.fields (v ∷ old) in
      let new_key = key_values r.fields new in
      let result : on_event K s (record { op = Op.update (v ∷ old) row; rel = rel })
          ≡ execute K (get_upsert K s rel) new =
        ap (apply_merged K s rel) (merge_toasted-overlay (v ∷ old) row covered) in
      let done =
        upsert-Replayed K D rels good s rel r known (Op.insert new) new
          (length-overlay (v ∷ old) row ∙ len) full (λ rows. refl) h in
      let same : (rel == rel) ≡ true = ground arith in
      let taken : (execute K (get_upsert K s rel) new).1 ≡ ok tt = rw result at took in
      let rows : view K D r (execute K (get_upsert K s rel) new).0.client
          ≡ put new_key new (view K D r s.client) =
        rw same at (done.rows taken rel r known) in
      let old_self : values_beq old_key old_key ≡ true = (values_beq_iff old_key old_key).1 refl in
      let new_self : values_beq new_key new_key ≡ true = (values_beq_iff new_key new_key).1 refl in
      let at_old : put new_key new (view K D r s.client) old_key ≡ view K D r s.client old_key =
        rw moved refl in
      let at_new : put new_key new (view K D r s.client) new_key ≡ some new = rw new_self refl in
      (
        rw result (ap (λ (f : Rows). f old_key) rows ∙ at_old),
        rw result (ap (λ (f : Rows). f new_key) rows ∙ at_new),
        rw (moved, old_self) refl,
      )
