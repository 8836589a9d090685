-- ===== src/Avro/Tests.antt =====
-- The repository's own test of merge_toasted, and the theorems about the shared data at concrete
-- values.
use cdc_connector.Prelude.{◌≡◌, refl, false, List, [], ◌∷◌, ok, pos, negsuc, codes, arith}
use cdc_connector.Avro.Value.{PgValue}
use cdc_connector.Avro.Event.{Op, merge_toasted, merge_row}
use cdc_connector.Avro.Merge.{overlay, uncovered, merge_toasted-overlay}
use cdc_connector.Avro.Serde.{serialize, visit_map, visit_map-serialize}

merge_toasted_test :
    merge_toasted (
      Op.update
        (PgValue.int4 (pos 0) ∷ PgValue.text (codes "hello") ∷ [])
        (PgValue.int4 (pos 0) ∷ PgValue.toasted ∷ []))
    ≡ (
      Op.update
          (PgValue.int4 (pos 0) ∷ PgValue.text (codes "hello") ∷ [])
          (PgValue.int4 (pos 0) ∷ PgValue.text (codes "hello") ∷ []),
      ok tt,
    )
unfolding merge_toasted merge_row
merge_toasted_test = refl

abbrev old_row : List PgValue
old_row = PgValue.int4 (pos 1) ∷ PgValue.text (codes "long") ∷ []

abbrev new_row : List PgValue
new_row = PgValue.int4 (pos 2) ∷ PgValue.toasted ∷ []

covered : uncovered old_row new_row ≡ false
unfolding uncovered
covered = refl

merge_toasted-overlay_example :
    merge_toasted (Op.update old_row new_row) ≡ (Op.update old_row (overlay old_row new_row), ok tt)
merge_toasted-overlay_example = merge_toasted-overlay old_row new_row covered

visit_map-serialize_example :
    visit_map (
      ((serialize (PgValue.int4 (negsuc 0))).key, (serialize (PgValue.int4 (negsuc 0))).value) ∷ [])
    ≡ ok (PgValue.int4 (negsuc 0))
visit_map-serialize_example = visit_map-serialize (PgValue.int4 (negsuc 0)) (omega arith)
