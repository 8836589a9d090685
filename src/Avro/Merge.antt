-- ===== src/Avro/Merge.antt =====
-- `merge_toasted` of cdc-avro/src/lib.rs against its description, place by place.
use cdc_connector.Prelude.{
  ℕ, suc, ◌≡◌, List, [], ◌∷◌, arith, Bool, true, false, ◌||◌, drop, All, ok, err, if◌then◌else◌,
  drop-cases, inl, inr, Bool-cases,
}
use cdc_connector.Avro.Value.{PgValue, toasted, is_toasted}
use cdc_connector.Avro.Event.{
  Op, insert, update, delete, merge_row, merge_toasted, toasted_on_key_identity,
}

-- A row laid over the old row: each toasted value is the old one of its place.
unfoldable pub overlay : List PgValue → List PgValue → List PgValue
overlay old [] = []
overlay [] (v ∷ vs) = v ∷ overlay [] vs
overlay (w ∷ ws) (v ∷ vs) = (if is_toasted v then w else v) ∷ overlay ws vs

-- Some toasted value has no old value at its place.
unfoldable pub uncovered : List PgValue → List PgValue → Bool
uncovered old [] = false
uncovered [] (v ∷ vs) = is_toasted v || uncovered [] vs
uncovered (w ∷ ws) (v ∷ vs) = uncovered ws vs

abbrev pub Settled : PgValue → Type 0
Settled v = is_toasted v ≡ false

merge_row-overlay :
    (old : List PgValue) (i : ℕ) (row : List PgValue)
    → uncovered (drop i old) row ≡ false
    → merge_row old i row ≡ (overlay (drop i old) row, ok tt)
unfolding merge_row overlay uncovered
merge_row-overlay old i [] h = ground arith
merge_row-overlay old i (toasted ∷ vs) h =
    ground (arith, drop-cases old i, merge_row-overlay old (suc i) vs)
merge_row-overlay old i (v ∷ vs) h =
    ground (arith, drop-cases old i, merge_row-overlay old (suc i) vs)

merge_row-uncovered :
    (old : List PgValue) (i : ℕ) (row : List PgValue)
    → uncovered (drop i old) row ≡ true
    → (merge_row old i row).1 ≡ err toasted_on_key_identity
unfolding merge_row uncovered
merge_row-uncovered old i [] h = ground arith
merge_row-uncovered old i (toasted ∷ vs) h =
    ground (arith, drop-cases old i, merge_row-uncovered old (suc i) vs)
merge_row-uncovered old i (v ∷ vs) h =
    ground (arith, drop-cases old i, merge_row-uncovered old (suc i) vs)

-- Where each toasted value has an old value at its place, `merge_toasted` of an update succeeds,
-- keeps the old row, and lays the new row over it: a toasted value becomes the old value of its
-- place, every other value stays.
pub merge_toasted-overlay :
    (old row : List PgValue)
    → uncovered old row ≡ false
    → merge_toasted (update old row) ≡ (update old (overlay old row), ok tt)
unfolding merge_toasted
merge_toasted-overlay old row h = rw (merge_row-overlay old 0 row h)

-- The result of `merge_toasted` on an update: the error exactly where some toasted value has no
-- old value at its place.
pub merge_toasted-result :
    (old row : List PgValue)
    → (merge_toasted (update old row)).1
      ≡ (if uncovered old row then err toasted_on_key_identity else ok tt)
unfolding merge_toasted
merge_toasted-result old row = elim (Bool-cases (uncovered old row)) [
  | inl bad ↦ rw bad (merge_row-uncovered old 0 row bad)
  | inr good ↦ rw (good, merge_row-overlay old 0 row good)
]

-- The values of the row that an operation writes.
abbrev pub written : Op → List PgValue
written (insert row) = row
written (update old row) = row
written (delete old) = []

overlay-Settled :
    (old row : List PgValue)
    → All Settled old
    → uncovered old row ≡ false
    → All Settled (overlay old row)
unfolding overlay uncovered
overlay-Settled old [] ho h = tt
overlay-Settled [] (v ∷ vs) ho h = ground (arith, overlay-Settled [] vs)
overlay-Settled (w ∷ ws) (v ∷ vs) ho h = ground (arith, overlay-Settled ws vs)

-- Where the old row has no toasted value and `merge_toasted` of the update succeeds, the row that
-- is left has none.
pub merge_toasted-Settled :
    (old row : List PgValue)
    → All Settled old
    → (merge_toasted (update old row)).1 ≡ ok tt
    → All Settled (written (merge_toasted (update old row)).0)
merge_toasted-Settled old row ho h = elim (Bool-cases (uncovered old row)) [
  | inl bad ↦ absurd (refuted bad)
  | inr good ↦ rw (merge_toasted-overlay old row good) (overlay-Settled old row ho good)
]
  where
    refuted : uncovered old row ≡ true → ⊥
    refuted bad = cc (rw bad at (merge_toasted-result old row))
