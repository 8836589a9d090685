-- ===== src/Avro/Event.antt =====
-- `Op` and `ChangeEvent` of cdc-avro/src/lib.rs. The modules `arena` and `owned` declare the same
-- shapes over two kinds of vectors; both are this one type.
use cdc_connector.Prelude.{ℕ, suc, String, List, [], ◌∷◌, none, some, get_elem?, Outcome, ok, err}
use cdc_connector.Avro.Value.{PgValue, toasted}

pub data Op : Type 0 where
  insert : (row : List PgValue) → Op
  update : (old row : List PgValue) → Op
  delete : (old : List PgValue) → Op

pub record ChangeEvent : Type 0 where
  pub op : Op
  pub rel : ℕ

-- For logs and metrics.
unfoldable pub op_str : Op → String
op_str (insert _) = "insert"
op_str (update _ _) = "update"
op_str (delete _) = "delete"

pub data ToastedOnKeyIdentity : Type 0 where
  toasted_on_key_identity : ToastedOnKeyIdentity

-- The loop of `merge_toasted` from position `i` on: the row as it is left, and the result.
-- `old[i]` is read only where `i < old.len()`, which is where `get_elem?` finds a value.
unfoldable pub merge_row :
    List PgValue → ℕ → List PgValue → List PgValue × Outcome ToastedOnKeyIdentity (Unit {0})
merge_row old i [] = ([], ok tt)
merge_row old i (toasted ∷ vs) = elim (get_elem? old i) [
  | none ↦ (toasted ∷ vs, err toasted_on_key_identity)
  | some v ↦ (let (ws, r) = merge_row old (suc i) vs in (v ∷ ws, r))
]
merge_row old i (v ∷ vs) = let (ws, r) = merge_row old (suc i) vs in (v ∷ ws, r)

-- The operation as it is left behind the reference, and the result.
unfoldable pub merge_toasted : Op → Op × Outcome ToastedOnKeyIdentity (Unit {0})
unfolding merge_row
merge_toasted (update old row) = let (row', r) = merge_row old 0 row in (update old row', r)
merge_toasted op = (op, ok tt)
