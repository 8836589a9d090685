-- ===== src/Postgres/Replica.antt =====
-- What the sink of postgres-connector/src/main.rs promises: its tables become those of the source.
pub mod Shape
pub mod Caches
pub mod Events
pub mod Refines
pub mod MovedKey
pub mod Again
pub mod Memory
pub mod Fixtures
mod Tests
use cdc_connector.Prelude.{
  ℕ, ◌≡◌, Bool, true, false, List, [], ◌∷◌, ◌++◌, Text, length, All, ◌==◌, if◌then◌else◌,
}
use cdc_connector.Avro.Kind.{ReplicaKind}
use cdc_connector.Avro.Value.{PgValue}
use cdc_connector.Avro.Relation.{Field, Relation}
use cdc_connector.Avro.Event.{Op, ChangeEvent}
use cdc_connector.Avro.Merge.{overlay, uncovered}
use cdc_connector.Postgres.Statements.{contains}
use cdc_connector.Postgres.Relations.{names_of_keys, extract_keys_rel}
use cdc_connector.Postgres.Rows.{key_values}
use cdc_connector.Postgres.Database.{Rows, put, erase, no_null, IsName}

-- A change of a table at the source. An update with no old row keeps the key of its row; one with
-- an old row replaces it, and takes from it what is not sent again. A delete has the key.
abbrev pub forget : List Field → List PgValue → Rows → Rows
forget fields [] rows = rows
forget fields (v ∷ old) rows = erase (key_values fields (v ∷ old)) rows

abbrev pub replay : List Field → Op → Rows → Rows
replay fields (Op.insert row) rows = put (key_values fields row) row rows
replay fields (Op.update old row) rows =
    put (key_values fields (overlay old row)) (overlay old row) (forget fields old rows)
replay fields (Op.delete key) rows = erase key rows

-- A relation with the key identity whose keys stand in front of its other columns, of which there
-- is one, and have no name in common with them. The names are those of SQL, unquoted.
pub record KeysFirst (r : Relation) : Type 0 where
  pub identity : r.replica_id ≡ ReplicaKind.keys
  pub key_fields : List Field
  pub value_fields : List Field
  pub last : Field
  pub fields : r.fields ≡ key_fields ++ (value_fields ++ last ∷ [])
  pub keys_are_keys : All (λ f. f.is_key ≡ true) key_fields
  pub others_are_none : All (λ f. f.is_key ≡ false) (value_fields ++ last ∷ [])
  pub named : All (λ f. contains (names_of_keys r.fields) f.name ≡ f.is_key) r.fields
  pub table_name : IsName r.name
  pub column_names : All (λ f. IsName f.name) r.fields

-- The key of a row is kept by an update.
abbrev pub KeyKept : List Field → List PgValue → List PgValue → Type 0
KeyKept fields [] row = Unit
KeyKept fields (v ∷ old) row =
    key_values fields (v ∷ old) ≡ key_values fields (overlay (v ∷ old) row)

-- A change of a whole row whose key is kept, with no NULL in the key.
abbrev pub Plain : Relation → Op → Type 0
Plain r (Op.insert row) =
    (length row ≡ length r.fields) × (no_null (key_values r.fields row) ≡ true)
Plain r (Op.update old row) =
    (length row ≡ length r.fields)
    × (uncovered old row ≡ false)
    × KeyKept r.fields old row
    × (no_null (key_values r.fields (overlay old row)) ≡ true)
Plain r (Op.delete key) = (length key ≡ length (extract_keys_rel r)) × (no_null key ≡ true)
