-- ===== src/Avro/Relation.antt =====
-- `Field`, `FieldAccess` and `Relation` of cdc-avro/src/lib.rs.
use cdc_connector.Prelude.{ℕ, Bool, List, Text}
use cdc_connector.Avro.Kind.{FieldKind, ReplicaKind}

pub record Field : Type 0 where
  pub is_key : Bool
  pub name : Text
  pub kind : FieldKind

pub record Relation : Type 0 where
  pub relation_oid : ℕ
  pub name : Text
  pub namespace : Text
  pub fields : List Field
  pub replica_id : ReplicaKind

-- The trait `FieldAccess`.
pub record FieldAccess (F : Type 0) : Type 0 where
  pub get_name : F → Text
  pub get_kind : F → FieldKind

instance abbrev pub field_access : FieldAccess Field
field_access = record { get_name = λ f. f.name; get_kind = λ f. f.kind }
