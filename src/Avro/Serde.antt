-- ===== src/Avro/Serde.antt =====
-- How the values of cdc-avro/src/lib.rs go through serde: the record that `serialize` of `PgValue`
-- asks for, and the reading of a record by `visit_map`. Both `i32` and `i64` are written as the Avro
-- type `long` (CHANGE_EVENT_SCHEMA_STR), so serde checks the range when it reads an `i32`.
use cdc_connector.Prelude.{
  ℕ, ◌≡◌, refl, Bool, List, [], ◌∷◌, arith, Text, codes, ℤ, pos, negsuc, Outcome, ok, err, ◌>>=◌,
  if◌then◌else◌, ltb, text_beq,
}
use cdc_connector.Bytes.{i32_half, i64_half}
use cdc_connector.Avro.Value.{PgValue, null, text, int4, int8, bool, timestamp, toasted, InRange}
use cdc_connector.Avro.Kind.{
  FieldKind, int4, text, int8, bool, timestamp, ReplicaKind, keys, row, serialize_field_kind,
  deserialize_field_kind, serialize_replica_kind, deserialize_replica_kind,
}

-- The values that the fields of a serialized `PgValue` have.
pub data Datum : Type 0 where
  unit : Datum
  str : Text → Datum
  long : ℤ → Datum
  boolean : Bool → Datum

-- `serialize_struct(name, 1)` with its one `serialize_field(key, value)`.
pub record StructOfOne : Type 0 where
  pub name : Text
  pub key : Text
  pub value : Datum

-- `Serialize for PgValue`
unfoldable pub serialize : PgValue → StructOfOne
serialize null = record { name = codes "Null"; key = codes "Null"; value = unit }
serialize (text s) = record { name = codes "Text"; key = codes "Text"; value = str s }
serialize (int4 n) = record { name = codes "Int4"; key = codes "Int4"; value = long n }
serialize (int8 n) = record { name = codes "Int8"; key = codes "Int8"; value = long n }
serialize (bool b) = record { name = codes "Bool"; key = codes "Bool"; value = boolean b }
serialize (timestamp t) = record {
  name = codes "Timestamp";
  key = codes "Timestamp";
  value = long t;
}
serialize toasted = record { name = codes "Toasted"; key = codes "Toasted"; value = unit }

-- `invalid_value` stands for serde's error for a value of another type, or out of range.
pub data SerdeError : Type 0 where
  empty_record : SerdeError
  unknown_variant : Text → SerdeError
  invalid_value : SerdeError

abbrev fits : ℕ → ℤ → Bool
fits half (pos n) = ltb n half
fits half (negsuc n) = ltb n half

-- `map.next_value()?` at the types `&str`, `i32`, `i64`, `bool` and `()`.
abbrev next_str : Datum → Outcome SerdeError Text
next_str (str s) = ok s
next_str _ = err invalid_value

abbrev next_int : ℕ → Datum → Outcome SerdeError ℤ
next_int half (long n) = if fits half n then ok n else err invalid_value
next_int half _ = err invalid_value

abbrev next_bool : Datum → Outcome SerdeError Bool
next_bool (boolean b) = ok b
next_bool _ = err invalid_value

abbrev next_unit : Datum → Outcome SerdeError (Unit {0})
next_unit unit = ok tt
next_unit _ = err invalid_value

-- `visit_map` of the visitor of `PgValue`, on the entries of a map: only the first one is read.
unfoldable pub visit_map : List (Text × Datum) → Outcome SerdeError PgValue
visit_map [] = err empty_record
visit_map ((key, value) ∷ _) =
    if text_beq key (codes "Text")
    then (do s ← next_str value; ok (text s))
    else if text_beq key (codes "Int4")
    then (do n ← next_int i32_half value; ok (int4 n))
    else if text_beq key (codes "Int8")
    then (do n ← next_int i64_half value; ok (int8 n))
    else if text_beq key (codes "Bool")
    then (do b ← next_bool value; ok (bool b))
    else if text_beq key (codes "Timestamp")
    then (do t ← next_int i64_half value; ok (timestamp t))
    else if text_beq key (codes "Null")
    then (do u ← next_unit value; ok null)
    else if text_beq key (codes "Toasted")
    then (do u ← next_unit value; ok toasted)
    else err (unknown_variant key)

-- A value whose integers are in the range of their types is read back from the entry that is
-- written for it.
pub visit_map-serialize :
    (v : PgValue) → InRange v → visit_map (((serialize v).key, (serialize v).value) ∷ []) ≡ ok v
unfolding visit_map serialize
visit_map-serialize null h = refl
visit_map-serialize (text s) h = refl
visit_map-serialize (int4 (pos n)) h = ground arith
visit_map-serialize (int4 (negsuc n)) h = ground arith
visit_map-serialize (int8 (pos n)) h = ground arith
visit_map-serialize (int8 (negsuc n)) h = ground arith
visit_map-serialize (bool b) h = refl
visit_map-serialize (timestamp (pos n)) h = ground arith
visit_map-serialize (timestamp (negsuc n)) h = ground arith
visit_map-serialize toasted h = refl

-- The number written for a field kind, and the one for a replica kind, is read back as that kind;
-- and a number that is read as a field kind is the number of that kind.
pub deserialize-serialize_kinds :
    (k : FieldKind) (r : ReplicaKind) (n : ℕ)
    → (deserialize_field_kind (serialize_field_kind k) ≡ ok k)
      × (deserialize_replica_kind (serialize_replica_kind r) ≡ ok r)
      × (deserialize_field_kind n ≡ ok k → serialize_field_kind k ≡ n)
unfolding deserialize_field_kind serialize_field_kind deserialize_replica_kind
    serialize_replica_kind
deserialize-serialize_kinds k r n = (field k, replica r, back k)
  where
    field : (k : FieldKind) → deserialize_field_kind (serialize_field_kind k) ≡ ok k
    field int4 = refl
    field text = refl
    field int8 = refl
    field bool = refl
    field timestamp = refl

    replica : (r : ReplicaKind) → deserialize_replica_kind (serialize_replica_kind r) ≡ ok r
    replica keys = refl
    replica row = refl

    back : (k : FieldKind) → deserialize_field_kind n ≡ ok k → serialize_field_kind k ≡ n
    back k h = ground arith
