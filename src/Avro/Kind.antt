-- ===== src/Avro/Kind.antt =====
-- The enums `FieldKind` and `ReplicaKind` of cdc-avro/src/lib.rs, with the numbers that stand for
-- them on the wire.
use cdc_connector.Prelude.{ℕ, Bool, true, false, Outcome, ok, err, ◌==◌, if◌then◌else◌}

pub data FieldKind : Type 0 where
  int4 text int8 bool timestamp : FieldKind

pub data ReplicaKind : Type 0 where
  keys row : ReplicaKind

-- `==` of the derived `PartialEq`
abbrev pub same_replica : ReplicaKind → ReplicaKind → Bool
same_replica keys keys = true
same_replica row row = true
same_replica _ _ = false

-- `DeError::custom(format!("unknown FieldKind: {}", other))`
pub data KindError : Type 0 where
  unknown_field_kind : ℕ → KindError

-- `serializer.serialize_u8(*self as u8)`: the number handed to the serializer.
unfoldable pub serialize_field_kind : FieldKind → ℕ
serialize_field_kind int4 = 0
serialize_field_kind text = 1
serialize_field_kind int8 = 2
serialize_field_kind bool = 3
serialize_field_kind timestamp = 4

-- What `deserialize` makes of the number that `u8::deserialize` returned.
unfoldable pub deserialize_field_kind : ℕ → Outcome KindError FieldKind
deserialize_field_kind n =
    if n == 0
    then ok int4
    else if n == 1
    then ok text
    else if n == 2
    then ok int8
    else if n == 3
    then ok bool
    else if n == 4
    then ok timestamp
    else err (unknown_field_kind n)

unfoldable pub serialize_replica_kind : ReplicaKind → ℕ
serialize_replica_kind keys = 0
serialize_replica_kind row = 1

unfoldable pub deserialize_replica_kind : ℕ → Outcome KindError ReplicaKind
deserialize_replica_kind n =
    if n == 0 then ok keys else if n == 1 then ok row else err (unknown_field_kind n)
