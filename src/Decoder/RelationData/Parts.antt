-- ===== src/Decoder/RelationData/Parts.antt =====
-- The names and types of a relation message: their lengths, their bytes, and what is behind them.
use cdc_connector.Prelude.{
  ℕ, ◌+◌, ◌^◌, ◌<◌, ◌≡◌, refl, arith, ◌∷◌, ◌++◌, Bytes, Text, length, drop, All, ok, length-append,
  drop-append, drop-drop,
}
use cdc_connector.Bytes.{IsByte, to_be_bytes}
use cdc_connector.Avro.Kind.{FieldKind}
use cdc_connector.Decoder.RelationData.{kind_from_oid_mod}
use cdc_connector.Decoder.RelationData.Encode.{type_oid, encode_name, encode_type}
use cdc_connector.Decoder.RelationData.Strings.{to_be-IsByte}

-- The kind of a type that is known.
pub kind_from_oid_mod-type :
    (kind : FieldKind) (t_mod : ℕ) → kind_from_oid_mod (type_oid kind) t_mod ≡ ok kind
unfolding kind_from_oid_mod type_oid
kind_from_oid_mod-type FieldKind.bool t_mod = refl
kind_from_oid_mod-type FieldKind.int8 t_mod = refl
kind_from_oid_mod-type FieldKind.int4 t_mod = refl
kind_from_oid_mod-type FieldKind.text t_mod = refl
kind_from_oid_mod-type FieldKind.timestamp t_mod = refl

pub type_oid-lt : (kind : FieldKind) → type_oid kind < 2 ^ 32
unfolding type_oid
type_oid-lt FieldKind.bool = omega arith
type_oid-lt FieldKind.int8 = omega arith
type_oid-lt FieldKind.int4 = omega arith
type_oid-lt FieldKind.text = omega arith
type_oid-lt FieldKind.timestamp = omega arith

pub length-encode_name :
    (name : Text) (rest : Bytes) → length (encode_name name rest) ≡ length name + 1 + length rest
unfolding encode_name
length-encode_name name rest = omega (arith, length-append name (0 ∷ rest))

pub length-encode_type :
    (t_oid t_mod : ℕ) (rest : Bytes) → length (encode_type t_oid t_mod rest) ≡ 8 + length rest
unfolding encode_type
length-encode_type t_oid t_mod rest = omega arith

-- Behind a name.
pub drop-encode_name :
    (n : ℕ) (name : Text) (rest : Bytes)
    → n ≡ length name + 1
    → drop n (encode_name name rest) ≡ rest
unfolding encode_name
drop-encode_name n name rest e =
    rw (e, ← drop-drop 1 (length name) (name ++ (0 ∷ rest)), drop-append name (0 ∷ rest)) refl

pub drop-encode_type :
    (t_oid t_mod : ℕ) (rest : Bytes) → drop 8 (encode_type t_oid t_mod rest) ≡ rest
unfolding encode_type
drop-encode_type t_oid t_mod rest = refl

pub encode_type-IsByte :
    (t_oid t_mod : ℕ) (rest : Bytes) → All IsByte rest → All IsByte (encode_type t_oid t_mod rest)
unfolding encode_type
encode_type-IsByte t_oid t_mod rest h =
    to_be-IsByte 4 t_oid (to_be_bytes 4 t_mod ++ rest) (to_be-IsByte 4 t_mod rest h)
