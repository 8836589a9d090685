-- ===== src/Decoder/RelationData/Encode.antt =====
-- The relation message that PostgreSQL sends, as its protocol documentation describes it: a
-- description to hold the parser against, not code of the repository. Each part is written in front
-- of what follows it.
use cdc_connector.Prelude.{
  ℕ, ◌^◌, ◌<◌, ◌≡◌, Bool, true, List, [], ◌∷◌, ◌++◌, none, Bytes, Text, length, All, if◌then◌else◌,
}
use cdc_connector.Bytes.{IsByte, to_be_bytes}
use cdc_connector.Avro.Kind.{FieldKind, ReplicaKind}
use cdc_connector.Avro.Relation.{Field}
use cdc_connector.Decoder.Errors.{Utf8}
use cdc_connector.Decoder.NullWord.Reference.{first_null}

-- A column as it is described: one that is stored, or one that is generated (flag 2 or 3), of any
-- type.
pub data Column : Type 0 where
  stored : Field → ℕ → Column
  generated : Bool → Text → ℕ → ℕ → Column

-- The object identifiers of the types in PostgreSQL's catalogue.
unfoldable pub type_oid : FieldKind → ℕ
type_oid FieldKind.bool = 16
type_oid FieldKind.int8 = 20
type_oid FieldKind.int4 = 23
type_oid FieldKind.text = 25
type_oid FieldKind.timestamp = 1114

unfoldable pub encode_name : Text → Bytes → Bytes
encode_name name rest = name ++ (0 ∷ rest)

unfoldable pub encode_type : ℕ → ℕ → Bytes → Bytes
encode_type t_oid t_mod rest = to_be_bytes 4 t_oid ++ (to_be_bytes 4 t_mod ++ rest)

unfoldable pub encode_column : Column → Bytes → Bytes
unfolding encode_name encode_type type_oid
encode_column (stored field t_mod) rest =
    (if field.is_key then 1 else 0)
    ∷ encode_name field.name (encode_type (type_oid field.kind) t_mod rest)
encode_column (generated b name t_oid t_mod) rest =
    (if b then 2 else 3) ∷ encode_name name (encode_type t_oid t_mod rest)

unfoldable pub encode_columns : List Column → Bytes → Bytes
encode_columns [] rest = rest
encode_columns (c ∷ cs) rest = encode_column c (encode_columns cs rest)

unfoldable pub replica_byte : ReplicaKind → ℕ
replica_byte ReplicaKind.keys = b'd'
replica_byte ReplicaKind.row = b'f'

-- The message up to the number of its columns.
unfoldable pub encode_header : ℕ → Text → Text → ReplicaKind → Bytes → Bytes
unfolding encode_name replica_byte
encode_header oid namespace name replica_id rest =
    b'R'
    ∷ (to_be_bytes 4 oid
        ++ encode_name namespace (encode_name name (replica_byte replica_id ∷ rest)))

unfoldable pub encode_relation : ℕ → Text → Text → ReplicaKind → List Column → Bytes → Bytes
unfolding encode_header encode_columns
encode_relation oid namespace name replica_id columns rest =
    encode_header oid namespace name replica_id
      (to_be_bytes 2 (length columns) ++ encode_columns columns rest)

-- A name that can be sent: valid UTF-8 with no zero byte.
abbrev pub NameSendable : Utf8 → Text → Type 0
NameSendable valid name = All IsByte name × (first_null name ≡ none) × (valid name ≡ true)

abbrev pub ColumnSendable : Utf8 → Column → Type 0
ColumnSendable valid (stored field t_mod) = NameSendable valid field.name × (t_mod < 2 ^ 32)
ColumnSendable valid (generated b name t_oid t_mod) = NameSendable valid name

-- The fields of the relation: the columns that are stored.
unfoldable pub stored_fields : List Column → List Field
stored_fields [] = []
stored_fields (stored field t_mod ∷ cs) = field ∷ stored_fields cs
stored_fields (generated b name t_oid t_mod ∷ cs) = stored_fields cs
