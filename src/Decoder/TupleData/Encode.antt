-- ===== src/Decoder/TupleData/Encode.antt =====
-- The tuple data that PostgreSQL sends, as its protocol documentation describes it: a description
-- to hold the parsers against, not code of the repository. The replication connection asks for
-- binary values, so a text comes in the text format or in the binary one, all else in the binary.
use cdc_connector.Prelude.{
  ◌^◌, ◌<◌, ◌≡◌, Bool, true, List, [], ◌∷◌, ◌++◌, Bytes, Text, length, map, ℤ, Fits, of_signed,
  if◌then◌else◌,
}
use cdc_connector.Bytes.{to_be_bytes, i32_half, i64_half}
use cdc_connector.Avro.Kind.{FieldKind}
use cdc_connector.Avro.Value.{PgValue}
use cdc_connector.Avro.Relation.{FieldAccess}
use cdc_connector.Decoder.Errors.{Utf8}

-- A column as it is sent.
pub data Cell : Type 0 where
  null unchanged : Cell
  text_format binary_text : Text → Cell
  binary_int4 binary_int8 binary_timestamp : ℤ → Cell
  binary_bool : Bool → Cell

-- The value that a column stands for.
unfoldable pub cell_value : Cell → PgValue
cell_value null = PgValue.null
cell_value unchanged = PgValue.toasted
cell_value (text_format t) = PgValue.text t
cell_value (binary_text t) = PgValue.text t
cell_value (binary_int4 n) = PgValue.int4 n
cell_value (binary_int8 n) = PgValue.int8 n
cell_value (binary_timestamp n) = PgValue.timestamp n
cell_value (binary_bool b) = PgValue.bool b

unfoldable pub encode_cell : Cell → Bytes
encode_cell null = b'n' ∷ []
encode_cell unchanged = b'u' ∷ []
encode_cell (text_format t) = b't' ∷ to_be_bytes 4 (length t) ++ t
encode_cell (binary_text t) = b'b' ∷ to_be_bytes 4 (length t) ++ t
encode_cell (binary_int4 n) = b'b' ∷ to_be_bytes 4 4 ++ to_be_bytes 4 (of_signed i32_half n)
encode_cell (binary_int8 n) = b'b' ∷ to_be_bytes 4 8 ++ to_be_bytes 8 (of_signed i64_half n)
encode_cell (binary_timestamp n) = b'b' ∷ to_be_bytes 4 8 ++ to_be_bytes 8 (of_signed i64_half n)
encode_cell (binary_bool b) = b'b' ∷ to_be_bytes 4 1 ++ (if b then 1 else 0) ∷ []

unfoldable pub encode_cells : List Cell → Bytes
encode_cells [] = []
encode_cells (c ∷ cs) = encode_cell c ++ encode_cells cs

-- The number of columns, then the columns.
unfoldable pub encode_tuple : List Cell → Bytes
encode_tuple cs = to_be_bytes 2 (length cs) ++ encode_cells cs

-- What is sent for a column of a kind; an unchanged value only in the new row of an update.
abbrev pub Sendable : Utf8 → Bool → FieldKind → Cell → Type 0
Sendable valid is_update kind null = Unit
Sendable valid is_update kind unchanged = is_update ≡ true
Sendable valid is_update kind (text_format t) = (valid t ≡ true) × (length t < 2 ^ 32)
Sendable valid is_update kind (binary_text t) =
    (kind ≡ FieldKind.text) × (valid t ≡ true) × (length t < 2 ^ 32)
Sendable valid is_update kind (binary_int4 n) = (kind ≡ FieldKind.int4) × Fits i32_half n
Sendable valid is_update kind (binary_int8 n) = (kind ≡ FieldKind.int8) × Fits i64_half n
Sendable valid is_update kind (binary_timestamp n) = (kind ≡ FieldKind.timestamp) × Fits i64_half n
Sendable valid is_update kind (binary_bool b) = kind ≡ FieldKind.bool

abbrev pub values : List Cell → List PgValue
values = map cell_value

-- A row: as many columns as fields, each one that can be sent for its field.
abbrev pub RowSendable :
    {F : Type 0} ⦃access : FieldAccess F⦄ → Utf8 → Bool → List F → List Cell → Type 0
RowSendable valid is_update [] [] = Unit
RowSendable ⦃access⦄ valid is_update (f ∷ fs) (c ∷ cs) =
    Sendable valid is_update (access.get_kind f) c
    × RowSendable ⦃access = access⦄ valid is_update fs cs
RowSendable valid is_update _ _ = ⊥
