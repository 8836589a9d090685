-- ===== src/Decoder/RelationData/Columns.antt =====
-- `parse_field` and the loop over the columns read back what is sent.
use cdc_connector.Prelude.{
  ℕ, suc, ◌+◌, ◌^◌, ◌≤◌, ◌<◌, ◌≡◌, refl, ap, ◌∙◌, arith, Bool, true, false, List, [], ◌∷◌, ◌++◌,
  Bytes, Text, length, drop, All, ok, drop-drop, le→leb, length-drop, append-nil, append_assoc,
}
use cdc_connector.Bytes.{IsByte, to_be_bytes}
use cdc_connector.Avro.Kind.{FieldKind}
use cdc_connector.Avro.Relation.{Field}
use cdc_connector.Decoder.Errors.{Decoded, wrong_field_data_flag, Utf8}
use cdc_connector.Decoder.RelationData.{
  FieldParseResult, physical, logical, byte_size_len, parse_physical, parse_field, parse_fields,
}
use cdc_connector.Prelude.{if◌then◌else◌, ◌==◌, ◌||◌, err, le→ltb, Bool-cases, inl, inr}
use cdc_connector.Decoder.RelationData.Encode.{
  Column, stored, generated, type_oid, encode_name, encode_type, encode_column, encode_columns,
  NameSendable, ColumnSendable, stored_fields,
}
use cdc_connector.Decoder.RelationData.Parts.{
  kind_from_oid_mod-type, type_oid-lt, length-encode_name, length-encode_type, drop-encode_name,
  drop-encode_type, encode_type-IsByte,
}
use cdc_connector.Decoder.RelationData.Strings.{encode_name-IsByte, extract_string-encode, read_32}

-- A column by its flag, name and type.
abbrev flagged : ℕ → Text → ℕ → ℕ → Bytes → Bytes
flagged flag name t_oid t_mod rest = flag ∷ encode_name name (encode_type t_oid t_mod rest)

module _ (flag : ℕ) (name : Text) (t_oid t_mod : ℕ) (rest : Bytes) where
  length-flagged : length (flagged flag name t_oid t_mod rest) ≡ 10 + length name + length rest
  length-flagged = omega (
    arith,
    length-encode_name name (encode_type t_oid t_mod rest),
    length-encode_type t_oid t_mod rest,
  )

  drop-flagged : drop (10 + length name) (flagged flag name t_oid t_mod rest) ≡ rest
  drop-flagged =
      let e : 10 + length name ≡ suc (length name + 1 + 8) = omega arith in
      rw
        (
          e,
          ← drop-drop 8 (length name + 1) (encode_name name (encode_type t_oid t_mod rest)),
          drop-encode_name (length name + 1) name (encode_type t_oid t_mod rest) refl,
        )
        (drop-encode_type t_oid t_mod rest)

  parse_physical-flagged :
      (is_key : Bool) (kind : FieldKind)
      → t_oid ≡ type_oid kind
      → t_mod < 2 ^ 32
      → parse_physical is_key name (flagged flag name t_oid t_mod rest)
        ≡ ok (physical (record { is_key = is_key; name = name; kind = kind }) (10 + length name))
  unfolding parse_physical byte_size_len
  parse_physical-flagged is_key kind e h =
      let pos = 1 + length name + 1 in
      let xs = flagged flag name t_oid t_mod rest in
      let at : drop pos xs ≡ encode_type t_oid t_mod rest =
        (let s : pos ≡ suc (length name + 1) = omega arith in
          rw s (drop-encode_name (length name + 1) name (encode_type t_oid t_mod rest) refl)) in
      let first =
        read_32 xs pos t_oid (to_be_bytes 4 t_mod ++ rest) (unfold encode_type in at)
          (omega (arith, length-flagged)) (rw e (type_oid-lt kind)) in
      let next : drop (pos + 4) xs ≡ to_be_bytes 4 t_mod ++ rest =
        rw (← drop-drop 4 pos xs, at) (unfold encode_type in refl) in
      let second = read_32 xs (pos + 4) t_mod rest next (omega (arith, length-flagged)) h in
      let eight : pos + 4 + 4 ≡ pos + 8 = omega arith in
      rw (first, rw eight at second, e, kind_from_oid_mod-type kind t_mod) refl

-- What the parser makes of a column, with the length that it takes.
abbrev pub column_result : Column → FieldParseResult
column_result (stored field t_mod) = physical field (10 + length field.name)
column_result (generated b name t_oid t_mod) = logical (10 + length name)

abbrev pub column_size : Column → ℕ
column_size (stored field t_mod) = 10 + length field.name
column_size (generated b name t_oid t_mod) = 10 + length name

-- What `parse_field` goes on with once it has the name.
abbrev by_flag : ℕ → Text → Bytes → Decoded FieldParseResult
by_flag flag name xs =
    if flag == 0
    then parse_physical false name xs
    else if flag == 1
    then parse_physical true name xs
    else if flag == 2 || flag == 3
    then ok (logical (byte_size_len (length name)))
    else err (wrong_field_data_flag flag)

parse_field-flagged :
    (valid : Utf8) (flag : ℕ) (name : Text) (t_oid t_mod : ℕ) (rest : Bytes)
    → NameSendable valid name
    → All IsByte rest
    → parse_field valid (flagged flag name t_oid t_mod rest)
      ≡ by_flag flag name (flagged flag name t_oid t_mod rest)
unfolding parse_field
parse_field-flagged valid flag name t_oid t_mod rest h g =
    let xs = flagged flag name t_oid t_mod rest in
    let behind = encode_type t_oid t_mod rest in
    let size = length-flagged flag name t_oid t_mod rest in
    rw
      (
        le→ltb (length xs) 10 (omega arith),
        le→leb 1 (length xs) (omega arith),
        extract_string-encode valid name behind h (encode_type-IsByte t_oid t_mod rest g),
      )
      refl

parse_field-encode :
    (valid : Utf8) (c : Column) (rest : Bytes)
    → ColumnSendable valid c
    → All IsByte rest
    → parse_field valid (encode_column c rest) ≡ ok (column_result c)
unfolding encode_column
parse_field-encode valid (stored field t_mod) rest h g =
    let t_oid = type_oid field.kind in
    parse_field-flagged valid (if field.is_key then 1 else 0) field.name t_oid t_mod rest h.0 g
    ∙ elim (Bool-cases field.is_key) [
      | inl key ↦
          rw key (parse_physical-flagged 1 field.name t_oid t_mod rest true field.kind refl h.1)
      | inr plain ↦
          rw plain (parse_physical-flagged 0 field.name t_oid t_mod rest false field.kind refl h.1)
    ]
parse_field-encode valid (generated true name t_oid t_mod) rest h g =
    parse_field-flagged valid 2 name t_oid t_mod rest h g ∙ unfold byte_size_len in refl
parse_field-encode valid (generated false name t_oid t_mod) rest h g =
    parse_field-flagged valid 3 name t_oid t_mod rest h g ∙ unfold byte_size_len in refl

encode_column-IsByte :
    (valid : Utf8) (c : Column) (rest : Bytes)
    → ColumnSendable valid c
    → All IsByte rest
    → All IsByte (encode_column c rest)
unfolding encode_column
encode_column-IsByte valid (stored field t_mod) rest h g = (
  ground arith,
  encode_name-IsByte valid field.name (encode_type (type_oid field.kind) t_mod rest) h.0
      (encode_type-IsByte (type_oid field.kind) t_mod rest g),
)
encode_column-IsByte valid (generated b name t_oid t_mod) rest h g = (
  ground arith,
  encode_name-IsByte valid name (encode_type t_oid t_mod rest) h
      (encode_type-IsByte t_oid t_mod rest g),
)

pub encode_columns-IsByte :
    (valid : Utf8) (cs : List Column) (rest : Bytes)
    → All (ColumnSendable valid) cs
    → All IsByte rest
    → All IsByte (encode_columns cs rest)
unfolding encode_columns
encode_columns-IsByte valid [] rest h g = g
encode_columns-IsByte valid (c ∷ cs) rest h g =
    encode_column-IsByte valid c (encode_columns cs rest) h.0
      (encode_columns-IsByte valid cs rest h.1 g)

length-encode_column :
    (c : Column) (rest : Bytes) → length (encode_column c rest) ≡ column_size c + length rest
unfolding encode_column
length-encode_column (stored field t_mod) rest =
    length-flagged (if field.is_key then 1 else 0) field.name (type_oid field.kind) t_mod rest
length-encode_column (generated b name t_oid t_mod) rest =
    length-flagged (if b then 2 else 3) name t_oid t_mod rest

drop-encode_column :
    (c : Column) (rest : Bytes) → drop (column_size c) (encode_column c rest) ≡ rest
unfolding encode_column
drop-encode_column (stored field t_mod) rest =
    drop-flagged (if field.is_key then 1 else 0) field.name (type_oid field.kind) t_mod rest
drop-encode_column (generated b name t_oid t_mod) rest =
    drop-flagged (if b then 2 else 3) name t_oid t_mod rest

-- The loop, from the column on that begins at `pos`.
pub parse_fields-encode :
    (valid : Utf8) (xs : Bytes) (cs : List Column) (pos : ℕ) (fields : List Field) (rest : Bytes)
    → drop pos xs ≡ encode_columns cs rest
    → pos ≤ length xs
    → All (ColumnSendable valid) cs
    → All IsByte rest
    → parse_fields valid (length cs) xs pos fields ≡ ok (fields ++ stored_fields cs)
unfolding parse_fields encode_columns stored_fields
parse_fields-encode valid xs [] pos fields rest e p h g = ground (arith, append-nil fields)
parse_fields-encode valid xs (stored field t_mod ∷ cs) pos fields rest e p h g =
    let c = stored field t_mod in
    let more = encode_columns cs rest in
    let room : pos + column_size c ≤ length xs =
      omega (arith, length-drop pos xs, ap length e, length-encode_column c more) in
    let next : drop (pos + column_size c) xs ≡ more =
      rw (← drop-drop (column_size c) pos xs, e) (drop-encode_column c more) in
    rw
      (
        le→leb pos (length xs) p,
        e,
        parse_field-encode valid c more h.0 (encode_columns-IsByte valid cs rest h.1 g),
      )
      (parse_fields-encode valid xs cs (pos + column_size c) (fields ++ field ∷ []) rest next room
          h.1 g
        ∙ ap ok (append_assoc fields (field ∷ []) (stored_fields cs)))
parse_fields-encode valid xs (generated b name t_oid t_mod ∷ cs) pos fields rest e p h g =
    let c = generated b name t_oid t_mod in
    let more = encode_columns cs rest in
    let room : pos + column_size c ≤ length xs =
      omega (arith, length-drop pos xs, ap length e, length-encode_column c more) in
    let next : drop (pos + column_size c) xs ≡ more =
      rw (← drop-drop (column_size c) pos xs, e) (drop-encode_column c more) in
    rw
      (
        le→leb pos (length xs) p,
        e,
        parse_field-encode valid c more h.0 (encode_columns-IsByte valid cs rest h.1 g),
        append-nil fields,
      )
      (parse_fields-encode valid xs cs (pos + column_size c) fields rest next room h.1 g)
