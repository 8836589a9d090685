-- ===== src/Decoder/TupleData.antt =====
-- cdc-wal-reader/src/decoder/tuple_data.rs: the values of a row.
pub mod Bounds
pub mod Kinds
pub mod KeyRows
pub mod KeyTuples
pub mod Encode
pub mod RoundTrip
use cdc_connector.Prelude.{
  ℕ, zero, suc, ◌+◌, ◌-◌, ◌%◌, ◌^◌, Bool, true, false, not, ◌&&◌, List, [], ◌∷◌, ◌++◌, Option, none,
  some, Bytes, Text, length, take, Outcome, ok, err, panic, ◌>>=◌, ◌>>◌, fail_if, expect, index,
  slice, slice_from, ltb, leb, ◌==◌, if◌then◌else◌, ℤ,
}
use cdc_connector.Bytes.{read_be, read_i32, read_i64}
use cdc_connector.Avro.Kind.{FieldKind}
use cdc_connector.Avro.Value.{PgValue}
use cdc_connector.Avro.Relation.{Field, FieldAccess, field_access}
use cdc_connector.Decoder.Errors.{
  DecoderError, wrong_col_type_key, truncated_input, corrupted_input, wrong_field_kind,
  toasted_value_on_non_update, Decoded, Utf8, from_utf8,
}
use cdc_connector.Decoder.RelationData.{KeyField, key_field_access}

-- `parse_i64`, with the length `l` that the message gives.
unfoldable pub parse_i64 : ℕ → Bytes → Decoded ℤ
parse_i64 l xs = do
  fail_if (not (l == 8)) (wrong_field_kind FieldKind.int8)
  fail_if (ltb (length xs) 13) truncated_input
  read_i64 xs 5

-- The binary value of a field, by the field's kind.
unfoldable pub parse_binary : Utf8 → FieldKind → ℕ → Bytes → Decoded PgValue
unfolding parse_i64
parse_binary valid FieldKind.int4 l xs = do
  fail_if (not (l == 4)) (wrong_field_kind FieldKind.int4)
  fail_if (ltb (length xs) 9) truncated_input
  n ← read_i32 xs 5
  ok (PgValue.int4 n)
parse_binary valid FieldKind.text l xs = do
  s ← slice xs 5 (5 + l)
  t ← from_utf8 valid s
  ok (PgValue.text t)
parse_binary valid FieldKind.int8 l xs = do n ← parse_i64 l xs; ok (PgValue.int8 n)
parse_binary valid FieldKind.bool l xs = do
  fail_if (not (l == 1)) (wrong_field_kind FieldKind.bool)
  fail_if (ltb (length xs) 6) truncated_input
  b ← index xs 5
  ok (PgValue.bool (not (b == 0)))
parse_binary valid FieldKind.timestamp l xs = do n ← parse_i64 l xs; ok (PgValue.timestamp n)

-- The branch of the key 't'.
unfoldable pub parse_text_value : Utf8 → Bytes → Decoded (PgValue × ℕ)
parse_text_value valid xs = do
  fail_if (ltb (length xs) 5) truncated_input
  l ← read_be xs 1 5
  fail_if (ltb (length xs) (5 + l)) truncated_input
  s ← slice xs 5 (5 + l)
  t ← from_utf8 valid s
  ok (PgValue.text t, 5 + l)

-- The branch of the key 'b'.
unfoldable pub parse_binary_value : Utf8 → FieldKind → Bytes → Decoded (PgValue × ℕ)
parse_binary_value valid kind xs = do
  fail_if (ltb (length xs) 5) truncated_input
  l ← read_be xs 1 5
  v ← parse_binary valid kind l xs
  ok (v, 5 + l)

module _ {F : Type 0} ⦃access : FieldAccess F⦄ where
  unfoldable pub parse_value : Utf8 → Bytes → F → Bool → Decoded (PgValue × ℕ)
  parse_value valid [] field is_update = err truncated_input
  parse_value valid (b ∷ bs) field is_update =
      if b == b'n'
      then ok (PgValue.null, 1)
      else if b == b'u'
      then (if is_update then ok (PgValue.toasted, 1) else err toasted_value_on_non_update)
      else if b == b't'
      then parse_text_value valid (b ∷ bs)
      else if b == b'b'
      then parse_binary_value valid (access.get_kind field) (b ∷ bs)
      else err (wrong_col_type_key b)

  -- The loop over `fields.iter().take(N)`.
  unfoldable pub parse_each :
      Utf8 → Bytes → Bool → List F → ℕ → List PgValue → Decoded (List PgValue × ℕ)
  parse_each valid xs is_update [] last_pos cols = ok (cols, last_pos)
  parse_each valid xs is_update (field ∷ fields) last_pos cols = do
    tail ← slice_from xs last_pos
    (value, len) ← parse_value valid tail field is_update
    parse_each valid xs is_update fields (last_pos + len) (cols ++ (value ∷ []))

  -- The loop `for i in 0..n_cols`, with `fields[i]`; the first number counts the rounds left.
  unfoldable pub parse_indexed :
      Utf8 → Bytes → Bool → List F → ℕ → ℕ → ℕ → List PgValue → Decoded (List PgValue × ℕ)
  parse_indexed valid xs is_update fields zero i last_pos cols = ok (cols, last_pos)
  parse_indexed valid xs is_update fields (suc rounds) i last_pos cols = do
    tail ← slice_from xs last_pos
    field ← index fields i
    (value, len) ← parse_value valid tail field is_update
    parse_indexed valid xs is_update fields rounds (suc i) (last_pos + len) (cols ++ (value ∷ []))

-- `match n_cols { 1 => …, …, 6 => …, _ => … }`
abbrev pub is_unrolled : ℕ → Bool
is_unrolled n = leb 1 n && leb n 6

-- `parse`: a row of an O or an N tuple. The bodies for 1 to 6 columns are one loop over the first
-- `n_cols` fields.
unfoldable pub parse : Utf8 → Bytes → List Field → Bool → Decoded (List PgValue × ℕ)
parse valid xs fields is_update = do
  fail_if (ltb (length xs) 2) truncated_input
  n_cols ← read_be xs 0 2
  fail_if (ltb (length fields % 2 ^ 16) n_cols) corrupted_input
  if is_unrolled n_cols
      then parse_each valid xs is_update (take n_cols fields) 2 []
      else parse_indexed valid xs is_update fields n_cols 0 2 []

-- The unrolled body of `parse_keys`: the rounds left, the column `i` and the key to come.
-- `indexes.len() - 1` is reached only where `indexes` has an element. `last_pos + total_fields - i`
-- cannot wrap, since `i` is below the number of columns, which is at most `total_fields`.
unfoldable pub parse_key_cols :
    Utf8
    → Bytes
    → List KeyField
    → List ℕ
    → ℕ
    → ℕ
    → ℕ
    → ℕ
    → ℕ
    → List PgValue
    → Decoded (List PgValue × ℕ)
parse_key_cols valid xs fields indexes total_fields zero i key_idx last_pos cols =
    ok (cols, last_pos)
parse_key_cols valid xs fields indexes total_fields (suc rounds) i key_idx last_pos cols = do
  next_key ← index indexes key_idx
  if i == next_key
      then (do
        tail ← slice_from xs last_pos
        field ← index fields key_idx
        (value, len) ← parse_value valid tail field false
        let cols' = cols ++ (value ∷ [])
        let more =
            parse_key_cols valid xs fields indexes total_fields rounds (suc i) (suc key_idx)
              (last_pos + len) cols'
        if ltb i (length indexes - 1) then more else ok (cols', last_pos + len + total_fields - i))
      else (let skip =
            parse_key_cols valid xs fields indexes total_fields rounds (suc i) key_idx
              (last_pos + 1) cols in
          skip)

-- `parse_keys`: the key columns of a K tuple.
unfoldable pub parse_keys : Utf8 → Bytes → List KeyField → List ℕ → ℕ → Decoded (List PgValue × ℕ)
parse_keys valid xs fields indexes total_fields = do
  fail_if (ltb (length xs) 2) truncated_input
  n_cols ← read_be xs 0 2
  fail_if (ltb total_fields n_cols) corrupted_input
  if is_unrolled n_cols
      then parse_key_cols valid xs fields indexes total_fields n_cols 0 0 2 []
      else parse_indexed valid xs false fields n_cols 0 2 []
