-- ===== src/Decoder/TupleData/RoundTrip.antt =====
-- The parsers read back what is sent.
use cdc_connector.Prelude.{
  ℕ, suc, ◌+◌, ◌^◌, ◌≤◌, ◌<◌, ◌≡◌, refl, ap, ◌∙◌, Bool, List, [], ◌∷◌, ◌++◌, ok, Bytes, length,
  drop, arith, length-append, drop-append, take-append, drop-drop, append_assoc, append-nil, ap₂,
  length-drop, take_all, of_signed, to_signed-of_signed, of_signed-lt, le→leb,
}
use cdc_connector.Bytes.{i32_half, i64_half, from_be-to_be_16, from_be-to_be_32, from_be-to_be_64}
use cdc_connector.Avro.Value.{PgValue}
use cdc_connector.Avro.Relation.{Field, FieldAccess, field_access}
use cdc_connector.Decoder.Errors.{Utf8}
use cdc_connector.Decoder.TupleData.{
  parse_i64, parse_binary, parse_text_value, parse_binary_value, parse_value, parse_each, parse,
}
use cdc_connector.Decoder.TupleData.Bounds.{parse-uniform}
use cdc_connector.Decoder.TupleData.Encode.{
  Cell, null, unchanged, text_format, binary_text, binary_int4, binary_int8, binary_timestamp,
  binary_bool, cell_value, encode_cell, encode_cells, encode_tuple, Sendable, RowSendable, values,
}

module _ {F : Type 0} ⦃access : FieldAccess F⦄ where
  pub parse_value-encode :
      (valid : Utf8) (is_update : Bool) (field : F) (c : Cell) (rest : Bytes)
      → Sendable valid is_update (access.get_kind field) c
      → parse_value valid (encode_cell c ++ rest) field is_update
        ≡ ok (cell_value c, length (encode_cell c))
  unfolding parse_value parse_binary_value parse_text_value parse_binary parse_i64 encode_cell
      cell_value
  parse_value-encode valid is_update field null rest h = refl
  parse_value-encode valid is_update field unchanged rest h = rw h
  parse_value-encode valid is_update field (text_format t) rest h =
      ground (arith, from_be-to_be_32 (length t), take-append t rest, length-append t rest)
  parse_value-encode valid is_update field (binary_text t) rest h =
      ground (arith, from_be-to_be_32 (length t), take-append t rest, length-append t rest)
  parse_value-encode valid is_update field (binary_int4 n) rest h = ground (
    arith,
    from_be-to_be_32 (of_signed i32_half n),
    of_signed-lt i32_half n,
    to_signed-of_signed i32_half n,
  )
  parse_value-encode valid is_update field (binary_int8 n) rest h = ground (
    arith,
    from_be-to_be_64 (of_signed i64_half n),
    of_signed-lt i64_half n,
    to_signed-of_signed i64_half n,
  )
  parse_value-encode valid is_update field (binary_timestamp n) rest h = ground (
    arith,
    from_be-to_be_64 (of_signed i64_half n),
    of_signed-lt i64_half n,
    to_signed-of_signed i64_half n,
  )
  parse_value-encode valid is_update field (binary_bool b) rest h = ground arith

  -- One step of a loop over the columns that were sent: the value of the first, and where the others
  -- begin.
  pub encoded_step :
      (valid : Utf8) (xs : Bytes) (is_update : Bool) (f : F) (c : Cell) (cs : List Cell) (pos : ℕ)
      (rest : Bytes)
      → drop pos xs ≡ encode_cells (c ∷ cs) ++ rest
      → pos ≤ length xs
      → Sendable valid is_update (access.get_kind f) c
      → (parse_value valid (drop pos xs) f is_update ≡ ok (cell_value c, length (encode_cell c)))
        × (drop (pos + length (encode_cell c)) xs ≡ encode_cells cs ++ rest)
        × (pos + length (encode_cell c) ≤ length xs)
  unfolding encode_cells
  encoded_step valid xs is_update f c cs pos rest e p h = (
    rw here (parse_value-encode valid is_update f c (encode_cells cs ++ rest) h),
    rw (← drop-drop (length (encode_cell c)) pos xs, here)
        (drop-append (encode_cell c) (encode_cells cs ++ rest)),
    omega (
      arith,
      length-drop pos xs,
      ap length here,
      length-append (encode_cell c) (encode_cells cs ++ rest),
    ),
  )
    where
      here : drop pos xs ≡ encode_cell c ++ (encode_cells cs ++ rest)
      here = e ∙ append_assoc (encode_cell c) (encode_cells cs) rest

  parse_each-encode :
      (valid : Utf8) (xs : Bytes) (is_update : Bool) (fields : List F) (cells : List Cell) (pos : ℕ)
      (cols : List PgValue) (rest : Bytes)
      → drop pos xs ≡ encode_cells cells ++ rest
      → pos ≤ length xs
      → RowSendable valid is_update fields cells
      → parse_each valid xs is_update fields pos cols
        ≡ ok (cols ++ values cells, pos + length (encode_cells cells))
  unfolding parse_each encode_cells
  parse_each-encode valid xs is_update [] [] pos cols rest e p h = ground (arith, append-nil cols)
  parse_each-encode valid xs is_update [] (c ∷ cs) pos cols rest e p h = absurd h
  parse_each-encode valid xs is_update (f ∷ fs) [] pos cols rest e p h = absurd h
  parse_each-encode valid xs is_update (f ∷ fs) (c ∷ cs) pos cols rest e p h =
      let (first, behind, room) = encoded_step valid xs is_update f c cs pos rest e p h.0 in
      rw (le→leb pos (length xs) p, first)
        (parse_each-encode valid xs is_update fs cs (pos + length (encode_cell c))
            (cols ++ cell_value c ∷ []) rest behind room h.1
          ∙ ap₂ (λ (a : List PgValue) (b : ℕ). ok (a, b))
              (append_assoc cols (cell_value c ∷ []) (values cs))
              (omega (arith, length-append (encode_cell c) (encode_cells cs))))

pub RowSendable-length :
    {F : Type 0} ⦃access : FieldAccess F⦄ (valid : Utf8) (is_update : Bool) (fields : List F)
    (cells : List Cell)
    → RowSendable valid is_update fields cells
    → length cells ≡ length fields
RowSendable-length valid is_update [] [] h = refl
RowSendable-length valid is_update [] (c ∷ cs) h = absurd h
RowSendable-length valid is_update (f ∷ fs) [] h = absurd h
RowSendable-length valid is_update (f ∷ fs) (c ∷ cs) h =
    ap suc (RowSendable-length valid is_update fs cs h.1)

-- `parse` reads a row that PostgreSQL sends: the value of each column, up to the end of the tuple,
-- whatever follows it.
pub parse-encode :
    (valid : Utf8) (fields : List Field) (is_update : Bool) (cells : List Cell) (rest : Bytes)
    → length fields < 2 ^ 16
    → RowSendable valid is_update fields cells
    → parse valid (encode_tuple cells ++ rest) fields is_update
      ≡ ok (values cells, length (encode_tuple cells))
unfolding encode_tuple
parse-encode valid fields is_update cells rest few h = ground (
  arith,
  RowSendable-length valid is_update fields cells h,
  from_be-to_be_16 (length cells),
  take_all fields,
  parse-uniform valid xs fields is_update few,
  parse_each-encode valid xs is_update fields cells 2 [] rest refl (omega arith) h,
)
  where
    xs : Bytes
    xs = encode_tuple cells ++ rest
