-- ===== src/Decoder/TupleData/Bounds.antt =====
-- Positions in tuple data: a value takes at least a byte and at most what is left, so that the
-- loops stay inside the message; and when the parsers end in a panic.
use cdc_connector.Prelude.{
  ℕ, zero, suc, ◌+◌, ◌^◌, ◌≤◌, ◌<◌, ◌≡◌, ◌≢◌, refl, Bool, List, [], ◌∷◌, ◌++◌, ok, err, panic,
  Bytes, length, drop, take, All, arith, length-drop, length-take, length-append, Outcome-Cases,
  is_ok, is_err, is_panic, le→leb, drop-lt, All-take,
}
use cdc_connector.Bytes.{from_be_bytes}
use cdc_connector.Avro.Kind.{FieldKind}
use cdc_connector.Avro.Value.{PgValue}
use cdc_connector.Avro.Relation.{Field, FieldAccess, field_access}
use cdc_connector.Decoder.Errors.{Utf8, truncated_input, corrupted_input}
use cdc_connector.Decoder.TupleData.{
  parse_i64, parse_binary, parse_text_value, parse_binary_value, parse_value, parse_each,
  parse_indexed, parse,
}

parse_binary_value-size :
    (valid : Utf8) (kind : FieldKind) (xs : Bytes) (v : PgValue) (len : ℕ)
    → parse_binary_value valid kind xs ≡ ok (v, len)
    → (1 ≤ len) × (len ≤ length xs)
unfolding parse_binary_value parse_binary parse_i64
parse_binary_value-size valid FieldKind.int4 xs v len h = ground arith
parse_binary_value-size valid _ xs v len h = ground arith

parse_text_value-size :
    (valid : Utf8) (xs : Bytes) (v : PgValue) (len : ℕ)
    → parse_text_value valid xs ≡ ok (v, len)
    → (1 ≤ len) × (len ≤ length xs)
unfolding parse_text_value
parse_text_value-size valid xs v len h = ground arith

parse_binary-panic :
    (valid : Utf8) (kind : FieldKind) (l : ℕ) (xs : Bytes)
    → parse_binary valid kind l xs ≡ panic
    → (kind ≡ FieldKind.text) × (length xs < 5 + l)
unfolding parse_binary parse_i64
parse_binary-panic valid FieldKind.int4 l xs h = ground arith
parse_binary-panic valid FieldKind.bool l xs h = ground (arith, drop-lt xs 5)
parse_binary-panic valid _ l xs h = ground arith

parse_binary_value-panic :
    (valid : Utf8) (kind : FieldKind) (b : ℕ) (bs : Bytes)
    → parse_binary_value valid kind (b ∷ bs) ≡ panic
    → (kind ≡ FieldKind.text) × (length (b ∷ bs) < 5 + from_be_bytes (take 4 bs))
unfolding parse_binary_value
parse_binary_value-panic valid kind b bs h =
    ground (arith, parse_binary-panic valid kind (from_be_bytes (take 4 bs)) (b ∷ bs))

parse_text_value-ne-panic : (valid : Utf8) (xs : Bytes) → parse_text_value valid xs ≢ panic
unfolding parse_text_value
parse_text_value-ne-panic valid xs h = ground arith

module _ {F : Type 0} ⦃access : FieldAccess F⦄ where
  -- A value that is read takes at least one byte, and no more than there are.
  pub parse_value-size :
      (valid : Utf8) (xs : Bytes) (field : F) (is_update : Bool) (v : PgValue) (len : ℕ)
      → parse_value valid xs field is_update ≡ ok (v, len)
      → (1 ≤ len) × (len ≤ length xs)
  unfolding parse_value
  parse_value-size valid [] field is_update v len h = cc
  parse_value-size valid (b ∷ bs) field is_update v len h = ground (
    arith,
    parse_text_value-size valid (b ∷ bs) v len,
    parse_binary_value-size valid (access.get_kind field) (b ∷ bs) v len,
  )

  parse_each-bounds :
      (valid : Utf8) (xs : Bytes) (is_update : Bool) (fields : List F) (pos : ℕ)
      (cols : List PgValue) (row : List PgValue) (end : ℕ)
      → parse_each valid xs is_update fields pos cols ≡ ok (row, end)
      → pos ≤ length xs
      → (pos + length fields ≤ end) × (end ≤ length xs) × (length row ≡ length cols + length fields)
  unfolding parse_each
  parse_each-bounds valid xs is_update [] pos cols row end h p = ground arith
  parse_each-bounds valid xs is_update (f ∷ fs) pos cols row end h p =
      elim (Outcome-Cases (parse_value valid (drop pos xs) f is_update)) [
        | is_ok (v, n) e ↦ ground (
          arith,
          le→leb pos (length xs),
          length-drop pos xs,
          length-append cols (v ∷ []),
          parse_value-size valid (drop pos xs) f is_update v n,
          parse_each-bounds valid xs is_update fs (pos + n) (cols ++ v ∷ []) row end,
        )
        | is_err x e ↦ ground (arith, le→leb pos (length xs))
        | is_panic e ↦ ground (arith, le→leb pos (length xs))
      ]

  -- Only a binary text that is cut short ends in a panic.
  pub parse_value-panic :
      (valid : Utf8) (b : ℕ) (bs : Bytes) (field : F) (is_update : Bool)
      → parse_value valid (b ∷ bs) field is_update ≡ panic
      → (b ≡ b'b')
        × (access.get_kind field ≡ FieldKind.text)
        × (length (b ∷ bs) < 5 + from_be_bytes (take 4 bs))
  unfolding parse_value
  parse_value-panic valid b bs field is_update h = ground (
    arith,
    parse_text_value-ne-panic valid (b ∷ bs),
    parse_binary_value-panic valid (access.get_kind field) b bs,
  )

  parse_value-ne-panic :
      (valid : Utf8) (xs : Bytes) (field : F) (is_update : Bool)
      → access.get_kind field ≢ FieldKind.text
      → parse_value valid xs field is_update ≢ panic
  parse_value-ne-panic valid [] field is_update k h = unfold parse_value in cc
  parse_value-ne-panic valid (b ∷ bs) field is_update k h =
      k (parse_value-panic valid b bs field is_update h).1

  parse_each-ne-panic :
      (valid : Utf8) (xs : Bytes) (is_update : Bool) (fields : List F) (pos : ℕ)
      (cols : List PgValue)
      → All (λ f. access.get_kind f ≢ FieldKind.text) fields
      → pos ≤ length xs
      → parse_each valid xs is_update fields pos cols ≢ panic
  unfolding parse_each
  parse_each-ne-panic valid xs is_update [] pos cols k p = λ h. cc
  parse_each-ne-panic valid xs is_update (f ∷ fs) pos cols k p = λ h.
      elim (Outcome-Cases (parse_value valid (drop pos xs) f is_update)) [
        | is_ok (v, n) e ↦ ground (
          arith,
          le→leb pos (length xs),
          length-drop pos xs,
          parse_value-size valid (drop pos xs) f is_update v n,
          parse_each-ne-panic valid xs is_update fs (pos + n) (cols ++ v ∷ []) k.1,
        )
        | is_err x e ↦ ground (arith, le→leb pos (length xs))
        | is_panic e ↦ parse_value-ne-panic valid (drop pos xs) f is_update k.0 e
      ]

  -- The loop with an index does what the loop over the first fields does.
  pub parse_indexed-parse_each :
      (valid : Utf8) (xs : Bytes) (is_update : Bool) (fields : List F) (rounds i pos : ℕ)
      (cols : List PgValue)
      → i + rounds ≤ length fields
      → parse_indexed valid xs is_update fields rounds i pos cols
        ≡ parse_each valid xs is_update (take rounds (drop i fields)) pos cols
  unfolding parse_indexed parse_each
  parse_indexed-parse_each valid xs is_update fields zero i pos cols h = refl
  parse_indexed-parse_each valid xs is_update fields (suc rounds) i pos cols h =
      let (f, g, d) = drop-lt fields i (omega arith) in
      elim (Outcome-Cases (parse_value valid (drop pos xs) f is_update)) [
        | is_ok (v, n) e ↦ ground (
          arith,
          g,
          d,
          e,
          parse_indexed-parse_each valid xs is_update fields rounds (suc i) (pos + n)
              (cols ++ v ∷ []),
        )
        | is_err x e ↦ ground (arith, g, d, e)
        | is_panic e ↦ ground (arith, g, d, e)
      ]

-- The number of columns that tuple data begins with.
abbrev pub col_count : Bytes → ℕ
col_count xs = from_be_bytes (take 2 xs)

module _ (valid : Utf8) (xs : Bytes) (fields : List Field) (is_update : Bool)
    (few : length fields < 2 ^ 16) where
  -- Behind its two checks `parse` is one loop over as many fields as there are columns, whether or
  -- not its body for that number of columns is an unrolled one.
  pub parse-uniform :
      2 ≤ length xs
      → col_count xs ≤ length fields
      → parse valid xs fields is_update
        ≡ parse_each valid xs is_update (take (col_count xs) fields) 2 []
  unfolding parse
  parse-uniform h k =
      ground (arith, parse_indexed-parse_each valid xs is_update fields (col_count xs) 0 2 [])

  pub parse-short : length xs < 2 → parse valid xs fields is_update ≡ err truncated_input
  unfolding parse
  parse-short h = ground arith

  pub parse-too_many :
      2 ≤ length xs
      → length fields < col_count xs
      → parse valid xs fields is_update ≡ err corrupted_input
  unfolding parse
  parse-too_many h k = ground arith

  -- A row that `parse` returns has a value for each column of the message, and the position that
  -- comes with it lies inside the message, behind a byte at least for each value.
  pub parse_bounds :
      (row : List PgValue) (end : ℕ)
      → parse valid xs fields is_update ≡ ok (row, end)
      → (length row ≡ col_count xs) × (2 + length row ≤ end) × (end ≤ length xs)
  parse_bounds row end h = ground (
    arith,
    parse-short,
    parse-too_many,
    parse-uniform,
    length-take (col_count xs) fields,
    parse_each-bounds valid xs is_update (take (col_count xs) fields) 2 [] row end,
  )

  parse-ne-panic :
      All (λ f. f.kind ≢ FieldKind.text) fields → parse valid xs fields is_update ≢ panic
  parse-ne-panic k h = ground (
    arith,
    parse-short,
    parse-too_many,
    parse-uniform,
    parse_each-ne-panic valid xs is_update (take (col_count xs) fields) 2 []
        (All-take _ (col_count xs) fields k),
  )
