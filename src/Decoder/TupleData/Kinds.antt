-- ===== src/Decoder/TupleData/Kinds.antt =====
-- The binary values of a row fit the kinds of their fields, and only the new row of an update has toasted
-- values.
use cdc_connector.Prelude.{
  ℕ, ◌+◌, ◌^◌, ◌<◌, ◌≡◌, refl, Bool, true, false, List, [], ◌∷◌, ◌++◌, ok, Bytes, length, drop,
  take, All, arith, leb, Outcome-Cases, is_ok, is_err, is_panic, append_assoc, append-nil, ◌∙◌,
  Bool-cases, inl, inr,
}
use cdc_connector.Bytes.{from_be_bytes}
use cdc_connector.Avro.Kind.{FieldKind}
use cdc_connector.Avro.Value.{PgValue}
use cdc_connector.Avro.Merge.{Settled}
use cdc_connector.Avro.Relation.{Field, FieldAccess, field_access}
use cdc_connector.Decoder.Errors.{Utf8}
use cdc_connector.Decoder.TupleData.{
  parse_i64, parse_binary, parse_text_value, parse_binary_value, parse_value, parse_each, parse,
}
use cdc_connector.Decoder.TupleData.Bounds.{col_count, parse-uniform, parse-short, parse-too_many}

-- A value that can be read for a field of the kind: one of the kind, a text, which the server may send
-- for any kind, or NULL.
abbrev pub Conforms : Bool → FieldKind → PgValue → Type 0
Conforms is_update kind PgValue.null = Unit
Conforms is_update kind (PgValue.text t) = Unit
Conforms is_update kind (PgValue.int4 n) = kind ≡ FieldKind.int4
Conforms is_update kind (PgValue.int8 n) = kind ≡ FieldKind.int8
Conforms is_update kind (PgValue.bool b) = kind ≡ FieldKind.bool
Conforms is_update kind (PgValue.timestamp t) = kind ≡ FieldKind.timestamp
Conforms is_update kind PgValue.toasted = is_update ≡ true

abbrev pub RowConforms :
    {F : Type 0} ⦃access : FieldAccess F⦄ → Bool → List F → List PgValue → Type 0
RowConforms is_update [] [] = Unit
RowConforms ⦃access⦄ is_update (f ∷ fs) (v ∷ vs) =
    Conforms is_update (access.get_kind f) v × RowConforms ⦃access = access⦄ is_update fs vs
RowConforms is_update _ _ = ⊥

parse_text_value-Conforms :
    (valid : Utf8) (u : Bool) (kind : FieldKind) (xs : Bytes) (v : PgValue) (len : ℕ)
    → parse_text_value valid xs ≡ ok (v, len)
    → Conforms u kind v
unfolding parse_text_value
parse_text_value-Conforms valid u kind xs v len h = ground arith

parse_binary-Conforms :
    (valid : Utf8) (u : Bool) (kind : FieldKind) (l : ℕ) (xs : Bytes) (v : PgValue)
    → parse_binary valid kind l xs ≡ ok v
    → Conforms u kind v
unfolding parse_binary parse_i64
parse_binary-Conforms valid u FieldKind.int4 l xs v h = ground arith
parse_binary-Conforms valid u _ l xs v h = ground arith

parse_binary_value-Conforms :
    (valid : Utf8) (u : Bool) (kind : FieldKind) (xs : Bytes) (v : PgValue) (len : ℕ)
    → parse_binary_value valid kind xs ≡ ok (v, len)
    → Conforms u kind v
unfolding parse_binary_value
parse_binary_value-Conforms valid u kind xs v len h =
    ground (arith, parse_binary-Conforms valid u kind (from_be_bytes (take 4 (drop 1 xs))) xs v)

Conforms-Settled : (kind : FieldKind) (v : PgValue) → Conforms false kind v → Settled v
Conforms-Settled kind PgValue.toasted h = cc
Conforms-Settled kind _ h = refl

module _ {F : Type 0} ⦃access : FieldAccess F⦄ where
  parse_value-Conforms :
      (valid : Utf8) (xs : Bytes) (field : F) (is_update : Bool) (v : PgValue) (len : ℕ)
      → parse_value valid xs field is_update ≡ ok (v, len)
      → Conforms is_update (access.get_kind field) v
  unfolding parse_value
  parse_value-Conforms valid [] field is_update v len h = cc
  parse_value-Conforms valid (b ∷ bs) field is_update v len h = ground (
    arith,
    parse_text_value-Conforms valid is_update (access.get_kind field) (b ∷ bs) v len,
    parse_binary_value-Conforms valid is_update (access.get_kind field) (b ∷ bs) v len,
  )

  pub parse_value-Settled :
      (valid : Utf8) (xs : Bytes) (field : F) (v : PgValue) (len : ℕ)
      → parse_value valid xs field false ≡ ok (v, len)
      → Settled v
  parse_value-Settled valid xs field v len h =
      Conforms-Settled (access.get_kind field) v (parse_value-Conforms valid xs field false v len h)

  -- The values that the loop adds, for its fields in order.
  parse_each-RowConforms :
      (valid : Utf8) (xs : Bytes) (is_update : Bool) (fields : List F) (pos : ℕ)
      (cols row : List PgValue) (end : ℕ)
      → parse_each valid xs is_update fields pos cols ≡ ok (row, end)
      → (added : List PgValue) × (row ≡ cols ++ added) × RowConforms is_update fields added
  unfolding parse_each
  parse_each-RowConforms valid xs is_update [] pos cols row end h =
      ([], ground (arith, append-nil cols), tt)
  parse_each-RowConforms valid xs is_update (f ∷ fs) pos cols row end h =
      elim (Bool-cases (leb pos (length xs))) [
        | inr out ↦ absurd (ground (arith, out))
        | inl in_range ↦ elim (Outcome-Cases (parse_value valid (drop pos xs) f is_update)) [
          | is_ok (v, n) e ↦
              (let (added, eq, good) =
                  parse_each-RowConforms valid xs is_update fs (pos + n) (cols ++ v ∷ []) row end
                    (rw (in_range, e) at h) in
                (
                  v ∷ added,
                  eq ∙ append_assoc cols (v ∷ []) added,
                  (parse_value-Conforms valid (drop pos xs) f is_update v n e, good),
                ))
          | is_err x e ↦ absurd (ground (arith, in_range, e))
          | is_panic e ↦ absurd (ground (arith, in_range, e))
        ]
      ]

-- A row that `parse` returns has, for each of the first fields in order, a value that is an integer,
-- a Boolean or a timestamp only where the field is of just that kind; a text and NULL may stand for a
-- field of any kind, and a toasted value only stands in a row that is read as that of an update.
pub parse-RowConforms :
    (valid : Utf8) (xs : Bytes) (fields : List Field) (is_update : Bool) (row : List PgValue)
    (end : ℕ)
    → length fields < 2 ^ 16
    → parse valid xs fields is_update ≡ ok (row, end)
    → RowConforms is_update (take (col_count xs) fields) row
parse-RowConforms valid xs fields is_update row end few h =
    let (added, eq, good) =
      parse_each-RowConforms valid xs is_update (take (col_count xs) fields) 2 [] row end looped in
    rw eq good
  where
    looped : parse_each valid xs is_update (take (col_count xs) fields) 2 [] ≡ ok (row, end)
    looped = ground (
      arith,
      parse-short valid xs fields is_update few,
      parse-too_many valid xs fields is_update few,
      parse-uniform valid xs fields is_update few,
    )

RowConforms-Settled :
    (fields : List Field) (row : List PgValue) → RowConforms false fields row → All Settled row
RowConforms-Settled [] [] h = tt
RowConforms-Settled [] (v ∷ vs) h = absurd h
RowConforms-Settled (f ∷ fs) [] h = absurd h
RowConforms-Settled (f ∷ fs) (PgValue.toasted ∷ vs) h = cc
RowConforms-Settled (f ∷ fs) (v ∷ vs) h = (refl, RowConforms-Settled fs vs h.1)

-- A row that is not read as the new row of an update has no toasted value.
pub parse-Settled :
    (valid : Utf8) (xs : Bytes) (fields : List Field) (row : List PgValue) (end : ℕ)
    → length fields < 2 ^ 16
    → parse valid xs fields false ≡ ok (row, end)
    → All Settled row
parse-Settled valid xs fields row end few h =
    RowConforms-Settled (take (col_count xs) fields) row
      (parse-RowConforms valid xs fields false row end few h)
