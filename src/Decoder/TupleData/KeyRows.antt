-- ===== src/Decoder/TupleData/KeyRows.antt =====
-- The rows that `parse_keys` returns.
use cdc_connector.Prelude.{
  ℕ, zero, suc, ◌-◌, ◌+◌, ◌≡◌, false, List, [], ◌∷◌, ◌++◌, ok, Bytes, length, drop, take, All,
  All-append, arith, leb, Outcome-Cases, is_ok, is_err, is_panic, drop-cases, inl, inr, Bool-cases,
  ◌==◌, ltb,
}
use cdc_connector.Bytes.{from_be_bytes}
use cdc_connector.Avro.Value.{PgValue}
use cdc_connector.Avro.Merge.{Settled}
use cdc_connector.Decoder.Errors.{Utf8}
use cdc_connector.Decoder.RelationData.{KeyField, key_field_access}
use cdc_connector.Decoder.TupleData.{parse_value, parse_indexed, parse_key_cols, parse_keys}
use cdc_connector.Decoder.TupleData.Kinds.{parse_value-Settled}

parse_indexed-Settled :
    (valid : Utf8) (xs : Bytes) (fields : List KeyField) (rounds i pos : ℕ)
    (cols row : List PgValue) (end : ℕ)
    → parse_indexed valid xs false fields rounds i pos cols ≡ ok (row, end)
    → All Settled cols
    → All Settled row
unfolding parse_indexed
parse_indexed-Settled valid xs fields zero i pos cols row end h s =
    let same : row ≡ cols = cc in rw same s
parse_indexed-Settled valid xs fields (suc rounds) i pos cols row end h s =
    elim (drop-cases fields i) [
      | inl (g, _, _) ↦ absurd (ground (arith, g))
      | inr (f, g, _) ↦ elim (Bool-cases (leb pos (length xs))) [
        | inr out ↦ absurd (ground (arith, out))
        | inl in_range ↦ elim (Outcome-Cases (parse_value valid (drop pos xs) f false)) [
          | is_ok (v, n) e ↦
              parse_indexed-Settled valid xs fields rounds (suc i) (pos + n) (cols ++ v ∷ []) row
                end (rw (in_range, g, e) at h)
                (All-append Settled cols (v ∷ []) s
                  (parse_value-Settled valid (drop pos xs) f v n e, tt))
          | is_err x e ↦ absurd (ground (arith, in_range, g, e))
          | is_panic e ↦ absurd (ground (arith, in_range, g, e))
        ]
      ]
    ]

parse_key_cols-Settled :
    (valid : Utf8) (xs : Bytes) (fields : List KeyField) (indexes : List ℕ)
    (total rounds i key_idx pos : ℕ) (cols row : List PgValue) (end : ℕ)
    → parse_key_cols valid xs fields indexes total rounds i key_idx pos cols ≡ ok (row, end)
    → All Settled cols
    → All Settled row
unfolding parse_key_cols
parse_key_cols-Settled valid xs fields indexes total zero i key_idx pos cols row end h s =
    let same : row ≡ cols = cc in rw same s
parse_key_cols-Settled valid xs fields indexes total (suc rounds) i key_idx pos cols row end h s =
    elim (drop-cases indexes key_idx) [
      | inl (g, _, _) ↦ absurd (ground (arith, g))
      | inr (k, g, _) ↦ elim (Bool-cases (i == k)) [
        | inr other ↦
            parse_key_cols-Settled valid xs fields indexes total rounds (suc i) key_idx (pos + 1)
              cols row end (rw (g, other) at h) s
        | inl key ↦ elim (drop-cases fields key_idx) [
          | inl (g', _, _) ↦ absurd (ground (arith, g, key, g'))
          | inr (f, g', _) ↦ elim (Bool-cases (leb pos (length xs))) [
            | inr out ↦ absurd (ground (arith, g, key, out))
            | inl in_range ↦ elim (Outcome-Cases (parse_value valid (drop pos xs) f false)) [
              | is_ok (v, n) e ↦ elim (Bool-cases (ltb i (length indexes - 1))) [
                | inl more ↦
                    parse_key_cols-Settled valid xs fields indexes total rounds (suc i)
                      (suc key_idx) (pos + n) (cols ++ v ∷ []) row end
                      (rw (g, key, in_range, g', e, more) at h)
                      (All-append Settled cols (v ∷ []) s
                        (parse_value-Settled valid (drop pos xs) f v n e, tt))
                | inr last ↦
                    (let same : row ≡ cols ++ v ∷ [] =
                        cc (rw (g, key, in_range, g', e, last) at h) in
                      rw same (
                        All-append Settled cols (v ∷ []) s
                          (parse_value-Settled valid (drop pos xs) f v n e, tt)))
              ]
              | is_err x e ↦ absurd (ground (arith, g, key, in_range, g', e))
              | is_panic e ↦ absurd (ground (arith, g, key, in_range, g', e))
            ]
          ]
        ]
      ]
    ]

pub parse_keys-Settled :
    (valid : Utf8) (xs : Bytes) (fields : List KeyField) (indexes : List ℕ) (total : ℕ)
    (row : List PgValue) (end : ℕ)
    → parse_keys valid xs fields indexes total ≡ ok (row, end)
    → All Settled row
unfolding parse_keys
parse_keys-Settled valid xs fields indexes total row end h = ground (
  arith,
  parse_indexed-Settled valid xs fields (from_be_bytes (take 2 xs)) 0 2 [] row end,
  parse_key_cols-Settled valid xs fields indexes total (from_be_bytes (take 2 xs)) 0 0 2 [] row end,
)
