-- ===== src/Decoder/Messages/Rows.antt =====
-- Toasted values of the events that the parsers return.
use cdc_connector.Prelude.{
  ℕ, ◌^◌, ◌<◌, ◌≡◌, true, false, List, [], ◌∷◌, ok, err, panic, some, Bytes, length, All, arith,
  nat_eq, ltb, Outcome-Cases, is_ok, is_err, is_panic, Bool-cases, inl, inr, ◌==◌, >>=-eq-ok,
  slice_from, fail_if, ◌+◌,
}
use cdc_connector.HashMap.{lookup}
use cdc_connector.Avro.Value.{PgValue}
use cdc_connector.Avro.Merge.{Settled}
use cdc_connector.Avro.Event.{Op, ChangeEvent}
use cdc_connector.Decoder.Errors.{Utf8, wrong_old_tuple_key, truncated_input, Decoded}
use cdc_connector.Decoder.RelationData.{RelationData}
use cdc_connector.Decoder.TupleData
use cdc_connector.Decoder.TupleData.Kinds.{parse-Settled}
use cdc_connector.Decoder.TupleData.KeyRows.{parse_keys-Settled}
use cdc_connector.Decoder.Messages.{
  RelationMap, get_old_tuple_data, get_new_tuple_data, find_relation, parse_insert, old_or_empty,
  parse_update, parse_delete,
}

-- Of an operation that the decoder returns, all rows but the new one of an update are settled.
abbrev pub OpSettled : Op → Type 0
OpSettled (Op.insert row) = All Settled row
OpSettled (Op.update old row) = All Settled old
OpSettled (Op.delete old) = All Settled old

-- The number of columns of a relation message is a u16.
abbrev pub FewFields : RelationMap → Type 0
FewFields relation_map =
    (oid : ℕ) (relation : RelationData)
    → lookup oid relation_map ≡ some relation
    → length relation.inner.fields < 2 ^ 16

get_old-Settled :
    (valid : Utf8) (xs : Bytes) (relation : RelationData) (row : List PgValue) (end : ℕ)
    → length relation.inner.fields < 2 ^ 16
    → get_old_tuple_data valid xs relation ≡ ok (row, end)
    → All Settled row
unfolding get_old_tuple_data
get_old-Settled valid [] relation row end few h = cc
get_old-Settled valid (b ∷ bs) relation row end few h = elim (Bool-cases (b == b'K')) [
  | inl key ↦
      elim (Outcome-Cases (
        TupleData.parse_keys valid bs relation.key_fields relation.key_indexes
          (length relation.inner.fields))) [
            | is_ok (r, n) e ↦
                (let same : row ≡ r = ground (arith, key, e) in
                  rw same (
                    parse_keys-Settled valid bs relation.key_fields relation.key_indexes
                      (length relation.inner.fields) r n e))
            | is_err x e ↦ absurd (ground (arith, key, e))
            | is_panic e ↦ absurd (ground (arith, key, e))
          ]
  | inr other ↦ elim (Outcome-Cases (TupleData.parse valid bs relation.inner.fields false)) [
    | is_ok (r, n) e ↦
        (let same : row ≡ r = ground (arith, other, e) in
          rw same (parse-Settled valid bs relation.inner.fields r n few e))
    | is_err x e ↦ absurd (ground (arith, other, e))
    | is_panic e ↦ absurd (ground (arith, other, e))
  ]
]

get_new-Settled :
    (valid : Utf8) (xs : Bytes) (relation : RelationData) (row : List PgValue)
    → length relation.inner.fields < 2 ^ 16
    → get_new_tuple_data valid xs relation.inner.fields false ≡ ok row
    → All Settled row
unfolding get_new_tuple_data
get_new-Settled valid [] relation row few h = cc
get_new-Settled valid (b ∷ bs) relation row few h =
    elim (Outcome-Cases (TupleData.parse valid bs relation.inner.fields false)) [
      | is_ok (r, n) e ↦
          (let same : row ≡ r = ground (arith, e) in
            rw same (parse-Settled valid bs relation.inner.fields r n few e))
      | is_err x e ↦ absurd (ground (arith, e))
      | is_panic e ↦ absurd (ground (arith, e))
    ]

find_relation-known :
    (xs : Bytes) (relation_map : RelationMap) (oid : ℕ) (relation : RelationData)
    → find_relation xs relation_map ≡ ok (oid, relation)
    → lookup oid relation_map ≡ some relation
unfolding find_relation
find_relation-known xs relation_map oid relation h = ground arith

old_or_empty-Settled :
    (r : Decoded (List PgValue × ℕ)) (row : List PgValue) (end : ℕ)
    → ((row' : List PgValue) (end' : ℕ) → r ≡ ok (row', end') → All Settled row')
    → old_or_empty r ≡ ok (row, end)
    → All Settled row
unfolding old_or_empty
old_or_empty-Settled (ok r) row end k h = k row end h
old_or_empty-Settled (err (wrong_old_tuple_key b)) row end k h = elim (Bool-cases (b == b'N')) [
  | inl none_sent ↦ (let same : row ≡ [] = ground (arith, none_sent) in rw same tt)
  | inr other ↦ absurd (ground (arith, other))
]
old_or_empty-Settled (err e) row end k h = cc
old_or_empty-Settled panic row end k h = cc

-- The operation of a returned event.
returned_op :
    (op : Op) (rel : ℕ) (r relation : RelationData) (event : ChangeEvent)
    → ◌≡◌ {A = Decoded (ChangeEvent × RelationData)}
        (ok (record { op = op; rel = rel }, r))
        (ok (event, relation))
    → op ≡ event.op
returned_op op rel r relation event h = cc

module _ (valid : Utf8) (xs : Bytes) (relation_map : RelationMap) (few : FewFields relation_map)
    (event : ChangeEvent) (relation : RelationData) where
  pub parse_delete-OpSettled :
      parse_delete valid xs relation_map ≡ ok (event, relation) → OpSettled event.op
  unfolding parse_delete
  parse_delete-OpSettled h =
      let ((oid, rel), found, h₁) = >>=-eq-ok (find_relation xs relation_map) _ h in
      let (tail, sliced, h₂) = >>=-eq-ok (slice_from xs 5) _ h₁ in
      let ((old, n), got, h₃) = >>=-eq-ok (get_old_tuple_data valid tail rel) _ h₂ in
      let same = returned_op (Op.delete old) oid rel relation event h₃ in
      rw (← same) (
        get_old-Settled valid tail rel old n
          (few oid rel (find_relation-known xs relation_map oid rel found)) got)

  pub parse_insert-OpSettled :
      parse_insert valid xs relation_map ≡ ok (event, relation) → OpSettled event.op
  unfolding parse_insert
  parse_insert-OpSettled h =
      let ((oid, rel), found, h₁) = >>=-eq-ok (find_relation xs relation_map) _ h in
      let (tail, sliced, h₂) = >>=-eq-ok (slice_from xs 5) _ h₁ in
      let (row, got, h₃) = >>=-eq-ok (get_new_tuple_data valid tail rel.inner.fields false) _ h₂ in
      let same = returned_op (Op.insert row) rel.inner.relation_oid rel relation event h₃ in
      rw (← same) (
        get_new-Settled valid tail rel row
          (few oid rel (find_relation-known xs relation_map oid rel found)) got)

  pub parse_update-OpSettled :
      parse_update valid xs relation_map ≡ ok (event, relation) → OpSettled event.op
  unfolding parse_update
  parse_update-OpSettled h =
      let ((oid, rel), found, h₁) = >>=-eq-ok (find_relation xs relation_map) _ h in
      let (tail, sliced, h₂) = >>=-eq-ok (slice_from xs 5) _ h₁ in
      let ((old, n), got, h₃) = >>=-eq-ok (old_or_empty (get_old_tuple_data valid tail rel)) _ h₂ in
      let (t, fits, h₄) = >>=-eq-ok (fail_if (ltb (length xs) (n + 5)) truncated_input) _ h₃ in
      let (rest, sliced', h₅) = >>=-eq-ok (slice_from xs (n + 5)) _ h₄ in
      let (row, got', h₆) = >>=-eq-ok (get_new_tuple_data valid rest rel.inner.fields true) _ h₅ in
      let same = returned_op (Op.update old row) oid rel relation event h₆ in
      rw (← same) (
        old_or_empty-Settled (get_old_tuple_data valid tail rel) old n
          (λ r m e.
            get_old-Settled valid tail rel r m
              (few oid rel (find_relation-known xs relation_map oid rel found)) e)
          got)
