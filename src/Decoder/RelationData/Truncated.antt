-- ===== src/Decoder/RelationData/Truncated.antt =====
-- Relation messages of cdc-wal-reader/src/decoder/relation.rs that end too early.
use cdc_connector.Prelude.{
  ℕ, suc, ◌+◌, ◌^◌, ◌≤◌, ◌<◌, ◌≡◌, refl, ap, ◌∙◌, arith, Bool, true, false, [], ◌∷◌, ◌++◌, Bytes,
  Text, length, drop, All, ok, err, panic, le→leb, le→ltb, leb, ltb, length-drop, get_elem?, some,
  if◌then◌else◌, inl, inr, Bool-cases,
}
use cdc_connector.Bytes.{IsByte, to_be_bytes, read_be}
use cdc_connector.Avro.Kind.{ReplicaKind}
use cdc_connector.Decoder.Errors.{DecoderError, Utf8, truncated_input}
use cdc_connector.Decoder.RelationData.{
  parse, parse_field, parse_physical, extract_string, replica_kind,
}
use cdc_connector.Decoder.RelationData.Encode.{
  encode_header, encode_name, replica_byte, NameSendable,
}
use cdc_connector.Decoder.RelationData.Strings.{encode_name-IsByte, extract_string-encode, read_32}
use cdc_connector.Decoder.RelationData.Parts.{length-encode_name}
use cdc_connector.Decoder.RelationData.RoundTrip.{
  index-drop, drop-name, replica_kind-byte, replica_byte-IsByte,
}

leb-gt : (a b : ℕ) → b < a → leb a b ≡ false
leb-gt a b h = ground arith

ltb_same : (m n k : ℕ) → m + 1 ≡ n + k → ltb m n ≡ ltb k 1
ltb_same m n k h = ground arith

-- A number that is cut off.
read_be-cut : (xs : Bytes) (a b : ℕ) → length xs < b → read_be {E = DecoderError} xs a b ≡ panic
read_be-cut xs a b h = elim (Bool-cases (leb a b)) [
  | inl e ↦ rw (e, leb-gt b (length xs) h) refl
  | inr e ↦ rw e refl
]

parse_physical-cut :
    (is_key : Bool) (name : Text) (xs : Bytes)
    → length xs < 10 + length name
    → parse_physical is_key name xs ≡ panic
unfolding parse_physical
parse_physical-cut is_key name xs h =
    let second = leb-gt (1 + length name + 1 + 8) (length xs) (omega arith) in
    elim (Bool-cases (leb (1 + length name + 1 + 4) (length xs))) [
      | inl e ↦
          rw
            (
              le→leb (1 + length name + 1) (1 + length name + 1 + 4) (omega arith),
              e,
              le→leb (1 + length name + 1 + 4) (1 + length name + 1 + 8) (omega arith),
              second,
            )
            refl
      | inr e ↦ rw (le→leb (1 + length name + 1) (1 + length name + 1 + 4) (omega arith), e) refl
    ]

-- A stored column (flag 0 or 1) whose type is cut off: `parse_field` panics, unless fewer than 10
-- bytes are left in all, which is the error `TruncatedInput`.
pub parse_field-cut :
    (valid : Utf8) (flag : ℕ) (name : Text) (part : Bytes)
    → flag < 2
    → NameSendable valid name
    → All IsByte part
    → length part < 8
    → parse_field valid (flag ∷ encode_name name part)
      ≡ (if ltb (2 + length name + length part) 10 then err truncated_input else panic)
unfolding parse_field
parse_field-cut valid flag name part stored h g short =
    let xs = flag ∷ encode_name name part in
    let size : suc (length (encode_name name part)) ≡ 2 + length name + length part =
      omega (arith, length-encode_name name part) in
    rw (← size, le→leb 1 (length xs) (omega arith), extract_string-encode valid name part h g)
      (ground (
        arith,
        parse_physical-cut false name xs (omega arith),
        parse_physical-cut true name xs (omega arith),
      ))

-- What `parse` finds where a message ends behind its replica identity, with or without one byte.
parse-ends :
    (valid : Utf8) (xs : Bytes) (oid b : ℕ) (namespace name : Text) (replica_id : ReplicaKind)
    → 10 ≤ length xs
    → read_be {E = DecoderError} xs 1 5 ≡ ok oid
    → extract_string valid (drop 5 xs) ≡ ok namespace
    → 5 + length namespace + 1 ≤ length xs
    → extract_string valid (drop (5 + length namespace + 1) xs) ≡ ok name
    → get_elem? xs (5 + length namespace + 1 + length name + 1) ≡ some b
    → replica_kind b ≡ ok replica_id
    → length xs < 5 + length namespace + 1 + length name + 1 + 3
    → parse valid xs ≡ (
        if ltb (length xs) (5 + length namespace + 1 + length name + 3)
        then err truncated_input
        else panic)
unfolding parse
parse-ends valid xs oid b namespace name replica_id ten oid_e ns_e room name_e at kind_e short =
    rw
      (
        le→ltb (length xs) 10 ten,
        oid_e,
        le→leb 5 (length xs) (omega arith),
        ns_e,
        le→leb (5 + length namespace + 1) (length xs) room,
        name_e,
      )
      (elim (Bool-cases (ltb (length xs) (5 + length namespace + 1 + length name + 3))) [
        | inl e ↦ rw e refl
        | inr e ↦
            rw
              (
                e,
                at,
                kind_e,
                read_be-cut xs (5 + length namespace + 1 + length name + 1 + 1)
                    (5 + length namespace + 1 + length name + 1 + 3) short,
              )
              refl
      ])

module _ (valid : Utf8) (oid : ℕ) (namespace name : Text) (replica_id : ReplicaKind) (part : Bytes)
    (oid_fits : oid < 2 ^ 32) (ns : NameSendable valid namespace) (n : NameSendable valid name)
    (long : 2 ≤ length namespace + length name) (bytes : All IsByte part)
    (short : length part < 2) where
  abbrev cut : Bytes
  cut = replica_byte replica_id ∷ part

  abbrev whole : Bytes
  whole = b'R' ∷ (to_be_bytes 4 oid ++ encode_name namespace (encode_name name cut))

  cut-ends :
      parse valid (encode_header oid namespace name replica_id part)
      ≡ (if ltb (length part) 1 then err truncated_input else panic)
  unfolding encode_header
  cut-ends =
      let relname_pos = 5 + length namespace + 1 in
      let replica_pos = relname_pos + length name + 1 in
      let cut_bytes : All IsByte cut = (replica_byte-IsByte replica_id, bytes) in
      let after_namespace =
        drop-name whole 5 relname_pos namespace (encode_name name cut) refl (omega arith) refl in
      let after_name =
        drop-name whole relname_pos replica_pos name cut after_namespace.0 after_namespace.1 refl in
      let (replica, at_end, room) =
        index-drop whole replica_pos (replica_byte replica_id) part after_name.0 in
      let size : length whole ≡ replica_pos + 1 + length part =
        omega (arith, length-drop (replica_pos + 1) whole, ap length at_end) in
      parse-ends valid whole oid (replica_byte replica_id) namespace name replica_id (omega arith)
        (read_32 whole 1 oid (encode_name namespace (encode_name name cut)) refl (omega arith)
          oid_fits)
        (extract_string-encode valid namespace (encode_name name cut) ns
          (encode_name-IsByte valid name cut n cut_bytes))
        after_namespace.1 (rw after_namespace.0 (extract_string-encode valid name cut n cut_bytes))
        replica (replica_kind-byte replica_id) (omega arith)
      ∙ ap (λ (b : Bool). if b then err truncated_input else panic)
          (ltb_same (length whole) (relname_pos + length name + 3) (length part) (omega arith))

-- A message that ends in the number of its columns: with neither byte of the number it is the error
-- `TruncatedInput`, with the first byte only `parse` panics.
pub parse-cut :
    (valid : Utf8) (oid hi : ℕ) (namespace name : Text) (replica_id : ReplicaKind)
    → oid < 2 ^ 32
    → NameSendable valid namespace
    → NameSendable valid name
    → 2 ≤ length namespace + length name
    → IsByte hi
    → (parse valid (encode_header oid namespace name replica_id []) ≡ err truncated_input)
      × (parse valid (encode_header oid namespace name replica_id (hi ∷ [])) ≡ panic)
parse-cut valid oid hi namespace name replica_id h ns n long hi_byte = (
  cut-ends valid oid namespace name replica_id [] h ns n long tt (omega arith),
  cut-ends valid oid namespace name replica_id (hi ∷ []) h ns n long (hi_byte, tt) (omega arith),
)
