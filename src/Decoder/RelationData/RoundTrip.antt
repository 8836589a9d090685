-- ===== src/Decoder/RelationData/RoundTrip.antt =====
-- `RelationData::parse` reads back the relation message that is sent.
use cdc_connector.Prelude.{
  ℕ, zero, suc, ◌+◌, ◌^◌, ◌≤◌, ◌<◌, ◌≡◌, refl, ap, arith, List, [], ◌∷◌, ◌++◌, Bytes, Text, length,
  drop, All, ok, drop-drop, le→leb, le→ltb, length-drop, get_elem?, some,
}
use cdc_connector.Bytes.{IsByte, to_be_bytes, read_be}
use cdc_connector.Avro.Kind.{ReplicaKind}
use cdc_connector.Avro.Relation.{Field}
use cdc_connector.Decoder.Errors.{DecoderError, Utf8}
use cdc_connector.Decoder.RelationData.{
  parse, parse_fields, extract_string, relation_data, replica_kind,
}
use cdc_connector.Decoder.RelationData.Encode.{
  Column, encode_name, encode_columns, encode_relation, encode_header, replica_byte, NameSendable,
  ColumnSendable, stored_fields,
}
use cdc_connector.Decoder.RelationData.Strings.{
  encode_name-IsByte, to_be-IsByte, extract_string-encode, read_32, read_16,
}
use cdc_connector.Decoder.RelationData.Columns.{encode_columns-IsByte, parse_fields-encode}
use cdc_connector.Decoder.RelationData.Parts.{length-encode_name, drop-encode_name}

pub replica_kind-byte : (k : ReplicaKind) → replica_kind (replica_byte k) ≡ ok k
unfolding replica_kind replica_byte
replica_kind-byte ReplicaKind.keys = refl
replica_kind-byte ReplicaKind.row = refl

pub replica_byte-IsByte : (k : ReplicaKind) → IsByte (replica_byte k)
unfolding replica_byte
replica_byte-IsByte ReplicaKind.keys = omega arith
replica_byte-IsByte ReplicaKind.row = omega arith

-- The place behind a name.
pub drop-name :
    (xs : Bytes) (pos next : ℕ) (name : Text) (rest : Bytes)
    → drop pos xs ≡ encode_name name rest
    → pos ≤ length xs
    → next ≡ pos + length name + 1
    → (drop next xs ≡ rest) × (next ≤ length xs)
drop-name xs pos next name rest e p h =
    let there : next ≡ pos + (length name + 1) = omega arith in
    (
      rw (there, ← drop-drop (length name + 1) pos xs, e)
          (drop-encode_name (length name + 1) name rest refl),
      omega (arith, length-drop pos xs, ap length e, length-encode_name name rest),
    )

-- The byte at a place.
pub index-drop :
    (xs : Bytes) (pos b : ℕ) (rest : Bytes)
    → drop pos xs ≡ b ∷ rest
    → (get_elem? xs pos ≡ some b) × (drop (pos + 1) xs ≡ rest) × (pos + 1 ≤ length xs)
index-drop [] zero b rest e = cc
index-drop [] (suc pos) b rest e = cc
index-drop (x ∷ xs) zero b rest e = let one : zero + 1 ≡ 1 = refl in (cc, cc, omega arith)
index-drop (x ∷ xs) (suc pos) b rest e =
    let (here, next, room) = index-drop xs pos b rest e in
    let s : suc pos + 1 ≡ suc (pos + 1) = omega arith in (here, rw s next, omega arith)

-- The parts of a message that `parse` takes one after the other.
parse-parts :
    (valid : Utf8) (xs : Bytes) (oid b cols : ℕ) (namespace name : Text) (replica_id : ReplicaKind)
    (fields : List Field)
    → 10 ≤ length xs
    → read_be {E = DecoderError} xs 1 5 ≡ ok oid
    → extract_string valid (drop 5 xs) ≡ ok namespace
    → 5 + length namespace + 1 ≤ length xs
    → extract_string valid (drop (5 + length namespace + 1) xs) ≡ ok name
    → 5 + length namespace + 1 + length name + 3 ≤ length xs
    → get_elem? xs (5 + length namespace + 1 + length name + 1) ≡ some b
    → replica_kind b ≡ ok replica_id
    → read_be {E = DecoderError} xs
        (5 + length namespace + 1 + length name + 1 + 1)
        (5 + length namespace + 1 + length name + 1 + 3)
      ≡ ok cols
    → parse_fields valid cols xs (5 + length namespace + 1 + length name + 1 + 3) [] ≡ ok fields
    → parse valid xs
      ≡ ok (
          relation_data (record {
            relation_oid = oid;
            name = name;
            namespace = namespace;
            fields = fields;
            replica_id = replica_id;
          }))
unfolding parse
parse-parts valid xs oid b cols namespace name replica_id fields ten oid_e ns_e room name_e enough
      at kind_e cols_e fields_e =
    rw
      (
        le→ltb (length xs) 10 ten,
        oid_e,
        le→leb 5 (length xs) (omega arith),
        ns_e,
        le→leb (5 + length namespace + 1) (length xs) room,
        name_e,
        le→ltb (length xs) (5 + length namespace + 1 + length name + 3) enough,
        at,
        kind_e,
        cols_e,
        fields_e,
      )
      refl

module _ (valid : Utf8) (oid : ℕ) (namespace name : Text) (replica_id : ReplicaKind)
    (columns : List Column) (rest : Bytes) (oid_fits : oid < 2 ^ 32) (few : length columns < 2 ^ 16)
    (names : NameSendable valid namespace × NameSendable valid name)
    (sendable : All (ColumnSendable valid) columns) (bytes : All IsByte rest) where
  abbrev count : Bytes
  count = to_be_bytes 2 (length columns) ++ encode_columns columns rest

  abbrev behind : Bytes
  behind = encode_name name (replica_byte replica_id ∷ count)

  abbrev whole : Bytes
  whole = b'R' ∷ (to_be_bytes 4 oid ++ encode_name namespace behind)

  count_bytes : All IsByte (replica_byte replica_id ∷ count)
  count_bytes = (
    replica_byte-IsByte replica_id,
    to_be-IsByte 2 (length columns) (encode_columns columns rest)
        (encode_columns-IsByte valid columns rest sendable bytes),
  )

  behind_bytes : All IsByte behind
  behind_bytes = encode_name-IsByte valid name (replica_byte replica_id ∷ count) names.1 count_bytes

  -- A relation message is read as the relation that was sent, with the columns that are stored and
  -- the keys among them, whatever bytes follow it.
  pub parse-encode_relation :
      parse valid (encode_relation oid namespace name replica_id columns rest)
      ≡ ok (
          relation_data (record {
            relation_oid = oid;
            name = name;
            namespace = namespace;
            fields = stored_fields columns;
            replica_id = replica_id;
          }))
  unfolding encode_relation encode_header
  parse-encode_relation =
      let relname_pos = 5 + length namespace + 1 in
      let replica_pos = relname_pos + length name + 1 in
      let after_namespace =
        drop-name whole 5 relname_pos namespace behind refl (omega arith) refl in
      let after_name =
        drop-name whole relname_pos replica_pos name (replica_byte replica_id ∷ count)
          after_namespace.0 after_namespace.1 refl in
      let (replica, at_count, room) =
        index-drop whole replica_pos (replica_byte replica_id) count after_name.0 in
      let cols =
        read_16 whole (replica_pos + 1) (length columns) (encode_columns columns rest) at_count room
          few in
      let oid_read =
        read_32 whole 1 oid (encode_name namespace behind) refl (omega arith) oid_fits in
      let end : replica_pos + 1 + 2 ≡ replica_pos + 3 = omega arith in
      let at_columns : drop (replica_pos + 3) whole ≡ encode_columns columns rest =
        rw (← end, ← drop-drop 2 (replica_pos + 1) whole, at_count) refl in
      let size : replica_pos + 3 ≤ length whole =
        omega (arith, ap length at_count, length-drop (replica_pos + 1) whole) in
      let fields =
        parse_fields-encode valid whole columns (replica_pos + 3) [] rest at_columns size sendable
          bytes in
      parse-parts valid whole oid (replica_byte replica_id) (length columns) namespace name
        replica_id (stored_fields columns)
        (omega (arith, length-drop (replica_pos + 1) whole, ap length at_count)) oid_read
        (extract_string-encode valid namespace behind names.0 behind_bytes) after_namespace.1
        (rw after_namespace.0
          (extract_string-encode valid name (replica_byte replica_id ∷ count) names.1 count_bytes))
        (omega arith) replica (replica_kind-byte replica_id) (rw end at cols) fields
