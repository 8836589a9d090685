-- ===== src/Decoder/RelationData/Identity.antt =====
-- The replica identities that cdc-wal-reader/src/decoder/relation.rs takes.
use cdc_connector.Prelude.{
  ℕ, ◌+◌, ◌^◌, ◌≤◌, ◌<◌, ◌≡◌, ◌≢◌, refl, ap, arith, ◌∷◌, ◌++◌, Bytes, Text, length, drop, All, ok,
  err, le→leb, le→ltb, length-drop, get_elem?, some,
}
use cdc_connector.Bytes.{IsByte, to_be_bytes, read_be}
use cdc_connector.Decoder.Errors.{DecoderError, Utf8, wrong_replica_id}
use cdc_connector.Decoder.RelationData.{parse, extract_string, replica_kind}
use cdc_connector.Decoder.RelationData.Encode.{encode_name, NameSendable}
use cdc_connector.Decoder.RelationData.Strings.{encode_name-IsByte, extract_string-encode, read_32}
use cdc_connector.Decoder.RelationData.RoundTrip.{drop-name, index-drop}

-- A relation message with any byte as its replica identity.
abbrev pub identity_message : ℕ → Text → Text → ℕ → Bytes → Bytes
identity_message oid namespace name b rest =
    b'R' ∷ (to_be_bytes 4 oid ++ encode_name namespace (encode_name name (b ∷ rest)))

replica_kind-other : (b : ℕ) → b ≢ b'd' → b ≢ b'f' → replica_kind b ≡ err (wrong_replica_id b)
unfolding replica_kind
replica_kind-other b d f = ground (arith, d, f)

parse-refuses :
    (valid : Utf8) (xs : Bytes) (oid b : ℕ) (namespace name : Text)
    → 10 ≤ length xs
    → read_be {E = DecoderError} xs 1 5 ≡ ok oid
    → extract_string valid (drop 5 xs) ≡ ok namespace
    → 5 + length namespace + 1 ≤ length xs
    → extract_string valid (drop (5 + length namespace + 1) xs) ≡ ok name
    → 5 + length namespace + 1 + length name + 3 ≤ length xs
    → get_elem? xs (5 + length namespace + 1 + length name + 1) ≡ some b
    → replica_kind b ≡ err (wrong_replica_id b)
    → parse valid xs ≡ err (wrong_replica_id b)
unfolding parse
parse-refuses valid xs oid b namespace name ten oid_e ns_e room name_e enough at kind_e =
    rw
      (
        le→ltb (length xs) 10 ten,
        oid_e,
        le→leb 5 (length xs) (omega arith),
        ns_e,
        le→leb (5 + length namespace + 1) (length xs) room,
        name_e,
        le→ltb (length xs) (5 + length namespace + 1 + length name + 3) enough,
        at,
        kind_e,
      )
      refl

-- A relation message whose replica identity is neither 'd' nor 'f', as 'n' for none and 'i' for an
-- index, is refused with that byte.
pub parse-wrong_replica :
    (valid : Utf8) (oid b : ℕ) (namespace name : Text) (rest : Bytes)
    → oid < 2 ^ 32
    → NameSendable valid namespace
    → NameSendable valid name
    → IsByte b
    → All IsByte rest
    → 2 ≤ length rest
    → b ≢ b'd'
    → b ≢ b'f'
    → parse valid (identity_message oid namespace name b rest) ≡ err (wrong_replica_id b)
parse-wrong_replica valid oid b namespace name rest oid_fits ns n byte bytes long d f =
    let whole = identity_message oid namespace name b rest in
    let cut : Bytes = b ∷ rest in
    let cut_bytes : All IsByte cut = (byte, bytes) in
    let relname_pos = 5 + length namespace + 1 in
    let replica_pos = relname_pos + length name + 1 in
    let after_namespace =
      drop-name whole 5 relname_pos namespace (encode_name name cut) refl (omega arith) refl in
    let after_name =
      drop-name whole relname_pos replica_pos name cut after_namespace.0 after_namespace.1 refl in
    let (replica, at_end, room) = index-drop whole replica_pos b rest after_name.0 in
    let size : length whole ≡ replica_pos + 1 + length rest =
      omega (arith, length-drop (replica_pos + 1) whole, ap length at_end) in
    parse-refuses valid whole oid b namespace name (omega arith)
      (read_32 whole 1 oid (encode_name namespace (encode_name name cut)) refl (omega arith)
        oid_fits)
      (extract_string-encode valid namespace (encode_name name cut) ns
        (encode_name-IsByte valid name cut n cut_bytes))
      after_namespace.1 (rw after_namespace.0 (extract_string-encode valid name cut n cut_bytes))
      (omega arith) replica (replica_kind-other b d f)
