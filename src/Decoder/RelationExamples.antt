-- ===== src/Decoder/RelationExamples.antt =====
-- The theorems about cdc-wal-reader/src/decoder/relation.rs at concrete messages.
use cdc_connector.Prelude.{
  ◌≡◌, refl, true, List, [], ◌∷◌, some, ok, err, panic, Bytes, Text, codes, arith, All,
}
use cdc_connector.Bytes.{IsByte}
use cdc_connector.Avro.Kind.{FieldKind, ReplicaKind}
use cdc_connector.Avro.Relation.{Field}
use cdc_connector.Decoder.Errors.{DecoderError, Utf8, truncated_input}
use cdc_connector.Decoder.NullWord.{find_null_word}
use cdc_connector.Decoder.NullWord.Reference.{first_null}
use cdc_connector.Decoder.NullWord.Portable.{find_null_word_portable, find_null_word-paths}
use cdc_connector.Decoder.RelationData.{
  parse, relation_data, parse_field, extract_string, replica_kind,
}
use cdc_connector.Decoder.RelationData.Encode.{
  Column, stored, generated, encode_name, encode_relation, encode_header, NameSendable,
  stored_fields,
}
use cdc_connector.Decoder.RelationData.RoundTrip.{parse-encode_relation}
use cdc_connector.Decoder.RelationData.Truncated.{parse_field-cut, parse-cut}
use cdc_connector.Decoder.DecodeTool.{decode_once}

abbrev valid : Utf8
valid _ = true

-- Twenty bytes, the eighteenth of them zero.
abbrev padded : Bytes
padded = 7 ∷ 7 ∷ 7 ∷ 7 ∷ 7 ∷ 7 ∷ 7 ∷ 7 ∷ 7 ∷ 7 ∷ 7 ∷ 7 ∷ 7 ∷ 7 ∷ 7 ∷ 7 ∷ 1 ∷ 0 ∷ 1 ∷ 0 ∷ []

abbrev seven_IsByte : IsByte 7
seven_IsByte = omega arith

padded_bytes : All IsByte padded
padded_bytes = (
  seven_IsByte,
  (
    seven_IsByte,
    (
      seven_IsByte,
      (
        seven_IsByte,
        (
          seven_IsByte,
          (
            seven_IsByte,
            (
              seven_IsByte,
              (
                seven_IsByte,
                (
                  seven_IsByte,
                  (
                    seven_IsByte,
                    (
                      seven_IsByte,
                      (
                        seven_IsByte,
                        (
                          seven_IsByte,
                          (
                            seven_IsByte,
                            (
                              seven_IsByte,
                              (
                                seven_IsByte,
                                (omega arith, (omega arith, (omega arith, (omega arith, tt)))),
                              ),
                            ),
                          ),
                        ),
                      ),
                    ),
                  ),
                ),
              ),
            ),
          ),
        ),
      ),
    ),
  ),
)

find_null_word-paths_example :
    (find_null_word {E = DecoderError} padded ≡ ok (some 17))
    × (find_null_word_portable {E = DecoderError} padded ≡ ok (some 17))
unfolding first_null
find_null_word-paths_example = find_null_word-paths padded padded_bytes

abbrev id : Text
id = codes "id"

id_sendable : NameSendable valid id
unfolding first_null
id_sendable = ((omega arith, (omega arith, tt)), refl, refl)

abbrev id_field : Field
id_field = record { is_key = true; name = id; kind = FieldKind.int4 }

abbrev columns : List Column
columns = stored id_field 0 ∷ generated true id 1700 0 ∷ []

parse-encode_relation_example :
    parse valid (encode_relation 1 id id ReplicaKind.keys columns [])
    ≡ ok (
        relation_data (record {
          relation_oid = 1;
          name = id;
          namespace = id;
          fields = id_field ∷ [];
          replica_id = ReplicaKind.keys;
        }))
unfolding stored_fields
parse-encode_relation_example =
    parse-encode_relation valid 1 id id ReplicaKind.keys columns [] (omega arith) (omega arith)
      (id_sendable, id_sendable) ((id_sendable, omega arith), (id_sendable, tt)) tt

abbrev long_name : Text
long_name = codes "idid"

long_name_sendable : NameSendable valid long_name
unfolding first_null
long_name_sendable = ((omega arith, (omega arith, (omega arith, (omega arith, tt)))), refl, refl)

parse_field-cut_example :
    parse_field valid (1 ∷ encode_name long_name (0 ∷ 0 ∷ 0 ∷ 23 ∷ 0 ∷ [])) ≡ panic
parse_field-cut_example =
    parse_field-cut valid 1 long_name (0 ∷ 0 ∷ 0 ∷ 23 ∷ 0 ∷ []) (omega arith) long_name_sendable
      (omega arith, (omega arith, (omega arith, (omega arith, (omega arith, tt))))) (omega arith)

parse-cut_example :
    (parse valid (encode_header 1 id id ReplicaKind.keys []) ≡ err truncated_input)
    × (parse valid (encode_header 1 id id ReplicaKind.keys (0 ∷ [])) ≡ panic)
parse-cut_example =
    parse-cut valid 1 0 id id ReplicaKind.keys (omega arith) id_sendable id_sendable (omega arith)
      (omega arith)

-- The message of the decode tool has the byte 2 as its replica identity.
decode_once_panics : decode_once valid ≡ panic
unfolding decode_once parse extract_string find_null_word replica_kind
decode_once_panics = refl
