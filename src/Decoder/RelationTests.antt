-- ===== src/Decoder/RelationTests.antt =====
-- The tests of cdc-wal-reader/src/decoder/relation.rs, run on the model: each holds there as the
-- repository states it.
use cdc_connector.Prelude.{◌≡◌, refl, true, [], ◌∷◌, ◌++◌, ok, err, some, Bytes, codes, replicate}
use cdc_connector.Avro.Kind.{ReplicaKind}
use cdc_connector.Decoder.Errors.{DecoderError, Utf8, truncated_input, invalid_oid}
use cdc_connector.Decoder.NullWord.{find_null_word}
use cdc_connector.Decoder.RelationData.{
  RelationData, physical, parse, extract_string, parse_fields, parse_field, parse_physical,
  replica_kind, relation_data,
}
use cdc_connector.Decoder.Fixtures.{field_id, key_field_id}

abbrev valid : Utf8
valid _ = true

abbrev simple_relation_data : Bytes
simple_relation_data =
    b'R'
    ∷ 0
    ∷ 0
    ∷ 0
    ∷ 1
    ∷ (codes "public"
        ++ (0
            ∷ (codes "users"
                ++ (0
                    ∷ b'd'
                    ∷ 0
                    ∷ 1
                    ∷ 1
                    ∷ (codes "id" ++ (0 ∷ 0 ∷ 0 ∷ 0 ∷ 23 ∷ 0 ∷ 0 ∷ 0 ∷ 0 ∷ []))))))

abbrev relation_manual : RelationData
relation_manual = record {
  key_fields = key_field_id ∷ [];
  key_indexes = 0 ∷ [];
  inner = record {
    relation_oid = 1;
    namespace = codes "public";
    name = codes "users";
    replica_id = ReplicaKind.keys;
    fields = field_id ∷ [];
  };
}

simple_relation : parse valid simple_relation_data ≡ ok relation_manual
unfolding parse extract_string parse_fields parse_field parse_physical replica_kind relation_data
    find_null_word
simple_relation = refl

abbrev simple_field_data : Bytes
simple_field_data = 1 ∷ (codes "id" ++ (0 ∷ 0 ∷ 0 ∷ 0 ∷ 23 ∷ 0 ∷ 0 ∷ 0 ∷ 0 ∷ []))

simple_field : parse_field valid simple_field_data ≡ ok (physical field_id 12)
unfolding parse_field parse_physical extract_string find_null_word
simple_field = refl

abbrev no_relation_data : Bytes
no_relation_data = b'R' ∷ []

abbrev no_namespace_data : Bytes
no_namespace_data = b'R' ∷ 0 ∷ 0 ∷ 0 ∷ 0 ∷ []

abbrev no_relname_data : Bytes
no_relname_data = b'R' ∷ 0 ∷ 0 ∷ 0 ∷ 1 ∷ (codes "public" ++ (0 ∷ []))

abbrev namespace_unfinished_data : Bytes
namespace_unfinished_data = b'R' ∷ 0 ∷ 0 ∷ 0 ∷ 1 ∷ codes "public"

abbrev relname_unfinished_data : Bytes
relname_unfinished_data = b'R' ∷ 0 ∷ 0 ∷ 0 ∷ 1 ∷ (codes "public" ++ (0 ∷ codes "users"))

abbrev no_cols_data : Bytes
no_cols_data = b'R' ∷ 0 ∷ 0 ∷ 0 ∷ 1 ∷ (codes "public" ++ (0 ∷ (codes "users" ++ (0 ∷ 0 ∷ []))))

abbrev wrong_cols_data : Bytes
wrong_cols_data =
    b'R' ∷ 0 ∷ 0 ∷ 0 ∷ 1 ∷ (codes "public" ++ (0 ∷ (codes "users" ++ (0 ∷ b'd' ∷ 0 ∷ 1 ∷ []))))

abbrev no_colname_data : Bytes
no_colname_data =
    b'R' ∷ 0 ∷ 0 ∷ 0 ∷ 1 ∷ (codes "public" ++ (0 ∷ (codes "users" ++ (0 ∷ b'd' ∷ 0 ∷ 1 ∷ 1 ∷ []))))

abbrev colname_unfinished_data : Bytes
colname_unfinished_data =
    b'R'
    ∷ 0
    ∷ 0
    ∷ 0
    ∷ 1
    ∷ (codes "public" ++ (0 ∷ (codes "users" ++ (0 ∷ b'd' ∷ 0 ∷ 1 ∷ 1 ∷ codes "id"))))

abbrev no_type_oid_data : Bytes
no_type_oid_data =
    b'R'
    ∷ 0
    ∷ 0
    ∷ 0
    ∷ 1
    ∷ (codes "public" ++ (0 ∷ (codes "users" ++ (0 ∷ b'd' ∷ 0 ∷ 1 ∷ 1 ∷ (codes "id" ++ (0 ∷ []))))))

abbrev no_attrmod_data : Bytes
no_attrmod_data =
    b'R'
    ∷ 0
    ∷ 0
    ∷ 0
    ∷ 1
    ∷ (codes "public"
        ++ (0
            ∷ (codes "users"
                ++ (0 ∷ b'd' ∷ 0 ∷ 1 ∷ 1 ∷ (codes "id" ++ (0 ∷ 0 ∷ 0 ∷ 0 ∷ 23 ∷ []))))))

truncated :
    (parse valid no_relation_data ≡ err truncated_input)
    × (parse valid no_namespace_data ≡ err truncated_input)
    × (parse valid no_relname_data ≡ err truncated_input)
    × (parse valid namespace_unfinished_data ≡ err truncated_input)
    × (parse valid relname_unfinished_data ≡ err truncated_input)
    × (parse valid no_cols_data ≡ err truncated_input)
    × (parse valid wrong_cols_data ≡ err truncated_input)
    × (parse valid no_colname_data ≡ err truncated_input)
    × (parse valid colname_unfinished_data ≡ err truncated_input)
    × (parse valid no_type_oid_data ≡ err truncated_input)
    × (parse valid no_attrmod_data ≡ err truncated_input)
unfolding parse extract_string parse_fields parse_field replica_kind find_null_word
truncated = (refl, refl, refl, refl, refl, refl, refl, refl, refl, refl, refl)

abbrev wrong_type_oid_data : Bytes
wrong_type_oid_data =
    b'R'
    ∷ 0
    ∷ 0
    ∷ 0
    ∷ 1
    ∷ (codes "public"
        ++ (0
            ∷ (codes "users"
                ++ (0
                    ∷ b'd'
                    ∷ 0
                    ∷ 1
                    ∷ 1
                    ∷ (codes "id" ++ (0 ∷ 0 ∷ 0 ∷ 0 ∷ 0 ∷ 0 ∷ 0 ∷ 0 ∷ 0 ∷ []))))))

wrong_type_oid : parse valid wrong_type_oid_data ≡ err (invalid_oid 0)
unfolding parse extract_string parse_fields parse_field parse_physical replica_kind find_null_word
wrong_type_oid = refl

null_far : find_null_word {E = DecoderError} (replicate 30 7 ++ 0 ∷ 1 ∷ 0 ∷ []) ≡ ok (some 30)
unfolding find_null_word
null_far = refl
