-- ===== src/Decoder/Fixtures.antt =====
-- The examples that the tests of cdc-wal-reader/src/decoder share (common.rs, insert.rs, delete.rs,
-- relation.rs).
use cdc_connector.Prelude.{true, false, [], ◌∷◌, codes, pos}
use cdc_connector.Avro.Kind.{FieldKind, ReplicaKind}
use cdc_connector.Avro.Value.{PgValue}
use cdc_connector.Avro.Relation.{Field, Relation}
use cdc_connector.Decoder.RelationData.{RelationData, KeyField}
use cdc_connector.Decoder.Messages.{RelationMap}

abbrev pub field_id : Field
field_id = record { is_key = true; kind = FieldKind.int4; name = codes "id" }

abbrev pub key_field_id : KeyField
key_field_id = record { kind = FieldKind.int4; name = codes "id" }

abbrev pub get_example_rel : Relation
get_example_rel = record {
  relation_oid = 1;
  name = codes "users";
  namespace = codes "public";
  replica_id = ReplicaKind.row;
  fields =
      record { name = codes "id"; is_key = true; kind = FieldKind.int4 }
      ∷ record { name = codes "name"; is_key = false; kind = FieldKind.text }
      ∷ [];
}

abbrev pub get_example_rel_data : RelationData
get_example_rel_data = record {
  inner = get_example_rel;
  key_fields = record { name = codes "id"; kind = FieldKind.int4 } ∷ [];
  key_indexes = 0 ∷ [];
}

abbrev pub get_example_rel_map : RelationMap
get_example_rel_map = (1, get_example_rel_data) ∷ []

abbrev pub get_example_rel_keys : Relation
get_example_rel_keys = record {
  relation_oid = 1;
  name = codes "users";
  namespace = codes "public";
  replica_id = ReplicaKind.keys;
  fields =
      record { name = codes "id"; is_key = true; kind = FieldKind.int4 }
      ∷ record { name = codes "name"; is_key = false; kind = FieldKind.text }
      ∷ [];
}

abbrev pub get_example_rel_data_keys : RelationData
get_example_rel_data_keys = record {
  inner = get_example_rel_keys;
  key_fields = record { name = codes "id"; kind = FieldKind.int4 } ∷ [];
  key_indexes = 0 ∷ [];
}

abbrev pub get_example_rel_map_keys : RelationMap
get_example_rel_map_keys = (1, get_example_rel_data_keys) ∷ []

abbrev pub col_byte_id : PgValue
col_byte_id = PgValue.int4 (pos 1)

abbrev pub col_text_name : PgValue
col_text_name = PgValue.text (codes "hello")

abbrev pub complex_relation : RelationData
complex_relation = record {
  inner = record {
    relation_oid = 16390;
    name = codes "users";
    namespace = codes "public";
    replica_id = ReplicaKind.row;
    fields =
        record { is_key = true; name = codes "id"; kind = FieldKind.int4 }
        ∷ record { is_key = false; name = codes "name"; kind = FieldKind.text }
        ∷ record { is_key = false; name = codes "email"; kind = FieldKind.text }
        ∷ [];
  };
  key_indexes = 0 ∷ [];
  key_fields = record { name = codes "id"; kind = FieldKind.int4 } ∷ [];
}

abbrev pub complex_relation_map : RelationMap
complex_relation_map = (16390, complex_relation) ∷ []

abbrev pub get_tests_rel : Relation
get_tests_rel = record {
  relation_oid = 16386;
  name = codes "users";
  namespace = codes "public";
  replica_id = ReplicaKind.keys;
  fields =
      record { name = codes "id"; is_key = true; kind = FieldKind.int4 }
      ∷ record { name = codes "name"; is_key = false; kind = FieldKind.text }
      ∷ record { name = codes "email"; is_key = false; kind = FieldKind.text }
      ∷ [];
}

abbrev pub get_tests_rel_data : RelationData
get_tests_rel_data = record {
  inner = get_tests_rel;
  key_fields = record { name = codes "id"; kind = FieldKind.int4 } ∷ [];
  key_indexes = 0 ∷ [];
}

abbrev pub get_tests_rel_map : RelationMap
get_tests_rel_map = (16386, get_tests_rel_data) ∷ []
