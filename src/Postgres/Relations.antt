-- ===== src/Postgres/Relations.antt =====
-- `RelationCache` of postgres-connector/src/main.rs: what the sink keeps of the relations.
use cdc_connector.Prelude.{ℕ, suc, List, [], ◌∷◌, Text, if◌then◌else◌, map, nat_eq}
use cdc_connector.HashMap.{HashMap, insert, map_values}
use cdc_connector.Avro.Kind.{ReplicaKind}
use cdc_connector.Avro.Relation.{Field, Relation}
use cdc_connector.Sink.{TableNames, table_names_of}

-- A `HashSet<usize>` is the list of its elements: only `contains` is asked of it.
pub data RelationIdentity : Type 0 where
  full : RelationIdentity
  keys : List ℕ → RelationIdentity

-- The fold of `extract_keys_pos`, from the set `s` and the index `i` on.
unfoldable pub extract_keys_pos : List ℕ → ℕ → List Field → List ℕ
extract_keys_pos s i [] = s
extract_keys_pos s i (f ∷ fs) = extract_keys_pos (if f.is_key then i ∷ s else s) (suc i) fs

abbrev identity_of : ReplicaKind → List Field → RelationIdentity
identity_of ReplicaKind.keys fields = RelationIdentity.keys (extract_keys_pos [] 0 fields)
identity_of ReplicaKind.row fields = full

unfoldable pub extract_key_identity : Relation → RelationIdentity
extract_key_identity rel = identity_of rel.replica_id rel.fields

unfoldable pub extract_fields_names : Relation → List Text
extract_fields_names rel = map (λ f. f.name) rel.fields

abbrev pub names_of_keys : List Field → List Text
names_of_keys [] = []
names_of_keys (f ∷ fs) = let rest = names_of_keys fs in if f.is_key then f.name ∷ rest else rest

unfoldable pub extract_keys_rel : Relation → List Text
extract_keys_rel rel = names_of_keys rel.fields

pub record RelationCache : Type 0 where
  pub identities : HashMap ℕ RelationIdentity
  pub table_names : TableNames
  pub fields : HashMap ℕ (List Text)
  pub keys : HashMap ℕ (List Text)

unfoldable pub from_rels : HashMap ℕ Relation → RelationCache
from_rels rels = record {
  identities = map_values extract_key_identity rels;
  table_names = table_names_of rels;
  fields = map_values extract_fields_names rels;
  keys = map_values extract_keys_rel rels;
}

unfoldable pub update : RelationCache → Relation → RelationCache
update cache relation = record {
  identities = insert relation.relation_oid (extract_key_identity relation) cache.identities;
  table_names = insert relation.relation_oid relation.name cache.table_names;
  fields = insert relation.relation_oid (extract_fields_names relation) cache.fields;
  keys = insert relation.relation_oid (extract_keys_rel relation) cache.keys;
}
