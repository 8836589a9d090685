-- ===== src/Postgres/Refresh.antt =====
-- That the four maps of `RelationCache` follow one map of relations.
use cdc_connector.Prelude.{ℕ, ◌≡◌, refl, ◌==◌, nat_eq, Bool-cases, inl, inr}
use cdc_connector.HashMap.{HashMap, lookup, insert, map_option, lookup-map_values, lookup-insert}
use cdc_connector.Avro.Relation.{Relation}
use cdc_connector.Sink.{table_names_of}
use cdc_connector.Postgres.Relations.{
  RelationCache, extract_key_identity, extract_fields_names, extract_keys_rel, from_rels, update,
}

-- What the cache says of a relation is what the map of relations says.
pub record Follows (cache : RelationCache) (rels : HashMap ℕ Relation) : Type 0 where
  pub identities :
      (oid : ℕ) → lookup oid cache.identities ≡ map_option extract_key_identity (lookup oid rels)
  pub table_names :
      (oid : ℕ) → lookup oid cache.table_names ≡ map_option (λ r. r.name) (lookup oid rels)
  pub fields :
      (oid : ℕ) → lookup oid cache.fields ≡ map_option extract_fields_names (lookup oid rels)
  pub keys : (oid : ℕ) → lookup oid cache.keys ≡ map_option extract_keys_rel (lookup oid rels)

-- The cache made of a map of relations follows that map.
pub from_rels-Follows : (rels : HashMap ℕ Relation) → Follows (from_rels rels) rels
unfolding from_rels table_names_of
from_rels-Follows rels = record {
  identities = λ oid. lookup-map_values extract_key_identity oid rels;
  table_names = λ oid. lookup-map_values (λ (r : Relation). r.name) oid rels;
  fields = λ oid. lookup-map_values extract_fields_names oid rels;
  keys = λ oid. lookup-map_values extract_keys_rel oid rels;
}

lookup-insert_mapped :
    {V : Type 0} (f : Relation → V) (m : HashMap ℕ V) (rels : HashMap ℕ Relation) (k : ℕ)
    (r : Relation) (oid : ℕ)
    → lookup oid m ≡ map_option f (lookup oid rels)
    → lookup oid (insert k (f r) m) ≡ map_option f (lookup oid (insert k r rels))
lookup-insert_mapped f m rels k r oid h = elim (Bool-cases (k == oid)) [
  | inl same ↦ rw (lookup-insert k oid (f r) m, lookup-insert k oid r rels) (rw same refl)
  | inr other ↦ rw (lookup-insert k oid (f r) m, lookup-insert k oid r rels) (rw other h)
]

-- Behind an update by a relation, the cache follows the map with that relation put in.
pub update-Follows :
    (cache : RelationCache) (rels : HashMap ℕ Relation) (r : Relation)
    → Follows cache rels
    → Follows (update cache r) (insert r.relation_oid r rels)
unfolding update
update-Follows cache rels r h = record {
  identities = λ oid.
      lookup-insert_mapped extract_key_identity cache.identities rels r.relation_oid r oid
        (h.identities oid);
  table_names = λ oid.
      lookup-insert_mapped (λ (r : Relation). r.name) cache.table_names rels r.relation_oid r oid
        (h.table_names oid);
  fields = λ oid.
      lookup-insert_mapped extract_fields_names cache.fields rels r.relation_oid r oid
        (h.fields oid);
  keys = λ oid.
      lookup-insert_mapped extract_keys_rel cache.keys rels r.relation_oid r oid (h.keys oid);
}
