-- ===== src/Postgres/Keys.antt =====
-- The key columns of postgres-connector/src/main.rs against those of the decoder of relation
-- messages (cdc-wal-reader/src/decoder/relation.rs).
use cdc_connector.Prelude.{ℕ, suc, ◌≡◌, refl, arith, ◌||◌, List, [], ◌∷◌, map, Bool-cases, inl, inr}
use cdc_connector.Avro.Relation.{Field, Relation}
use cdc_connector.Decoder.RelationData.{keys_of, key_indexes_from, relation_data}
use cdc_connector.Postgres.Relations.{extract_keys_pos, extract_keys_rel, names_of_keys}
use cdc_connector.Postgres.Sink.{has_index}

names_of_keys-keys_of : (fs : List Field) → names_of_keys fs ≡ map (λ k. k.name) (keys_of fs)
unfolding keys_of
names_of_keys-keys_of [] = refl
names_of_keys-keys_of (f ∷ fs) = elim (Bool-cases f.is_key) [
  | inl key ↦ ground (arith, key, names_of_keys-keys_of fs)
  | inr other ↦ ground (arith, other, names_of_keys-keys_of fs)
]

extract_keys_pos-key_indexes :
    (s : List ℕ) (i : ℕ) (fs : List Field) (j : ℕ)
    → has_index (extract_keys_pos s i fs) j ≡ (has_index s j || has_index (key_indexes_from i fs) j)
unfolding extract_keys_pos key_indexes_from
extract_keys_pos-key_indexes s i [] j = ground arith
extract_keys_pos-key_indexes s i (f ∷ fs) j = elim (Bool-cases f.is_key) [
  | inl key ↦ ground (arith, key, extract_keys_pos-key_indexes (i ∷ s) (suc i) fs j)
  | inr other ↦ ground (arith, other, extract_keys_pos-key_indexes s (suc i) fs j)
]

-- For every relation, the keys that the sink names in its statements are those that the decoder
-- reads from a key tuple, in their order, and a place is one of a key for the sink exactly where it
-- is one for the decoder.
pub extract_keys-relation_data :
    (relation : Relation) (i : ℕ)
    → (extract_keys_rel relation ≡ map (λ k. k.name) (relation_data relation).key_fields)
      × (has_index (extract_keys_pos [] 0 relation.fields) i
          ≡ has_index (relation_data relation).key_indexes i)
unfolding extract_keys_rel relation_data
extract_keys-relation_data relation i =
    (names_of_keys-keys_of relation.fields, extract_keys_pos-key_indexes [] 0 relation.fields i)
