-- ===== src/Postgres/Tests.antt =====
-- The repository's own tests of the statements, and the theorems about the PostgreSQL sink at
-- concrete inputs.
use cdc_connector.Prelude.{◌≡◌, refl, true, false, [], ◌∷◌, ◌++◌, Text, codes, arith, map, nat_eq}
use cdc_connector.Avro.Kind.{FieldKind, ReplicaKind}
use cdc_connector.Avro.Relation.{Relation}
use cdc_connector.Postgres.Statements.{
  decimal, placeholders, conditions, separated, updates, upsert_str, delete_str,
}
use cdc_connector.Postgres.Upsert.{without, with_commas, upsert_sql, upsert_str-trailing_comma}
use cdc_connector.Postgres.Relations.{extract_keys_pos, extract_keys_rel}
use cdc_connector.Postgres.Sink.{has_index}
use cdc_connector.Decoder.RelationData.{relation_data}
use cdc_connector.Postgres.Keys.{extract_keys-relation_data}

abbrev id : Text
id = codes "id"

abbrev name : Text
name = codes "name"

abbrev users : Text
users = codes "users"

simple_upsert_str :
    upsert_str users (id ∷ name ∷ codes "email" ∷ []) (id ∷ [])
    ≡ codes
        "INSERT INTO users (id,name,email) VALUES ($1,$2,$3) ON CONFLICT (id) DO UPDATE SET name = EXCLUDED.name,email = EXCLUDED.email"
unfolding upsert_str separated placeholders updates decimal
simple_upsert_str = refl

upsert_no_values :
    upsert_str users (id ∷ []) (id ∷ [])
    ≡ codes "INSERT INTO users (id) VALUES ($1) ON CONFLICT (id) DO NOTHING"
unfolding upsert_str separated placeholders updates decimal
upsert_no_values = refl

simple_delete_str : delete_str users (id ∷ []) ≡ codes "DELETE FROM users WHERE id = $1"
unfolding delete_str separated conditions decimal
simple_delete_str = refl

multiple_delete_str :
    delete_str users (id ∷ name ∷ []) ≡ codes "DELETE FROM users WHERE id = $1 AND name = $2"
unfolding delete_str separated conditions decimal
multiple_delete_str = refl

upsert_key_last :
    upsert_str users (name ∷ id ∷ []) (id ∷ [])
    ≡ codes
        "INSERT INTO users (name,id) VALUES ($1,$2) ON CONFLICT (id) DO UPDATE SET name = EXCLUDED.name,"
unfolding upsert_str separated placeholders updates decimal
upsert_key_last = refl

upsert_str-trailing_comma_example :
    upsert_str users (name ∷ id ∷ []) (id ∷ [])
    ≡ upsert_sql users
        (name ∷ id ∷ [])
        (id ∷ [])
        (codes ") DO UPDATE SET " ++ with_commas (without (id ∷ []) (name ∷ [])))
upsert_str-trailing_comma_example =
    upsert_str-trailing_comma users (name ∷ []) id (id ∷ []) (λ e. omega (arith, e)) refl

abbrev users_relation : Relation
users_relation = record {
  relation_oid = 1;
  name = users;
  namespace = codes "public";
  fields =
      record { is_key = false; name = name; kind = FieldKind.text }
      ∷ record { is_key = true; name = id; kind = FieldKind.int4 }
      ∷ [];
  replica_id = ReplicaKind.keys;
}

extract_keys-relation_data_example :
    (extract_keys_rel users_relation ≡ map (λ k. k.name) (relation_data users_relation).key_fields)
    × (has_index (extract_keys_pos [] 0 users_relation.fields) 1
        ≡ has_index (relation_data users_relation).key_indexes 1)
extract_keys-relation_data_example = extract_keys-relation_data users_relation 1
