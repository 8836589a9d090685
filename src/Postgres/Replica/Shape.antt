-- ===== src/Postgres/Replica/Shape.antt =====
-- The statements and the parameters of the sink of postgres-connector/src for a relation whose keys
-- stand in front.
use cdc_connector.Prelude.{
  ℕ, suc, ◌≡◌, ◌≢◌, refl, sym, ap, subst, ◌∙◌, arith, true, false, List, [], ◌∷◌, ◌++◌, Text,
  length, map, All, map-append, append_assoc, length-append, length-map, Bool-cases, inl, inr,
}
use cdc_connector.Avro.Value.{PgValue}
use cdc_connector.Avro.Relation.{Field, Relation}
use cdc_connector.Postgres.Statements.{contains, upsert_str, delete_str}
use cdc_connector.Postgres.Upsert.{upsert_str-update, delete_str-sql}
use cdc_connector.Postgres.Relations.{
  names_of_keys, extract_keys_pos, extract_key_identity, extract_fields_names, extract_keys_rel,
}
use cdc_connector.Postgres.Rows.{key_values}
use cdc_connector.Postgres.Sink.{has_index, pick, delete_values}
use cdc_connector.Postgres.Database.{named_values, upsert_query, delete_query, IsName}
use cdc_connector.Postgres.Replica.{KeysFirst}

All-last {ℓ κ} :
    {A : Type ℓ} (P : A → Type κ) (front : List A) (a : A) → All P (front ++ a ∷ []) → P a
All-last P [] a h = h.0
All-last P (x ∷ front) a h = All-last P front a h.1

named_values-key_values :
    (keys : List Text) (fs : List Field) (vs : List PgValue)
    → All (λ f. contains keys f.name ≡ f.is_key) fs
    → named_values keys (map (λ f. f.name) fs) vs ≡ key_values fs vs
named_values-key_values keys [] vs h = refl
named_values-key_values keys (f ∷ fs) [] h = refl
named_values-key_values keys (f ∷ fs) (v ∷ vs) h =
    rw (h.0, named_values-key_values keys fs vs h.1) refl

names_of_keys-none : (fs : List Field) → All (λ f. f.is_key ≡ false) fs → names_of_keys fs ≡ []
names_of_keys-none [] h = refl
names_of_keys-none (f ∷ fs) h = rw h.0 (names_of_keys-none fs h.1)

names_of_keys-front :
    (ks others : List Field)
    → All (λ f. f.is_key ≡ true) ks
    → All (λ f. f.is_key ≡ false) others
    → names_of_keys (ks ++ others) ≡ map (λ f. f.name) ks
names_of_keys-front [] others h g = names_of_keys-none others g
names_of_keys-front (f ∷ ks) others h g =
    rw h.0 (ap (λ (ns : List Text). f.name ∷ ns) (names_of_keys-front ks others h.1 g))

All-names_of_keys :
    (P : Text → Type 0) (fs : List Field) → All (λ f. P f.name) fs → All P (names_of_keys fs)
All-names_of_keys P [] h = tt
All-names_of_keys P (f ∷ fs) h = elim (Bool-cases f.is_key) [
  | inl key ↦ rw key (h.0, All-names_of_keys P fs h.1)
  | inr other ↦ rw other (All-names_of_keys P fs h.1)
]

All-map {ℓ κ} :
    {A B : Type ℓ} (P : B → Type κ) (f : A → B) (xs : List A)
    → All (λ x. P (f x)) xs
    → All P (map f xs)
All-map P f [] h = tt
All-map P f (x ∷ xs) h = (h.0, All-map P f xs h.1)

has_index-later :
    (s : List ℕ) (i j : ℕ) (fs : List Field)
    → has_index s j ≡ true
    → has_index (extract_keys_pos s i fs) j ≡ true
unfolding extract_keys_pos
has_index-later s i j [] h = h
has_index-later s i j (f ∷ fs) h = has_index-later _ (suc i) j fs (ground (arith, h))

pick-front :
    (s : List ℕ) (i : ℕ) (ks others : List Field) (key : List PgValue)
    → All (λ f. f.is_key ≡ true) ks
    → length key ≡ length ks
    → pick (extract_keys_pos s i (ks ++ others)) i key ≡ key
unfolding pick extract_keys_pos
pick-front s i [] others [] h e = refl
pick-front s i [] others (v ∷ key) h e = absurd (omega arith)
pick-front s i (f ∷ ks) others [] h e = absurd (omega arith)
pick-front s i (f ∷ ks) others (v ∷ key) h e = ground (
  arith,
  h.0,
  has_index-later (i ∷ s) (suc i) i (ks ++ others) (ground arith),
  pick-front (i ∷ s) (suc i) ks others key h.1 (omega (arith, e)),
)

module _ (r : Relation) (first : KeysFirst r) where
  extract_keys-front : extract_keys_rel r ≡ map (λ f. f.name) first.key_fields
  unfolding extract_keys_rel
  extract_keys-front =
      ap names_of_keys first.fields
      ∙ names_of_keys-front first.key_fields (first.value_fields ++ first.last ∷ [])
          first.keys_are_keys first.others_are_none

  length-extract_keys : length (extract_keys_rel r) ≡ length first.key_fields
  length-extract_keys = ap length extract_keys-front ∙ length-map (λ f. f.name) first.key_fields

  before_last : List Field
  before_last = first.key_fields ++ first.value_fields

  fields-last : r.fields ≡ before_last ++ first.last ∷ []
  unfolding before_last
  fields-last =
      first.fields ∙ sym (append_assoc first.key_fields first.value_fields (first.last ∷ []))

  last-column : contains (extract_keys_rel r) first.last.name ≡ false
  unfolding extract_keys_rel
  last-column =
      All-last (λ (f : Field). contains (names_of_keys r.fields) f.name ≡ f.is_key) before_last
        first.last
        (subst (All (λ (f : Field). contains (names_of_keys r.fields) f.name ≡ f.is_key))
          fields-last first.named)
      ∙ All-last (λ (f : Field). f.is_key ≡ false) first.value_fields first.last
          first.others_are_none

  columns-last : extract_fields_names r ≡ map (λ f. f.name) before_last ++ first.last.name ∷ []
  unfolding extract_fields_names
  columns-last =
      ap (map (λ (f : Field). f.name)) fields-last
      ∙ map-append (λ (f : Field). f.name) before_last (first.last ∷ [])

  more-columns :
      suc (length (map (λ (f : Field). f.name) before_last)) ≢ length (extract_keys_rel r)
  unfolding before_last
  more-columns e = omega (
    arith,
    e,
    length-extract_keys,
    length-map (λ (f : Field). f.name) (first.key_fields ++ first.value_fields),
    length-append first.key_fields first.value_fields,
  )

  -- The text of an upsert is SQL, and that of a delete.
  pub upsert_str-query :
      upsert_str r.name (extract_fields_names r) (extract_keys_rel r)
      ≡ upsert_query r.name (extract_fields_names r) (extract_keys_rel r)
  upsert_str-query = rw columns-last (
      upsert_str-update r.name (map (λ (f : Field). f.name) before_last) first.last.name
        (extract_keys_rel r) more-columns last-column)

  pub column_names-IsName : All IsName (extract_fields_names r)
  unfolding extract_fields_names
  column_names-IsName = All-map IsName (λ (f : Field). f.name) r.fields first.column_names

  pub key_names-IsName : All IsName (extract_keys_rel r)
  unfolding extract_keys_rel
  key_names-IsName = All-names_of_keys IsName r.fields first.column_names

  pub delete_str-query :
      delete_str r.name (extract_keys_rel r) ≡ delete_query r.name (extract_keys_rel r)
  delete_str-query = delete_str-sql r.name (extract_keys_rel r)

  pub named_values-row :
      (vs : List PgValue)
      → named_values (extract_keys_rel r) (extract_fields_names r) vs ≡ key_values r.fields vs
  unfolding extract_keys_rel extract_fields_names
  named_values-row vs = named_values-key_values (names_of_keys r.fields) r.fields vs first.named

  pub delete_values-key :
      (key : List PgValue)
      → length key ≡ length (extract_keys_rel r)
      → delete_values (extract_key_identity r) key ≡ key
  unfolding delete_values extract_key_identity
  delete_values-key key h =
      rw (first.identity, first.fields)
        (pick-front [] 0 first.key_fields (first.value_fields ++ first.last ∷ []) key
          first.keys_are_keys (h ∙ length-extract_keys))
