-- ===== src/Postgres/Replica/Caches.antt =====
-- The statement caches of postgres-connector/src/statements.rs: what they hold was prepared from the
-- texts for the relations that are known.
use cdc_connector.Prelude.{
  ℕ, ◌≡◌, refl, sym, ap, ◌∙◌, arith, Text, some, Outcome, ok, inl, inr, ◌⊎◌, ◌==◌, nat_eq,
  Bool-cases, option_cases,
}
use cdc_connector.HashMap.{HashMap, lookup, insert, lookup-insert}
use cdc_connector.Avro.Relation.{Relation}
use cdc_connector.Sink.{SinkError}
use cdc_connector.Postgres.Statements.{upsert_str, delete_str}
use cdc_connector.Postgres.Relations.{extract_fields_names, extract_keys_rel}
use cdc_connector.Postgres.Refresh.{Follows}
use cdc_connector.Postgres.Database.{Database}
use cdc_connector.Postgres.Sink.{
  Client, PostgresSink, prepared_delete, get_delete, prepared_upsert, get_upsert,
}

abbrev pub upsert_of : Relation → Text
upsert_of r = upsert_str r.name (extract_fields_names r) (extract_keys_rel r)

abbrev pub delete_of : Relation → Text
delete_of r = delete_str r.name (extract_keys_rel r)

module _ (K : Client) (D : Database K) (rels : HashMap ℕ Relation) where
  -- Each statement of a cache was prepared from the text that `text` makes of its relation.
  abbrev pub FromTexts : (Relation → Text) → HashMap ℕ K.Statement → Type 0
  FromTexts text cache =
      (oid : ℕ) (r : Relation) (stmt : K.Statement)
      → lookup oid rels ≡ some r
      → lookup oid cache ≡ some stmt
      → D.query stmt ≡ text r

  pub record Current (s : PostgresSink K) : Type 0 where
    pub follows : Follows s.relations rels
    pub upserts : FromTexts upsert_of s.upserts
    pub deletes : FromTexts delete_of s.deletes

  insert-FromTexts :
      (text : Relation → Text) (cache : HashMap ℕ K.Statement) (oid : ℕ) (r : Relation)
      (stmt : K.Statement)
      → FromTexts text cache
      → lookup oid rels ≡ some r
      → D.query stmt ≡ text r
      → FromTexts text (insert oid stmt cache)
  insert-FromTexts text cache oid r stmt h known q other r' stmt' known' found =
      elim (Bool-cases (oid == other)) [
        | inl same ↦
            let e : oid ≡ other = ground arith in
            let inserted : some stmt ≡ some stmt' =
              rw (lookup-insert oid other stmt cache, same) at found in
            let known_too : lookup other rels ≡ some r = rw e at known in
            let relation : some r ≡ some r' = sym known_too ∙ known' in
            let s_eq : stmt ≡ stmt' = cc in
            let r_eq : r ≡ r' = cc in ap D.query (sym s_eq) ∙ q ∙ ap text r_eq
        | inr differ ↦
            h other r' stmt' known' (rw (lookup-insert oid other stmt cache, differ) at found)
      ]

  -- What a cache gives: a sink that is current over the same rows, and a statement of the text.
  pub record Ready (before : K.State) (text : Text)
      (result : PostgresSink K × Outcome SinkError K.Statement) : Type 0 where
    pub current : Current result.0
    pub same : D.rows result.0.client ≡ D.rows before
    pub query : (stmt : K.Statement) → result.1 ≡ ok stmt → D.query stmt ≡ text

  prepared_upsert-Ready :
      (s : PostgresSink K) (oid : ℕ) (r : Relation) (p : K.State × (Text ⊎ K.Statement))
      → Current s
      → lookup oid rels ≡ some r
      → D.rows p.0 ≡ D.rows s.client
      → ((stmt : K.Statement) → p.1 ≡ inr stmt → D.query stmt ≡ upsert_of r)
      → Ready s.client (upsert_of r) (prepared_upsert K s oid p)
  unfolding prepared_upsert
  prepared_upsert-Ready s oid r (client, inl e) h known same q = record {
    current = record { follows = h.follows; upserts = h.upserts; deletes = h.deletes };
    same = same;
    query = λ stmt eq. cc;
  }
  prepared_upsert-Ready s oid r (client, inr stmt) h known same q = record {
    current = record {
      follows = h.follows;
      upserts = insert-FromTexts upsert_of s.upserts oid r stmt h.upserts known (q stmt refl);
      deletes = h.deletes;
    };
    same = same;
    query = λ stmt' eq. (let e : stmt ≡ stmt' = cc in q stmt' (ap inr e));
  }

  prepared_delete-Ready :
      (s : PostgresSink K) (oid : ℕ) (r : Relation) (p : K.State × (Text ⊎ K.Statement))
      → Current s
      → lookup oid rels ≡ some r
      → D.rows p.0 ≡ D.rows s.client
      → ((stmt : K.Statement) → p.1 ≡ inr stmt → D.query stmt ≡ delete_of r)
      → Ready s.client (delete_of r) (prepared_delete K s oid p)
  unfolding prepared_delete
  prepared_delete-Ready s oid r (client, inl e) h known same q = record {
    current = record { follows = h.follows; upserts = h.upserts; deletes = h.deletes };
    same = same;
    query = λ stmt eq. cc;
  }
  prepared_delete-Ready s oid r (client, inr stmt) h known same q = record {
    current = record {
      follows = h.follows;
      upserts = h.upserts;
      deletes = insert-FromTexts delete_of s.deletes oid r stmt h.deletes known (q stmt refl);
    };
    same = same;
    query = λ stmt' eq. (let e : stmt ≡ stmt' = cc in q stmt' (ap inr e));
  }

  cached-Ready :
      (s : PostgresSink K) (text : Text) (stmt : K.Statement)
      → Current s
      → D.query stmt ≡ text
      → Ready s.client text (s, ok stmt)
  cached-Ready s text stmt h q = record {
    current = h;
    same = refl;
    query = λ stmt' eq. (let e : stmt ≡ stmt' = cc in ap D.query (sym e) ∙ q);
  }

  module _ (s : PostgresSink K) (oid : ℕ) (r : Relation) (h : Current s)
      (known : lookup oid rels ≡ some r) where
    names : lookup oid s.relations.table_names ≡ some r.name
    names = rw known at (h.follows.table_names oid)

    columns : lookup oid s.relations.fields ≡ some (extract_fields_names r)
    columns = rw known at (h.follows.fields oid)

    keys : lookup oid s.relations.keys ≡ some (extract_keys_rel r)
    keys = rw known at (h.follows.keys oid)

    pub get_upsert-Ready : Ready s.client (upsert_of r) (get_upsert K s oid)
    unfolding get_upsert
    get_upsert-Ready = elim (option_cases (lookup oid s.upserts)) [
      | inr (stmt, e) ↦
          let found : get_upsert K s oid ≡ (s, ok stmt) = ground (arith, e) in
          rw found (cached-Ready s (upsert_of r) stmt h (h.upserts oid r stmt known e))
      | inl e ↦
          let made : get_upsert K s oid
              ≡ prepared_upsert K s oid (K.prepare s.client (upsert_of r)) =
            ground (arith, e, names, columns, keys) in
          rw made (
            prepared_upsert-Ready s oid r (K.prepare s.client (upsert_of r)) h known
              (D.prepare_rows s.client (upsert_of r)) (D.prepare_query s.client (upsert_of r)))
    ]

    pub get_delete-Ready : Ready s.client (delete_of r) (get_delete K s oid)
    unfolding get_delete
    get_delete-Ready = elim (option_cases (lookup oid s.deletes)) [
      | inr (stmt, e) ↦
          let found : get_delete K s oid ≡ (s, ok stmt) = ground (arith, e) in
          rw found (cached-Ready s (delete_of r) stmt h (h.deletes oid r stmt known e))
      | inl e ↦
          let made : get_delete K s oid
              ≡ prepared_delete K s oid (K.prepare s.client (delete_of r)) =
            ground (arith, e, keys, names) in
          rw made (
            prepared_delete-Ready s oid r (K.prepare s.client (delete_of r)) h known
              (D.prepare_rows s.client (delete_of r)) (D.prepare_query s.client (delete_of r)))
    ]
