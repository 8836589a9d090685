-- ===== src/Postgres/Sink.antt =====
-- `PostgresSink` of postgres-connector/src/main.rs with the caches of its statements
-- (postgres-connector/src/statements.rs).
use cdc_connector.Prelude.{
  ℕ, suc, Bool, false, List, [], ◌∷◌, Option, none, some, Bytes, Text, codes, Outcome, ok, err,
  panic, ◌>>=◌, ◌==◌, ◌||◌, ◌⊎◌, inl, inr, if◌then◌else◌, nat_eq, ℤ,
}
use cdc_connector.HashMap.{HashMap, lookup, insert}
use cdc_connector.Avro.Value.{PgValue}
use cdc_connector.Avro.Relation.{Relation}
use cdc_connector.Avro.Event.{Op, ChangeEvent, merge_toasted, ToastedOnKeyIdentity}
use cdc_connector.Wal.{Reply}
use cdc_connector.Sink.{SinkError, unknown_relation, platform, toasted_in_key_only, KafkaSink}
use cdc_connector.Postgres.Statements.{upsert_str, delete_str}
use cdc_connector.Postgres.Relations.{RelationIdentity, full, RelationCache, update}

-- The crate postgres_types: how the values of Rust's types are written, with the text of an error.
pub record ToSql : Type 0 where
  pub text : Text → Text ⊎ Bytes
  pub int4 : ℤ → Text ⊎ Bytes
  pub int8 : ℤ → Text ⊎ Bytes
  pub bool : Bool → Text ⊎ Bytes
  -- `(*PG_EPOCH + Duration::microseconds(*ts)).naive_utc()`, written; the addition of the crate
  -- chrono panics where the sum is out of its range.
  pub timestamp : ℤ → Outcome Text Bytes

abbrev is_not_null : Text ⊎ Bytes → Outcome Text (Option Bytes)
is_not_null (inl e) = err e
is_not_null (inr bytes) = ok (some bytes)

-- `to_sql` and `to_sql_checked` of `ToSqlWrapper`; no bytes are `IsNull::Yes`.
unfoldable pub to_sql : ToSql → PgValue → Outcome Text (Option Bytes)
to_sql enc (PgValue.text s) = is_not_null (enc.text s)
to_sql enc (PgValue.int4 n) = is_not_null (enc.int4 n)
to_sql enc (PgValue.int8 n) = is_not_null (enc.int8 n)
to_sql enc (PgValue.bool b) = is_not_null (enc.bool b)
to_sql enc (PgValue.timestamp ts) = do bytes ← enc.timestamp ts; ok (some bytes)
to_sql enc PgValue.null = ok none
to_sql enc PgValue.toasted = err (codes "Toasted value was not substituted")

-- The parameters of a statement, which the crate tokio_postgres writes in order by `to_sql_checked`.
unfoldable pub params : ToSql → List PgValue → Outcome Text (List (Option Bytes))
params enc [] = ok []
params enc (v ∷ vs) = do p ← to_sql enc v; ps ← params enc vs; ok (p ∷ ps)

-- `Client` and `Statement` of the crate tokio_postgres, with the text of an error. `execute` is what
-- it does behind the writing of the parameters.
pub record Client : Type 1 where
  pub State : Type 0
  pub Statement : Type 0
  pub encoder : ToSql
  pub prepare : State → Text → State × (Text ⊎ Statement)
  pub execute : State → Statement → List PgValue → State × Reply

-- `ids.contains(&i)`
abbrev pub has_index : List ℕ → ℕ → Bool
has_index [] i = false
has_index (j ∷ js) i = j == i || has_index js i

-- The `filter_map` over `old`, from index `i` on.
unfoldable pub pick : List ℕ → ℕ → List PgValue → List PgValue
pick ids i [] = []
pick ids i (v ∷ vs) = let rest = pick ids (suc i) vs in if has_index ids i then v ∷ rest else rest

-- The parameters of a delete.
unfoldable pub delete_values : RelationIdentity → List PgValue → List PgValue
delete_values full old = old
delete_values (RelationIdentity.keys ids) old = pick ids 0 old

module _ (K : Client) where
  -- The fields of `PostgresSink`, and those of the two statement caches.
  pub record PostgresSink : Type 0 where
    pub client : K.State
    pub upserts : HashMap ℕ K.Statement
    pub deletes : HashMap ℕ K.Statement
    pub relations : RelationCache

  unfoldable pub prepared_delete :
      PostgresSink
      → ℕ
      → K.State × (Text ⊎ K.Statement)
      → PostgresSink × Outcome SinkError K.Statement
  prepared_delete s rel (client, inl e) = (record s { client = client }, err (platform e))
  prepared_delete s rel (client, inr stmt) =
      (record s { client = client; deletes = insert rel stmt s.deletes }, ok stmt)

  -- `DeleteStatementCache::get`
  unfoldable pub get_delete : PostgresSink → ℕ → PostgresSink × Outcome SinkError K.Statement
  get_delete s rel = elim (lookup rel s.deletes) [
    | some stmt ↦ (s, ok stmt)
    | none ↦ elim (lookup rel s.relations.keys) [
      | none ↦ (s, err (unknown_relation rel))
      | some keys ↦ elim (lookup rel s.relations.table_names) [
        | none ↦ (s, err (unknown_relation rel))
        | some table ↦ prepared_delete s rel (K.prepare s.client (delete_str table keys))
      ]
    ]
  ]

  unfoldable pub prepared_upsert :
      PostgresSink
      → ℕ
      → K.State × (Text ⊎ K.Statement)
      → PostgresSink × Outcome SinkError K.Statement
  prepared_upsert s rel (client, inl e) = (record s { client = client }, err (platform e))
  prepared_upsert s rel (client, inr stmt) =
      (record s { client = client; upserts = insert rel stmt s.upserts }, ok stmt)

  -- `UpsertStatementCache::get`: `fields[&rel]` and `keys[&rel]` panic on a relation they lack.
  unfoldable pub get_upsert : PostgresSink → ℕ → PostgresSink × Outcome SinkError K.Statement
  get_upsert s rel = elim (lookup rel s.upserts) [
    | some stmt ↦ (s, ok stmt)
    | none ↦ elim (lookup rel s.relations.table_names) [
      | none ↦ (s, err (unknown_relation rel))
      | some table ↦ elim (lookup rel s.relations.fields) [
        | none ↦ (s, panic)
        | some rows ↦ elim (lookup rel s.relations.keys) [
          | none ↦ (s, panic)
          | some keys ↦ prepared_upsert s rel (K.prepare s.client (upsert_str table rows keys))
        ]
      ]
    ]
  ]

  unfoldable pub executed :
      PostgresSink → K.State × Reply → PostgresSink × Outcome SinkError (Unit {0})
  executed s (client, none) = (record s { client = client }, ok tt)
  executed s (client, some e) = (record s { client = client }, err (platform e))

  -- `execute` with the statement of a cache: nothing is sent unless every parameter is written.
  unfoldable pub execute :
      PostgresSink × Outcome SinkError K.Statement
      → List PgValue
      → PostgresSink × Outcome SinkError (Unit {0})
  execute (s, ok stmt) values = elim (params K.encoder values) [
    | ok written ↦ executed s (K.execute s.client stmt values)
    | err e ↦ (s, err (platform e))
    | panic ↦ (s, panic)
  ]
  execute (s, err e) values = (s, err e)
  execute (s, panic) values = (s, panic)

  -- The branch of a delete, behind its statement.
  unfoldable pub execute_delete :
      PostgresSink × Outcome SinkError K.Statement
      → ℕ
      → List PgValue
      → PostgresSink × Outcome SinkError (Unit {0})
  execute_delete (s, ok stmt) rel old = elim (lookup rel s.relations.identities) [
    | none ↦ (s, err (unknown_relation rel))
    | some identity ↦ execute (s, ok stmt) (delete_values identity old)
  ]
  execute_delete (s, err e) rel old = (s, err e)
  execute_delete (s, panic) rel old = (s, panic)

  unfoldable pub apply : PostgresSink → ℕ → Op → PostgresSink × Outcome SinkError (Unit {0})
  apply s rel (Op.insert row) = execute (get_upsert s rel) row
  apply s rel (Op.update old row) = execute (get_upsert s rel) row
  apply s rel (Op.delete old) = execute_delete (get_delete s rel) rel old

  unfoldable pub apply_merged :
      PostgresSink
      → ℕ
      → Op × Outcome ToastedOnKeyIdentity (Unit {0})
      → PostgresSink × Outcome SinkError (Unit {0})
  apply_merged s rel (op, ok u) = apply s rel op
  apply_merged s rel (op, _) = (s, err toasted_in_key_only)

  unfoldable pub on_event : PostgresSink → ChangeEvent → PostgresSink × Outcome SinkError (Unit {0})
  on_event s event = apply_merged s event.rel (merge_toasted event.op)

  unfoldable pub on_relation : PostgresSink → Relation → PostgresSink × Outcome SinkError (Unit {0})
  on_relation s relation = (record s { relations = update s.relations relation }, ok tt)

  -- `impl KafkaSink for PostgresSink`
  abbrev pub postgres_sink : KafkaSink
  postgres_sink = record { State = PostgresSink; on_event = on_event; on_relation = on_relation }
