-- ===== src/Postgres/Stale.antt =====
-- The statement caches of postgres-connector/src/statements.rs where the relation changes.
use cdc_connector.Prelude.{
  ℕ, ◌≡◌, refl, arith, List, none, some, Text, Outcome, ok, err, panic, inl, inr, ◌⊎◌, ◌==◌, nat_eq,
  Bool-cases, All, option_cases, Outcome-Cases, is_ok, is_err, is_panic,
}
use cdc_connector.HashMap.{lookup, lookup-insert}
use cdc_connector.Avro.Value.{PgValue}
use cdc_connector.Avro.Codec.{AvroCodec}
use cdc_connector.Avro.Event.{Op, merge_toasted, ToastedOnKeyIdentity}
use cdc_connector.Sink.{SinkError, Consumer, Streamed, consume}
use cdc_connector.Sink.Dispatch
use cdc_connector.Sink.Dispatch.{Taken, Carries}
use cdc_connector.Postgres.Statements.{upsert_str}
use cdc_connector.Postgres.Rows.{Followed, WritableEvent, on_event-Followed, on_relation-Followed}
use cdc_connector.Postgres.Sink.{
  Client, PostgresSink, params, delete_values, prepared_delete, get_delete, prepared_upsert,
  get_upsert, executed, execute, execute_delete, apply, apply_merged, on_event, on_relation,
  postgres_sink,
}

module _ (K : Client) (rel : ℕ) (stmt : K.Statement) where
  -- The statement of the relation is cached.
  abbrev pub Cached : PostgresSink K → Type 0
  Cached s = lookup rel s.upserts ≡ some stmt

  prepared_upsert-Cached :
      (s : PostgresSink K) (other : ℕ) (r : K.State × (Text ⊎ K.Statement))
      → Cached s
      → lookup other s.upserts ≡ none
      → Cached (prepared_upsert K s other r).0
  unfolding prepared_upsert
  prepared_upsert-Cached s other (client, inl e) h n = h
  prepared_upsert-Cached s other (client, inr new) h n = elim (Bool-cases (other == rel)) [
    | inl same ↦ let e : other ≡ rel = ground arith in let missing = rw e at n in cc
    | inr differ ↦ rw (lookup-insert other rel new s.upserts, differ) h
  ]

  get_upsert-Cached : (s : PostgresSink K) (other : ℕ) → Cached s → Cached (get_upsert K s other).0
  unfolding get_upsert
  get_upsert-Cached s other h = elim (option_cases (lookup other s.upserts)) [
    | inr (st, e) ↦ ground (arith, e, h)
    | inl e ↦ elim (option_cases (lookup other s.relations.table_names)) [
      | inl t ↦ ground (arith, e, t, h)
      | inr (table, t) ↦ elim (option_cases (lookup other s.relations.fields)) [
        | inl f ↦ ground (arith, e, t, f, h)
        | inr (rows, f) ↦ elim (option_cases (lookup other s.relations.keys)) [
          | inl k ↦ ground (arith, e, t, f, k, h)
          | inr (keys, k) ↦ ground (
            arith,
            e,
            t,
            f,
            k,
            prepared_upsert-Cached s other (K.prepare s.client (upsert_str table rows keys)) h e,
          )
        ]
      ]
    ]
  ]

  get_delete-upserts :
      (s : PostgresSink K) (other : ℕ) → (get_delete K s other).0.upserts ≡ s.upserts
  unfolding get_delete prepared_delete
  get_delete-upserts s other = ground arith

  execute-upserts :
      (r : PostgresSink K × Outcome SinkError K.Statement) (values : List PgValue)
      → (execute K r values).0.upserts ≡ r.0.upserts
  unfolding execute executed
  execute-upserts (s, ok st) values = elim (Outcome-Cases (params K.encoder values)) [
    | is_ok ps e ↦ ground (arith, e)
    | is_err x e ↦ ground (arith, e)
    | is_panic e ↦ ground (arith, e)
  ]
  execute-upserts (s, err x) values = refl
  execute-upserts (s, panic) values = refl

  execute_delete-upserts :
      (r : PostgresSink K × Outcome SinkError K.Statement) (other : ℕ) (old : List PgValue)
      → (execute_delete K r other old).0.upserts ≡ r.0.upserts
  unfolding execute_delete
  execute_delete-upserts (s, ok st) other old =
      elim (option_cases (lookup other s.relations.identities)) [
        | inl missing ↦ ground (arith, missing)
        | inr (identity, found) ↦
            ground (arith, found, execute-upserts (s, ok st) (delete_values identity old))
      ]
  execute_delete-upserts (s, err x) other old = refl
  execute_delete-upserts (s, panic) other old = refl

  apply_merged-Cached :
      (s : PostgresSink K) (other : ℕ) (m : Op × Outcome ToastedOnKeyIdentity (Unit {0}))
      → Cached s
      → Cached (apply_merged K s other m).0
  unfolding apply_merged apply
  apply_merged-Cached s other (Op.insert row, ok u) h =
      rw (execute-upserts (get_upsert K s other) row) (get_upsert-Cached s other h)
  apply_merged-Cached s other (Op.update old row, ok u) h =
      rw (execute-upserts (get_upsert K s other) row) (get_upsert-Cached s other h)
  apply_merged-Cached s other (Op.delete old, ok u) h =
      rw (execute_delete-upserts (get_delete K s other) other old, get_delete-upserts s other) h
  apply_merged-Cached s other (op, err x) h = h
  apply_merged-Cached s other (op, panic) h = h

  -- A statement that is once prepared for the upserts of a relation is never renewed: whatever
  -- writable events and relations the sink consumes, with other columns of this very relation among them,
  -- its upserts go on with that statement.
  pub consume-stale :
      (avro : AvroCodec) (prefix : Text) (c : Consumer (PostgresSink K)) (ms : List Streamed)
      → All (Carries (postgres_sink K) avro prefix (WritableEvent K)) ms
      → All (Taken (postgres_sink K) avro prefix) c.committed
      → Followed K c.sink
      → lookup rel c.sink.upserts ≡ some stmt
      → (c' : Consumer (PostgresSink K)) × (consume (postgres_sink K) avro prefix c ms ≡ ok c')
        × (get_upsert K c'.sink rel ≡ (c'.sink, ok stmt))
  unfolding on_event on_relation get_upsert
  consume-stale avro prefix c ms fits h f cached =
      let (c', e, (taken, good)) =
        Dispatch.consume-Carries (postgres_sink K) avro prefix (WritableEvent K)
          (λ s. Followed K s × Cached s)
          (λ s event w g.
            (let (calm, follows) = on_event-Followed K s event w g.0 in
              (calm, (follows, apply_merged-Cached s event.rel (merge_toasted event.op) g.1))))
          (λ s r g.
            (let (calm, follows) = on_relation-Followed K s r g.0 in (calm, (follows, g.1))))
          c ms fits h (f, cached) in
      (c', e, ground (arith, good.1))
