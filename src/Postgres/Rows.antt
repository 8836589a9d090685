-- ===== src/Postgres/Rows.antt =====
-- The sink of postgres-connector/src/main.rs: where it does not panic, and the parameters of its deletes.
use cdc_connector.Prelude.{
  ℕ, suc, ◌≤◌, ◌<◌, ◌≡◌, ◌≢◌, refl, ◌∙◌, arith, false, List, [], ◌∷◌, Text, Outcome, ok, err, panic,
  inl, inr, if◌then◌else◌, length, nat_eq, Bool-cases, All, Outcome-Cases, is_ok, is_err, is_panic,
  option_cases,
}
use cdc_connector.HashMap.{HashMap, insert, lookup}
use cdc_connector.Avro.Value.{PgValue}
use cdc_connector.Avro.Relation.{Field, Relation}
use cdc_connector.Avro.Codec.{AvroCodec}
use cdc_connector.Avro.Event.{Op, ChangeEvent, merge_toasted, ToastedOnKeyIdentity}
use cdc_connector.Sink.{SinkError, Consumer, Streamed, consume}
use cdc_connector.Sink.Dispatch
use cdc_connector.Sink.Dispatch.{Taken, Carries}
use cdc_connector.Postgres.Writable.{
  Writable, WritableOp, params-ne-panic, delete_values-Writable, merge_toasted-Writable,
}
use cdc_connector.Postgres.Relations.{extract_keys_pos, extract_key_identity}
use cdc_connector.Avro.Kind.{ReplicaKind}
use cdc_connector.Postgres.Refresh.{Follows, update-Follows}
use cdc_connector.Postgres.Sink.{
  Client, PostgresSink, has_index, pick, delete_values, params, prepared_delete, get_delete,
  prepared_upsert, get_upsert, executed, execute, execute_delete, apply, apply_merged, on_event,
  on_relation, postgres_sink,
}

module _ (K : Client) where
  -- An event whose values are written with no panic.
  abbrev pub WritableEvent : ChangeEvent → Type 0
  WritableEvent e = WritableOp K.encoder e.op

  -- The cache of relations follows some map of relations.
  abbrev pub Followed : PostgresSink K → Type 0
  Followed s = (rels : HashMap ℕ Relation) × Follows s.relations rels

  get_upsert-relations :
      (s : PostgresSink K) (rel : ℕ) → (get_upsert K s rel).0.relations ≡ s.relations
  unfolding get_upsert prepared_upsert
  get_upsert-relations s rel = ground arith

  get_delete-relations :
      (s : PostgresSink K) (rel : ℕ) → (get_delete K s rel).0.relations ≡ s.relations
  unfolding get_delete prepared_delete
  get_delete-relations s rel = ground arith

  get_upsert-ne-panic : (s : PostgresSink K) (rel : ℕ) → Followed s → (get_upsert K s rel).1 ≢ panic
  unfolding get_upsert prepared_upsert
  get_upsert-ne-panic s rel (rels, h) e =
      ground (arith, e, h.table_names rel, h.fields rel, h.keys rel)

  get_delete-ne-panic : (s : PostgresSink K) (rel : ℕ) → (get_delete K s rel).1 ≢ panic
  unfolding get_delete prepared_delete
  get_delete-ne-panic s rel e = ground (arith, e)

  -- What an operation of the sink does not do to it.
  abbrev Calm : PostgresSink K → PostgresSink K × Outcome SinkError (Unit {0}) → Type 0
  Calm s r = (r.1 ≢ panic) × (r.0.relations ≡ s.relations)

  execute-Calm :
      (r : PostgresSink K × Outcome SinkError K.Statement) (values : List PgValue)
      → All (Writable K.encoder) values
      → r.1 ≢ panic
      → Calm r.0 (execute K r values)
  unfolding execute executed
  execute-Calm (s, ok stmt) values w h = elim (Outcome-Cases (params K.encoder values)) [
    | is_ok ps e ↦ ((λ p. ground (arith, e, p)), ground (arith, e))
    | is_err x e ↦ ((λ p. ground (arith, e, p)), ground (arith, e))
    | is_panic e ↦ absurd (params-ne-panic K.encoder values w e)
  ]
  execute-Calm (s, err x) values w h = ((λ e. ground (arith, e)), refl)
  execute-Calm (s, panic) values w h = absurd (h refl)

  execute_delete-Calm :
      (r : PostgresSink K × Outcome SinkError K.Statement) (rel : ℕ) (old : List PgValue)
      → All (Writable K.encoder) old
      → r.1 ≢ panic
      → Calm r.0 (execute_delete K r rel old)
  unfolding execute_delete
  execute_delete-Calm (s, ok stmt) rel old w h =
      elim (option_cases (lookup rel s.relations.identities)) [
        | inl missing ↦ ((λ e. ground (arith, e, missing)), ground (arith, missing))
        | inr (identity, found) ↦
            let values = delete_values identity old in
            let opened : execute_delete K (s, ok stmt) rel old ≡ execute K (s, ok stmt) values =
              ground (arith, found) in
            rw opened
              (execute-Calm (s, ok stmt) values (delete_values-Writable K.encoder identity old w) h)
      ]
  execute_delete-Calm (s, err x) rel old w h = ((λ e. ground (arith, e)), refl)
  execute_delete-Calm (s, panic) rel old w h = absurd (h refl)

  apply_merged-Calm :
      (s : PostgresSink K) (rel : ℕ) (m : Op × Outcome ToastedOnKeyIdentity (Unit {0}))
      → (m.1 ≡ ok tt → WritableOp K.encoder m.0)
      → Followed s
      → Calm s (apply_merged K s rel m)
  unfolding apply_merged apply
  apply_merged-Calm s rel (Op.insert row, ok u) w f =
      let (calm, same) =
        execute-Calm (get_upsert K s rel) row (w refl) (get_upsert-ne-panic s rel f) in
      (calm, same ∙ get_upsert-relations s rel)
  apply_merged-Calm s rel (Op.update old row, ok u) w f =
      let (calm, same) =
        execute-Calm (get_upsert K s rel) row (w refl).1 (get_upsert-ne-panic s rel f) in
      (calm, same ∙ get_upsert-relations s rel)
  apply_merged-Calm s rel (Op.delete old, ok u) w f =
      let (calm, same) =
        execute_delete-Calm (get_delete K s rel) rel old (w refl) (get_delete-ne-panic s rel) in
      (calm, same ∙ get_delete-relations s rel)
  apply_merged-Calm s rel (op, err x) w f = ((λ e. ground (arith, e)), refl)
  apply_merged-Calm s rel (op, panic) w f = ((λ e. ground (arith, e)), refl)

  -- Where the cache of relations follows a map of relations, no writable event makes the sink panic,
  -- and the cache follows the map behind it.
  pub on_event-Followed :
      (s : PostgresSink K) (event : ChangeEvent)
      → WritableOp K.encoder event.op
      → Followed s
      → ((on_event K s event).1 ≢ panic) × Followed (on_event K s event).0
  unfolding on_event
  on_event-Followed s event w (rels, h) =
      let (calm, same) =
        apply_merged-Calm s event.rel (merge_toasted event.op)
          (merge_toasted-Writable K.encoder event.op w) (rels, h) in
      (calm, (rels, rw same h))

  pub on_relation-Followed :
      (s : PostgresSink K) (r : Relation)
      → Followed s
      → ((on_relation K s r).1 ≢ panic) × Followed (on_relation K s r).0
  unfolding on_relation
  on_relation-Followed s r (rels, h) = (
    (λ e. ground (arith, e)),
    (insert r.relation_oid r rels, update-Follows s.relations rels r h),
  )

  -- A sink whose cache of relations follows a map of relations consumes any stream of writable events
  -- to its end without a panic, and every message that is committed is one whose event the sink took
  -- without an error.
  pub consume-postgres :
      (avro : AvroCodec) (prefix : Text) (c : Consumer (PostgresSink K)) (ms : List Streamed)
      → All (Carries (postgres_sink K) avro prefix WritableEvent) ms
      → All (Taken (postgres_sink K) avro prefix) c.committed
      → Followed c.sink
      → (c' : Consumer (PostgresSink K)) × (consume (postgres_sink K) avro prefix c ms ≡ ok c')
        × (All (Taken (postgres_sink K) avro prefix) c'.committed × Followed c'.sink)
  consume-postgres avro prefix c ms fits h f =
      Dispatch.consume-Carries (postgres_sink K) avro prefix WritableEvent Followed
        on_event-Followed on_relation-Followed c ms fits h f

-- The values of the key columns, of a whole row.
abbrev pub key_values : List Field → List PgValue → List PgValue
key_values [] vs = []
key_values (f ∷ fs) [] = []
key_values (f ∷ fs) (v ∷ vs) = let rest = key_values fs vs in if f.is_key then v ∷ rest else rest

pub has_index-extract :
    (s : List ℕ) (i j : ℕ) (fields : List Field)
    → j < i
    → has_index (extract_keys_pos s i fields) j ≡ has_index s j
unfolding extract_keys_pos
has_index-extract s i j [] h = refl
has_index-extract s i j (f ∷ fs) h =
    has_index-extract (if f.is_key then i ∷ s else s) (suc i) j fs (omega arith) ∙ ground arith

pick-extract_keys_pos :
    (s : List ℕ) (i : ℕ) (fields : List Field) (old : List PgValue)
    → ((j : ℕ) → i ≤ j → has_index s j ≡ false)
    → length old ≡ length fields
    → pick (extract_keys_pos s i fields) i old ≡ key_values fields old
unfolding extract_keys_pos pick
pick-extract_keys_pos s i [] [] fresh h = refl
pick-extract_keys_pos s i [] (v ∷ vs) fresh h = absurd (omega arith)
pick-extract_keys_pos s i (f ∷ fs) [] fresh h = absurd (omega arith)
pick-extract_keys_pos s i (f ∷ fs) (v ∷ vs) fresh h = elim (Bool-cases f.is_key) [
  | inl key ↦ ground (
    arith,
    key,
    has_index-extract (i ∷ s) (suc i) i fs (omega arith),
    pick-extract_keys_pos (i ∷ s) (suc i) fs vs
        (λ j le. ground (arith, fresh j (omega (arith, le)))) (omega (arith, h)),
  )
  | inr other ↦ ground (
    arith,
    other,
    fresh i (omega arith),
    has_index-extract s (suc i) i fs (omega arith),
    pick-extract_keys_pos s (suc i) fs vs (λ j le. fresh j (omega (arith, le))) (omega (arith, h)),
  )
]

-- Of an old row that is whole, the parameters of a delete under the key identity are the values of
-- the key columns, in order.
pub delete_values-key_values :
    (relation : Relation) (old : List PgValue)
    → relation.replica_id ≡ ReplicaKind.keys
    → length old ≡ length relation.fields
    → delete_values (extract_key_identity relation) old ≡ key_values relation.fields old
unfolding delete_values extract_key_identity
delete_values-key_values relation old k h =
    rw k (pick-extract_keys_pos [] 0 relation.fields old (λ j le. refl) h)
