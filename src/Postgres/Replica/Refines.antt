-- ===== src/Postgres/Replica/Refines.antt =====
-- The sink of postgres-connector/src/main.rs refines the tables of the source.
use cdc_connector.Prelude.{
  ℕ, ◌≡◌, ◌≢◌, refl, sym, ap, subst, ◌∙◌, arith, true, false, List, [], ◌∷◌, length, none, some,
  Outcome, ok, err, panic, ◌==◌, nat_eq, if◌then◌else◌, Bool-cases, inl, inr, Text, All,
  Outcome-Cases, is_ok, is_err, is_panic,
}
use cdc_connector.HashMap.{HashMap, lookup}
use cdc_connector.Avro.Value.{PgValue}
use cdc_connector.Avro.Relation.{Field, Relation}
use cdc_connector.Avro.Event.{Op, ChangeEvent, merge_toasted}
use cdc_connector.Avro.Merge.{overlay, merge_toasted-overlay}
use cdc_connector.Sink.Events.{after_events, TakesAll}
use cdc_connector.Wal.{Reply}
use cdc_connector.Sink.{SinkError, platform}
use cdc_connector.Postgres.Relations.{extract_key_identity, extract_fields_names, extract_keys_rel}
use cdc_connector.Postgres.Sink.{
  Client, PostgresSink, params, get_delete, get_upsert, executed, execute, execute_delete, apply,
  apply_merged, on_event, postgres_sink,
}
use cdc_connector.Postgres.Database.{Database, Rows, put, no_null, IsName}
use cdc_connector.Postgres.Rows.{key_values}
use cdc_connector.Postgres.Replica.{KeysFirst, Plain, replay}
use cdc_connector.Postgres.Replica.Shape.{upsert_str-query, delete_str-query, delete_values-key}
use cdc_connector.Postgres.Replica.Caches.{
  upsert_of, delete_of, Current, Ready, get_upsert-Ready, get_delete-Ready,
}
use cdc_connector.Postgres.Replica.Events.{
  view, Replayed, executed-client, executed-ok, execute-upsert, execute-delete, put-forget,
  length-overlay,
}

-- Relations that the sink can follow, no two of which have one name.
pub record Followable (rels : HashMap ℕ Relation) : Type 0 where
  pub keys_first : (oid : ℕ) (r : Relation) → lookup oid rels ≡ some r → KeysFirst r
  pub apart :
      (a b : ℕ) (r q : Relation)
      → lookup a rels ≡ some r
      → lookup b rels ≡ some q
      → (a == b) ≡ false
      → q.name ≢ r.name

-- An event of a known relation.
abbrev pub PlainEvent : HashMap ℕ Relation → ChangeEvent → Type 0
PlainEvent rels e = (r : Relation) × (lookup e.rel rels ≡ some r) × Plain r e.op

-- The changes of one table among those of all.
abbrev pub replay_events : ℕ → List Field → List ChangeEvent → Rows → Rows
replay_events oid fields [] rows = rows
replay_events oid fields (e ∷ es) rows =
    replay_events oid fields es (if e.rel == oid then replay fields e.op rows else rows)

module _ (K : Client) (D : Database K) (rels : HashMap ℕ Relation) where
  executed-Current :
      (s : PostgresSink K) (p : K.State × Reply)
      → Current K D rels s
      → Current K D rels (executed K s p).0
  unfolding executed
  executed-Current s (client, none) h = record {
    follows = h.follows;
    upserts = h.upserts;
    deletes = h.deletes;
  }
  executed-Current s (client, some e) h = record {
    follows = h.follows;
    upserts = h.upserts;
    deletes = h.deletes;
  }

  same_view : (q : Relation) (a b : K.State) → D.rows a ≡ D.rows b → view K D q a ≡ view K D q b
  same_view q a b e =
      ap
        (λ (f : Text → List Text → List Text → Rows).
          f q.name (extract_fields_names q) (extract_keys_rel q))
        e

  module _ (good : Followable rels) (s : PostgresSink K) (rel : ℕ) (r : Relation)
      (known : lookup rel rels ≡ some r) where
    executed-Replayed :
        (op : Op) (values : List PgValue) (text : Text) (s' : PostgresSink K) (stmt : K.Statement)
        → Ready K D rels s.client text (s', ok stmt)
        → (D.query stmt ≡ text
            → (K.execute s'.client stmt values).1 ≡ none
            → view K D r (K.execute s'.client stmt values).0
              ≡ replay r.fields op (view K D r s'.client))
        → ((q : Relation)
            → IsName q.name
            → D.query stmt ≡ text
            → q.name ≢ r.name
            → view K D q (K.execute s'.client stmt values).0 ≡ view K D q s'.client)
        → Replayed K D rels s rel op (executed K s' (K.execute s'.client stmt values))
    executed-Replayed op values text s' stmt ready own others = record {
      current = executed-Current s' (K.execute s'.client stmt values) ready.current;
      rows = λ took oid q q_known. elim (Bool-cases (rel == oid)) [
        | inl same ↦
            let e : rel ≡ oid = ground arith in
            let r_found : lookup oid rels ≡ some r = rw e at known in
            let both : some r ≡ some q = sym r_found ∙ q_known in
            let r_eq : r ≡ q = cc in
            let at_r : view K D r (executed K s' (K.execute s'.client stmt values)).0.client
                ≡ replay r.fields op (view K D r s.client) =
              rw (executed-client K D s' (K.execute s'.client stmt values)) (
                own (ready.query stmt refl)
                  (executed-ok K D s' (K.execute s'.client stmt values) took)
                ∙ ap (replay r.fields op) (same_view r s'.client s.client ready.same)) in
            rw same (
              subst
                (λ (x : Relation).
                  view K D x (executed K s' (K.execute s'.client stmt values)).0.client
                  ≡ replay x.fields op (view K D x s.client))
                r_eq at_r)
        | inr differ ↦
            let at_q : view K D q (executed K s' (K.execute s'.client stmt values)).0.client
                ≡ view K D q s.client =
              rw (executed-client K D s' (K.execute s'.client stmt values)) (
                others q (good.keys_first oid q q_known).table_name (ready.query stmt refl)
                  (good.apart rel oid r q known q_known differ)
                ∙ same_view q s'.client s.client ready.same) in
            rw differ at_q
      ];
    }

    execute-Replayed :
        (op : Op) (values : List PgValue) (text : Text)
        (res : PostgresSink K × Outcome SinkError K.Statement)
        → Ready K D rels s.client text res
        → ((stmt : K.Statement)
            → D.query stmt ≡ text
            → (K.execute res.0.client stmt values).1 ≡ none
            → view K D r (K.execute res.0.client stmt values).0
              ≡ replay r.fields op (view K D r res.0.client))
        → ((stmt : K.Statement) (q : Relation)
            → IsName q.name
            → D.query stmt ≡ text
            → q.name ≢ r.name
            → view K D q (K.execute res.0.client stmt values).0 ≡ view K D q res.0.client)
        → Replayed K D rels s rel op (execute K res values)
    unfolding execute
    execute-Replayed op values text (s', ok stmt) ready own others =
        elim (Outcome-Cases (params K.encoder values)) [
          | is_ok ps e ↦
              let runs : execute K (s', ok stmt) values
                  ≡ executed K s' (K.execute s'.client stmt values) =
                ground (arith, e) in
              rw runs (executed-Replayed op values text s' stmt ready (own stmt) (others stmt))
          | is_err x e ↦
              let refused : execute K (s', ok stmt) values ≡ (s', err (platform x)) =
                ground (arith, e) in
              rw refused (record { current = ready.current; rows = λ took. cc })
          | is_panic e ↦
              let panics : execute K (s', ok stmt) values ≡ (s', panic) = ground (arith, e) in
              rw panics (record { current = ready.current; rows = λ took. cc })
        ]
    execute-Replayed op values text (s', err e) ready own others = record {
      current = ready.current;
      rows = λ took. cc;
    }
    execute-Replayed op values text (s', panic) ready own others = record {
      current = ready.current;
      rows = λ took. cc;
    }

    pub upsert-Replayed :
        (op : Op) (row : List PgValue)
        → length row ≡ length r.fields
        → no_null (key_values r.fields row) ≡ true
        → ((rows : Rows) → replay r.fields op rows ≡ put (key_values r.fields row) row rows)
        → Current K D rels s
        → Replayed K D rels s rel op (execute K (get_upsert K s rel) row)
    upsert-Replayed op row len full meant h =
        let first = good.keys_first rel r known in
        let got = get_upsert K s rel in
        execute-Replayed op row (upsert_of r) got (get_upsert-Ready K D rels s rel r h known)
          (λ stmt q replied.
            execute-upsert K D got.0.client r first stmt row q len full replied
            ∙ sym (meant (view K D r got.0.client)))
          (λ stmt other other_name q differ.
            D.other_upsert got.0.client stmt r.name other.name (extract_fields_names r)
              (extract_keys_rel r) (extract_fields_names other) (extract_keys_rel other) row
              first.table_name other_name (q ∙ upsert_str-query r first) differ)

    execute_delete-key :
        (key : List PgValue)
        → length key ≡ length (extract_keys_rel r)
        → (res : PostgresSink K × Outcome SinkError K.Statement) → Current K D rels res.0
        → execute_delete K res rel key ≡ execute K res key
    unfolding execute_delete
    execute_delete-key key len (s', ok stmt) h =
        let found : lookup rel s'.relations.identities ≡ some (extract_key_identity r) =
          rw known at (h.follows.identities rel) in
        ground (arith, found, delete_values-key r (good.keys_first rel r known) key len)
    execute_delete-key key len (s', err e) h = unfold execute in refl
    execute_delete-key key len (s', panic) h = unfold execute in refl

    delete-Replayed :
        (key : List PgValue)
        → Plain r (Op.delete key)
        → Current K D rels s
        → Replayed K D rels s rel (Op.delete key) (execute_delete K (get_delete K s rel) rel key)
    delete-Replayed key (len, full) h =
        let first = good.keys_first rel r known in
        let got = get_delete K s rel in
        let ready = get_delete-Ready K D rels s rel r h known in
        rw (execute_delete-key key len got ready.current) (
          execute-Replayed (Op.delete key) key (delete_of r) got ready
            (λ stmt q replied. execute-delete K D got.0.client r first stmt key q len full replied)
            (λ stmt other other_name q differ.
              D.other_delete got.0.client stmt r.name other.name (extract_keys_rel r)
                (extract_fields_names other) (extract_keys_rel other) key first.table_name
                other_name (q ∙ delete_str-query r first) differ))

    apply-Replayed :
        (op : Op)
        → Plain r op
        → Current K D rels s
        → Replayed K D rels s rel op (apply_merged K s rel (merge_toasted op))
    unfolding apply_merged apply merge_toasted
    apply-Replayed (Op.insert row) (len, full) h =
        upsert-Replayed (Op.insert row) row len full (λ rows. refl) h
    apply-Replayed (Op.update old row) (len, covered, kept, full) h =
        let merged : merge_toasted (Op.update old row) ≡ (Op.update old (overlay old row), ok tt) =
          merge_toasted-overlay old row covered in
        let result : apply_merged K s rel (merge_toasted (Op.update old row))
            ≡ execute K (get_upsert K s rel) (overlay old row) =
          ap (apply_merged K s rel) merged in
        rw result (
          upsert-Replayed (Op.update old row) (overlay old row) (length-overlay old row ∙ len) full
            (λ rows. put-forget r.fields old row rows kept) h)
    apply-Replayed (Op.delete key) plain h = delete-Replayed key plain h

  module _ (good : Followable rels) (oid : ℕ) (q : Relation)
      (known : lookup oid rels ≡ some q) where
    -- The sink refines the tables of the source: where it takes all of a list of plain events, the
    -- table of every relation that it knows is changed by the events of this relation, in order, as
    -- at the source, and by no others; and its statements stay those of the relations.
    pub on_event-replay :
        (s : PostgresSink K) (es : List ChangeEvent)
        → Current K D rels s
        → All (PlainEvent rels) es
        → TakesAll (postgres_sink K) s es
        → Current K D rels (after_events (postgres_sink K) s es)
          × (view K D q (after_events (postgres_sink K) s es).client
              ≡ replay_events oid q.fields es (view K D q s.client))
    unfolding on_event
    on_event-replay s [] h plain took = (h, refl)
    on_event-replay s (e ∷ es) h ((r, r_known, plain), more) (took, later) =
        let one = apply-Replayed good s e.rel r r_known e.op plain h in
        let (current, rest) = on_event-replay (on_event K s e).0 es one.current more later in
        (current, rest ∙ ap (replay_events oid q.fields es) (one.rows took oid q known))
