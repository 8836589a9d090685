-- ===== src/Postgres/Replica/Fixtures.antt =====
-- Two relations, and a sink on a database in memory that knows them, for the tests.
use cdc_connector.Prelude.{
  ℕ, ◌≡◌, ◌≢◌, refl, sym, ap, ◌∙◌, subst, arith, true, false, List, [], ◌∷◌, none, some, codes, pos,
  ◌==◌, nat_eq, Bool-cases, inl, inr, ◌⊎◌, text_beq_iff,
}
use cdc_connector.HashMap.{HashMap, lookup}
use cdc_connector.Avro.Kind.{FieldKind, ReplicaKind}
use cdc_connector.Avro.Value.{PgValue}
use cdc_connector.Avro.Relation.{Relation}
use cdc_connector.Postgres.Relations.{from_rels}
use cdc_connector.Postgres.Sink.{PostgresSink}
use cdc_connector.Postgres.Refresh.{from_rels-Follows}
use cdc_connector.Postgres.Replica.{KeysFirst}
use cdc_connector.Postgres.Replica.Caches.{Current}
use cdc_connector.Postgres.Replica.Memory.{memory, memory_database}
use cdc_connector.Postgres.Replica.Refines.{Followable}

abbrev pub users : Relation
users = record {
  relation_oid = 1;
  name = codes "users";
  namespace = codes "public";
  fields =
      record { is_key = true; name = codes "id"; kind = FieldKind.int4 }
      ∷ record { is_key = false; name = codes "name"; kind = FieldKind.text }
      ∷ [];
  replica_id = ReplicaKind.keys;
}

abbrev pub orders : Relation
orders = record {
  relation_oid = 2;
  name = codes "orders";
  namespace = codes "public";
  fields =
      record { is_key = true; name = codes "nr"; kind = FieldKind.int4 }
      ∷ record { is_key = false; name = codes "total"; kind = FieldKind.int8 }
      ∷ [];
  replica_id = ReplicaKind.keys;
}

abbrev pub rels : HashMap ℕ Relation
rels = (1, users) ∷ (2, orders) ∷ []

abbrev pub start : PostgresSink memory
start = record {
  client = λ t columns keys k. none;
  upserts = [];
  deletes = [];
  relations = from_rels rels;
}

rels-cases :
    (oid : ℕ) (r : Relation)
    → lookup oid rels ≡ some r
    → ((1 == oid ≡ true) × (users ≡ r)) ⊎ ((2 == oid ≡ true) × (orders ≡ r))
rels-cases oid r h = elim (Bool-cases (1 == oid)) [
  | inl first ↦ inl (first, (let e : some users ≡ some r = rw first at h in cc))
  | inr other ↦ elim (Bool-cases (2 == oid)) [
    | inl second ↦ inr (second, (let e : some orders ≡ some r = rw (other, second) at h in cc))
    | inr neither ↦ let e : none ≡ some r = rw (other, neither) at h in cc
  ]
]

users-KeysFirst : KeysFirst users
users-KeysFirst = record {
  identity = refl;
  key_fields = record { is_key = true; name = codes "id"; kind = FieldKind.int4 } ∷ [];
  value_fields = [];
  last = record { is_key = false; name = codes "name"; kind = FieldKind.text };
  fields = refl;
  keys_are_keys = (refl, tt);
  others_are_none = (refl, tt);
  named = (refl, (refl, tt));
  table_name = refl;
  column_names = (refl, (refl, tt));
}

orders-KeysFirst : KeysFirst orders
orders-KeysFirst = record {
  identity = refl;
  key_fields = record { is_key = true; name = codes "nr"; kind = FieldKind.int4 } ∷ [];
  value_fields = [];
  last = record { is_key = false; name = codes "total"; kind = FieldKind.int8 };
  fields = refl;
  keys_are_keys = (refl, tt);
  others_are_none = (refl, tt);
  named = (refl, (refl, tt));
  table_name = refl;
  column_names = (refl, (refl, tt));
}

users-ne-orders : users.name ≢ orders.name
users-ne-orders e = let same = (text_beq_iff users.name orders.name).1 e in cc

pub rels-Followable : Followable rels
rels-Followable = record {
  keys_first = λ oid r h. elim (rels-cases oid r h) [
    | inl (_, e) ↦ subst KeysFirst e users-KeysFirst
    | inr (_, e) ↦ subst KeysFirst e orders-KeysFirst
  ];
  apart = λ a b r q ha hb differ e. elim (rels-cases a r ha) [
    | inl (a_is, r_is) ↦ elim (rels-cases b q hb) [
      | inl (b_is, q_is) ↦ ground (arith, a_is, b_is, differ)
      | inr (b_is, q_is) ↦
          users-ne-orders
            (ap (λ (x : Relation). x.name) r_is ∙ sym e ∙ sym (ap (λ (x : Relation). x.name) q_is))
    ]
    | inr (a_is, r_is) ↦ elim (rels-cases b q hb) [
      | inl (b_is, q_is) ↦
          users-ne-orders
            (ap (λ (x : Relation). x.name) q_is ∙ e ∙ sym (ap (λ (x : Relation). x.name) r_is))
      | inr (b_is, q_is) ↦ ground (arith, a_is, b_is, differ)
    ]
  ];
}

pub start-Current : Current memory memory_database rels start
start-Current = record {
  follows = from_rels-Follows rels;
  upserts = λ oid r stmt known found. cc;
  deletes = λ oid r stmt known found. cc;
}

abbrev pub ann : List PgValue
ann = PgValue.int4 (pos 1) ∷ PgValue.text (codes "ann") ∷ []
