-- ===== src/Postgres/Replica/Memory.antt =====
-- A database in memory that meets what is said of PostgreSQL: it compares a statement with those of
-- a table. The sink of postgres-connector/src runs on it in the tests.
use cdc_connector.Prelude.{
  ◌≡◌, ◌≢◌, refl, ap, arith, true, false, List, [], ◌∷◌, ◌++◌, none, ◌⊎◌, inr, Text, drop, text_beq,
  text_beq_iff, ℤ, pos, negsuc, Bytes, Outcome, ok, panic, ltb, ◌^◌, if◌then◌else◌, Bool-cases, inl,
}
use cdc_connector.Avro.Value.{PgValue}
use cdc_connector.Postgres.Upsert.{upsert_sql}
use cdc_connector.Postgres.Sink.{Client, ToSql}
use cdc_connector.Postgres.Database.{
  Database, Rows, put, erase, named_values, upsert_query, delete_query, IsName,
}

abbrev pub Tables : Type 0
Tables = Text → List Text → List Text → Rows

unfoldable pub after_statement : Tables → Text → List PgValue → Tables
after_statement s stmt values t columns keys =
    if text_beq (upsert_query t columns keys) stmt
    then put (named_values keys columns values) values (s t columns keys)
    else if text_beq (delete_query t keys) stmt
    then erase values (s t columns keys)
    else s t columns keys

-- The dates before the year 10000 or so, from 2000 on.
abbrev pub some_dates : ℤ → Outcome Text Bytes
some_dates (pos n) = if ltb n (2 ^ 58) then ok [] else panic
some_dates (negsuc n) = panic

abbrev pub plain_encoder : ToSql
plain_encoder = record {
  text = λ t. inr t;
  int4 = λ n. inr [];
  int8 = λ n. inr [];
  bool = λ b. inr [];
  timestamp = some_dates;
}

abbrev pub memory : Client
memory = record {
  State = Tables;
  Statement = Text;
  encoder = plain_encoder;
  prepare = λ s t. (s, inr t);
  execute = λ s stmt values. (after_statement s stmt values, none);
}

text_beq_self : (t : Text) → text_beq t t ≡ true
text_beq_self t = (text_beq_iff t t).1 refl

-- A name ends at a space.
name-eq : (a b x y : Text) → IsName a → IsName b → a ++ b' ' ∷ x ≡ b ++ b' ' ∷ y → a ≡ b
name-eq [] [] x y ha hb e = refl
name-eq [] (c ∷ b) x y ha hb e = ground (arith, hb, e)
name-eq (c ∷ a) [] x y ha hb e = ground (arith, ha, e)
name-eq (c ∷ a) (d ∷ b) x y ha hb e =
    let rest : a ++ b' ' ∷ x ≡ b ++ b' ' ∷ y = ap (drop 1) e in
    let tails : a ≡ b = name-eq a b x y (ground (arith, ha)) (ground (arith, hb)) rest in
    let heads : c ≡ d = cc in cc

upsert_query-ne-delete :
    (t u : Text) (columns keys ks : List Text)
    → text_beq (upsert_query t columns keys) (delete_query u ks) ≡ false
unfolding upsert_sql
upsert_query-ne-delete t u columns keys ks = refl

delete_query-ne-upsert :
    (t u : Text) (columns keys ks : List Text)
    → text_beq (delete_query u ks) (upsert_query t columns keys) ≡ false
unfolding upsert_sql
delete_query-ne-upsert t u columns keys ks = refl

upsert_query-table :
    (t u : Text) (columns keys cs ks : List Text)
    → IsName t
    → IsName u
    → u ≢ t
    → text_beq (upsert_query u cs ks) (upsert_query t columns keys) ≡ false
unfolding upsert_sql
upsert_query-table t u columns keys cs ks ht hu differ = elim (Bool-cases _) [
  | inl same ↦ absurd (
      differ (
        name-eq u t _ _ hu ht (
          ap (drop 12)
            ((text_beq_iff (upsert_query u cs ks) (upsert_query t columns keys)).0 same))))
  | inr other ↦ other
]

delete_query-table :
    (t u : Text) (keys ks : List Text)
    → IsName t
    → IsName u
    → u ≢ t
    → text_beq (delete_query u ks) (delete_query t keys) ≡ false
delete_query-table t u keys ks ht hu differ = elim (Bool-cases _) [
  | inl same ↦ absurd (
      differ (
        name-eq u t _ _ hu ht
          (ap (drop 12) ((text_beq_iff (delete_query u ks) (delete_query t keys)).0 same))))
  | inr other ↦ other
]

pub prepared_text : (t stmt : Text) → ◌≡◌ {A = Text ⊎ Text} (inr t) (inr stmt) → stmt ≡ t
prepared_text t stmt e = cc

module _ (s : Tables) (stmt t : Text) (values : List PgValue) where
  pub after_upsert :
      (columns keys : List Text)
      → stmt ≡ upsert_query t columns keys
      → after_statement s stmt values t columns keys
        ≡ put (named_values keys columns values) values (s t columns keys)
  unfolding after_statement
  after_upsert columns keys q = rw (q, text_beq_self (upsert_query t columns keys)) refl

  pub after_delete :
      (columns keys : List Text)
      → stmt ≡ delete_query t keys
      → after_statement s stmt values t columns keys ≡ erase values (s t columns keys)
  unfolding after_statement
  after_delete columns keys q =
      rw (q, upsert_query-ne-delete t t columns keys keys, text_beq_self (delete_query t keys)) refl

  module _ (other : Text) (cs ks : List Text) (nt : IsName t) (no : IsName other)
      (differ : other ≢ t) where
    pub after_other_upsert :
        (columns keys : List Text)
        → stmt ≡ upsert_query t columns keys
        → after_statement s stmt values other cs ks ≡ s other cs ks
    unfolding after_statement
    after_other_upsert columns keys q =
        rw
          (
            q,
            upsert_query-table t other columns keys cs ks nt no differ,
            delete_query-ne-upsert t other columns keys ks,
          )
          refl

    pub after_other_delete :
        (keys : List Text)
        → stmt ≡ delete_query t keys
        → after_statement s stmt values other cs ks ≡ s other cs ks
    unfolding after_statement
    after_other_delete keys q =
        rw
          (
            q,
            upsert_query-ne-delete other t cs ks keys,
            delete_query-table t other keys ks nt no differ,
          )
          refl

abbrev pub memory_database : Database memory
memory_database = record {
  query = λ stmt. stmt;
  rows = λ s. s;
  prepare_query = λ s t stmt e. prepared_text t stmt e;
  prepare_rows = λ s t. refl;
  execute_upsert = λ s stmt t columns keys values nt nc nk q len full replied.
      after_upsert s stmt t values columns keys q;
  execute_delete = λ s stmt t columns keys values nt nk q len full replied.
      after_delete s stmt t values columns keys q;
  other_upsert = λ s stmt t other columns keys cs ks values nt no q differ.
      after_other_upsert s stmt t values other cs ks nt no differ columns keys q;
  other_delete = λ s stmt t other keys cs ks values nt no q differ.
      after_other_delete s stmt t values other cs ks nt no differ keys q;
}
