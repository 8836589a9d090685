-- ===== src/Wal/Identity.antt =====
-- `configure_replica_identity` of cdc-wal-reader/src/lib.rs.
use cdc_connector.Prelude.{
  ℕ, Bool, List, [], ◌∷◌, ◌++◌, Text, codes, Outcome, ok, ◌>>=◌, >>=-eq-ok, if◌then◌else◌, ◌≡◌, map,
}
use cdc_connector.Wal.{StartWalInputError}

-- A row of the query: the columns schemaname and tablename.
pub record DbTopic : Type 0 where
  pub name : Text
  pub namespace : Text

-- The crate tokio_postgres, connected: the rows of pg_publication_tables for the publication, and
-- the running of a statement.
pub record Database : Type 1 where
  pub State : Type 0
  pub query : State → Text → Outcome StartWalInputError (List DbTopic)
  pub execute : State → Text → Outcome StartWalInputError State

abbrev pub default_port : ℕ
default_port = 5432

unfoldable pub identity : Bool → Text
identity replica_identity_full = if replica_identity_full then codes "FULL" else codes "DEFAULT"

-- "ALTER TABLE {}.{} REPLICA IDENTITY {}"
unfoldable pub alter_table : Text → DbTopic → Text
alter_table kind t =
    codes "ALTER TABLE "
    ++ (t.namespace ++ (codes "." ++ (t.name ++ (codes " REPLICA IDENTITY " ++ kind))))

module _ (D : Database) where
  -- The loop over the rows: the topics, in the order of the rows.
  unfoldable pub alter_tables :
      D.State → Text → List DbTopic → Outcome StartWalInputError (D.State × List DbTopic)
  alter_tables s kind [] = ok (s, [])
  alter_tables s kind (t ∷ rows) = do
    s' ← D.execute s (alter_table kind t)
    (s'', topics) ← alter_tables s' kind rows
    ok (s'', t ∷ topics)

  unfoldable pub configure_replica_identity :
      D.State → Text → Bool → Outcome StartWalInputError (D.State × List DbTopic)
  configure_replica_identity s publication replica_identity_full = do
    rows ← D.query s publication
    alter_tables s (identity replica_identity_full) rows

  -- Statements that are executed one after the other, each without an error.
  pub data Executed : D.State → List Text → D.State → Type 0 where
    none_left : {s : D.State} → Executed s [] s
    next :
        {s s' s'' : D.State} {t : Text} {ts : List Text}
        → D.execute s t ≡ ok s'
        → Executed s' ts s''
        → Executed s (t ∷ ts) s''

  -- Where the tables of a publication are altered without an error, the topics are the rows, and
  -- what was executed is the statement of each table, in order.
  pub alter_tables-Executed :
      (s s' : D.State) (kind : Text) (rows topics : List DbTopic)
      → alter_tables s kind rows ≡ ok (s', topics)
      → (topics ≡ rows) × Executed s (map (alter_table kind) rows) s'
  unfolding alter_tables
  alter_tables-Executed s s' kind [] topics h = let last : s ≡ s' = cc in (cc, rw last none_left)
  alter_tables-Executed s s' kind (t ∷ rows) topics h =
      let (s1, e1, h1) = >>=-eq-ok (D.execute s (alter_table kind t)) _ h in
      let ((s2, later), e2, h2) = >>=-eq-ok (alter_tables s1 kind rows) _ h1 in
      let (same, ran) = alter_tables-Executed s1 s2 kind rows later e2 in
      let last : s2 ≡ s' = cc in (cc, next e1 (rw (← last) ran))
