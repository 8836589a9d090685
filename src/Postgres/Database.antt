-- ===== src/Postgres/Database.antt =====
-- What the documentations of PostgreSQL and of the crate tokio_postgres say of the statements that
-- the sink (postgres-connector/src) makes, as an interface: how they change the rows of a table.
use cdc_connector.Prelude.{
  ℕ, ◌≡◌, ◌≢◌, Bool, true, false, not, ◌&&◌, ◌||◌, ◌==◌, leb, All, List, [], ◌∷◌, ◌++◌, Option,
  none, some, Text, codes, map, length, inr, if◌then◌else◌,
}
use cdc_connector.Avro.Value.{PgValue}
use cdc_connector.Avro.Equal.{values_beq}
use cdc_connector.Postgres.Statements.{concat, contains, conditions}
use cdc_connector.Postgres.Upsert.{join, without, set_excluded, upsert_sql}
use cdc_connector.Postgres.Sink.{Client}

-- The rows of a table under the values of its key columns.
abbrev pub Rows : Type 0
Rows = List PgValue → Option (List PgValue)

abbrev pub put : List PgValue → List PgValue → Rows → Rows
put key row rows k = if values_beq key k then some row else rows k

abbrev pub erase : List PgValue → Rows → Rows
erase key rows k = if values_beq key k then none else rows k

-- The values of the columns that are keys, in the order of the columns.
abbrev pub named_values : List Text → List Text → List PgValue → List PgValue
named_values keys [] vs = []
named_values keys (c ∷ cs) [] = []
named_values keys (c ∷ cs) (v ∷ vs) =
    let rest = named_values keys cs vs in if contains keys c then v ∷ rest else rest

-- An INSERT that on a conflict of the keys sets every other column.
abbrev pub upsert_query : Text → List Text → List Text → Text
upsert_query table columns keys =
    upsert_sql table columns keys
      (codes ") DO UPDATE SET " ++ join (codes ",") (map set_excluded (without keys columns)))

-- A DELETE of the rows whose keys are equal to the parameters.
abbrev pub delete_query : Text → List Text → Text
delete_query table keys =
    concat (
      codes "DELETE FROM "
      ∷ table
      ∷ codes " WHERE "
      ∷ join (codes " AND ") (conditions 0 keys)
      ∷ [])

abbrev is_null : PgValue → Bool
is_null PgValue.null = true
is_null _ = false

-- NULL is equal to no value in SQL, so what is said of keys is said of keys without it.
abbrev pub no_null : List PgValue → Bool
no_null [] = true
no_null (v ∷ vs) = not (is_null v) && no_null vs

-- Lower-case letters, digits and underscores: what SQL takes for a name as it stands, unquoted.
abbrev is_name_char : ℕ → Bool
is_name_char c = (leb b'a' c && leb c b'z') || (leb b'0' c && leb c b'9') || c == b'_'

abbrev is_name : Text → Bool
is_name [] = true
is_name (c ∷ cs) = is_name_char c && is_name cs

abbrev pub IsName : Text → Type 0
IsName t = is_name t ≡ true

pub record Database (K : Client) : Type 0 where
  -- The text that a statement was prepared from.
  pub query : K.Statement → Text
  -- The values of `columns` in the row of `table` whose `keys` have given values.
  pub rows : K.State → (table : Text) → (columns keys : List Text) → Rows
  pub prepare_query :
      (s : K.State) (t : Text) (stmt : K.Statement) → (K.prepare s t).1 ≡ inr stmt → query stmt ≡ t
  pub prepare_rows : (s : K.State) (t : Text) → rows (K.prepare s t).0 ≡ rows s
  pub execute_upsert :
      (s : K.State) (stmt : K.Statement) (table : Text) (columns keys : List Text)
      (values : List PgValue)
      → IsName table
      → All IsName columns
      → All IsName keys
      → query stmt ≡ upsert_query table columns keys
      → length values ≡ length columns
      → no_null (named_values keys columns values) ≡ true
      → (K.execute s stmt values).1 ≡ none
      → rows (K.execute s stmt values).0 table columns keys
        ≡ put (named_values keys columns values) values (rows s table columns keys)
  pub execute_delete :
      (s : K.State) (stmt : K.Statement) (table : Text) (columns keys : List Text)
      (values : List PgValue)
      → IsName table
      → All IsName keys
      → query stmt ≡ delete_query table keys
      → length values ≡ length keys
      → no_null values ≡ true
      → (K.execute s stmt values).1 ≡ none
      → rows (K.execute s stmt values).0 table columns keys
        ≡ erase values (rows s table columns keys)
  -- A statement about one table leaves the others as they are.
  pub other_upsert :
      (s : K.State) (stmt : K.Statement) (table other : Text) (columns keys cs ks : List Text)
      (values : List PgValue)
      → IsName table
      → IsName other
      → query stmt ≡ upsert_query table columns keys
      → other ≢ table
      → rows (K.execute s stmt values).0 other cs ks ≡ rows s other cs ks
  pub other_delete :
      (s : K.State) (stmt : K.Statement) (table other : Text) (keys cs ks : List Text)
      (values : List PgValue)
      → IsName table
      → IsName other
      → query stmt ≡ delete_query table keys
      → other ≢ table
      → rows (K.execute s stmt values).0 other cs ks ≡ rows s other cs ks
