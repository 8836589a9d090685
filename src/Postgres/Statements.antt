-- ===== src/Postgres/Statements.antt =====
-- The texts of the statements (`gen_str` of postgres-connector/src/statements.rs).
use cdc_connector.Prelude.{
  ℕ, zero, suc, ◌+◌, ◌-◌, ◌/◌, ◌%◌, Bool, false, List, [], ◌∷◌, ◌++◌, Text, codes, length, ltb,
  ◌==◌, text_beq, if◌then◌else◌, ◌||◌,
}

-- `write!("{}", n)` of a `usize`, which has at most 20 digits.
abbrev digits : ℕ → ℕ → Text → Text
digits zero n acc = acc
digits (suc fuel) n acc =
    let rest = digits fuel (n / 10) ((48 + n % 10) ∷ acc) in
    if ltb n 10 then (48 + n) ∷ acc else rest

unfoldable pub decimal : ℕ → Text
decimal n = digits 20 n []

-- `push_str` of one text after the other.
abbrev pub concat : List Text → Text
concat [] = []
concat (t ∷ ts) = t ++ concat ts

-- `v.contains(c)`
abbrev pub contains : List Text → Text → Bool
contains [] c = false
contains (k ∷ ks) c = text_beq k c || contains ks c

-- The loops over `iter().enumerate()` that push a piece, and a separator where `i < len - 1`.
unfoldable pub separated : Text → ℕ → ℕ → List Text → Text
separated sep len i [] = []
separated sep len i (x ∷ xs) =
    x ++ ((if ltb i (len - 1) then sep else []) ++ separated sep len (suc i) xs)

-- "${}", i + 1 for each index of a list from `i` on.
unfoldable pub placeholders : ℕ → List Text → List Text
placeholders i [] = []
placeholders i (x ∷ xs) = (codes "$" ++ decimal (suc i)) ∷ placeholders (suc i) xs

-- The loop behind DO UPDATE SET: a column that is a key is passed over, separator included.
unfoldable pub updates : List Text → ℕ → ℕ → List Text → Text
updates keys len i [] = []
updates keys len i (c ∷ cs) =
    let rest = updates keys len (suc i) cs in
    if contains keys c
    then rest
    else c ++ (codes " = EXCLUDED." ++ (c ++ ((if ltb i (len - 1) then codes "," else []) ++ rest)))

-- `UpsertStatement::gen_str`
unfoldable pub upsert_str : Text → List Text → List Text → Text
upsert_str table rows keys = concat (
    codes "INSERT INTO "
    ∷ table
    ∷ codes " ("
    ∷ separated (codes ",") (length rows) 0 rows
    ∷ codes ") VALUES ("
    ∷ separated (codes ",") (length rows) 0 (placeholders 0 rows)
    ∷ codes ")"
    ∷ codes " ON CONFLICT ("
    ∷ separated (codes ", ") (length keys) 0 keys
    ∷ (if length rows == length keys
        then codes ") DO NOTHING"
        else codes ") DO UPDATE SET " ++ updates keys (length rows) 0 rows)
    ∷ [])

-- "{} = ${}" for each key from index `i` on.
unfoldable pub conditions : ℕ → List Text → List Text
conditions i [] = []
conditions i (key ∷ keys) =
    concat (key ∷ codes " = $" ∷ decimal (suc i) ∷ []) ∷ conditions (suc i) keys

-- `DeleteStatement::gen_str`
unfoldable pub delete_str : Text → List Text → Text
delete_str table keys = concat (
    codes "DELETE FROM "
    ∷ table
    ∷ codes " WHERE "
    ∷ separated (codes " AND ") (length keys) 0 (conditions 0 keys)
    ∷ [])
