-- ===== src/Postgres/Upsert.antt =====
-- The texts of postgres-connector/src/statements.rs against SQL written with `join`.
use cdc_connector.Prelude.{
  ℕ, suc, ◌+◌, ◌-◌, ◌≡◌, ◌≢◌, refl, ap, sym, ◌∙◌, arith, true, false, List, [], ◌∷◌, ◌++◌, Text,
  codes, length, map, ◌==◌, if◌then◌else◌, Bool-cases, inl, inr, append_assoc, append-nil,
  length-append, lt→ltb,
}
use cdc_connector.Postgres.Statements.{
  concat, contains, separated, placeholders, updates, upsert_str, conditions, delete_str,
}

-- Texts with a separator between each two.
unfoldable pub join : Text → List Text → Text
join sep [] = []
join sep (x ∷ []) = x
join sep (x ∷ y ∷ xs) = x ++ (sep ++ join sep (y ∷ xs))

separated-join_from :
    (sep : Text) (len i : ℕ) (xs : List Text)
    → len ≡ i + length xs
    → separated sep len i xs ≡ join sep xs
unfolding separated join
separated-join_from sep len i [] h = refl
separated-join_from sep len i (x ∷ []) h = ground (arith, append-nil x)
separated-join_from sep len i (x ∷ y ∷ xs) h =
    ground (arith, separated-join_from sep len (suc i) (y ∷ xs) (omega arith))

separated-join : (sep : Text) (xs : List Text) → separated sep (length xs) 0 xs ≡ join sep xs
separated-join sep xs = separated-join_from sep (length xs) 0 xs (omega arith)

-- The columns that are no keys.
abbrev pub without : List Text → List Text → List Text
without keys [] = []
without keys (c ∷ cs) = let rest = without keys cs in if contains keys c then rest else c ∷ rest

abbrev pub set_excluded : Text → Text
set_excluded c = c ++ (codes " = EXCLUDED." ++ c)

-- Each assignment with a comma behind it.
abbrev pub with_commas : List Text → Text
with_commas [] = []
with_commas (c ∷ cs) = set_excluded c ++ (codes "," ++ with_commas cs)

set_excluded-append :
    (x s t : Text) → x ++ (codes " = EXCLUDED." ++ (x ++ (s ++ t))) ≡ (set_excluded x ++ s) ++ t
set_excluded-append x s t =
    sym (append_assoc (set_excluded x) s t ∙ append_assoc x (codes " = EXCLUDED." ++ x) (s ++ t))

updates-last :
    (keys : List Text) (len i : ℕ) (cs : List Text) (c : Text)
    → len ≡ i + suc (length cs)
    → updates keys len i (cs ++ c ∷ [])
      ≡ with_commas (without keys cs) ++ (if contains keys c then [] else set_excluded c)
unfolding updates
updates-last keys len i [] c h = ground (arith, append-nil c)
updates-last keys len i (x ∷ cs) c h = elim (Bool-cases (contains keys x)) [
  | inl key ↦ rw key (updates-last keys len (suc i) cs c (omega arith))
  | inr value ↦
      rw
        (
          value,
          lt→ltb i (len - 1) (omega (arith, h, length-append cs (c ∷ []))),
          updates-last keys len (suc i) cs c (omega arith),
        )
        (set_excluded-append x (codes "," ++ with_commas (without keys cs))
          (if contains keys c then [] else set_excluded c))
]

join-with_commas :
    (cs : List Text) (c : Text)
    → join (codes ",") (map set_excluded (cs ++ c ∷ [])) ≡ with_commas cs ++ set_excluded c
unfolding join
join-with_commas [] c = refl
join-with_commas (x ∷ []) c = sym (append_assoc (set_excluded x) (codes ",") (set_excluded c))
join-with_commas (x ∷ y ∷ cs) c =
    ap (λ t. set_excluded x ++ (codes "," ++ t)) (join-with_commas (y ∷ cs) c)
    ∙ sym (append_assoc (set_excluded x) (codes "," ++ with_commas (y ∷ cs)) (set_excluded c))

without-append :
    (keys cs : List Text) (c : Text)
    → without keys (cs ++ c ∷ []) ≡ without keys cs ++ without keys (c ∷ [])
without-append keys [] c = refl
without-append keys (x ∷ cs) c = ground (arith, without-append keys cs c)

-- The statement with a given list of assignments.
unfoldable pub upsert_sql : Text → List Text → List Text → Text → Text
upsert_sql table rows keys action = concat (
    codes "INSERT INTO "
    ∷ table
    ∷ codes " ("
    ∷ join (codes ",") rows
    ∷ codes ") VALUES ("
    ∷ join (codes ",") (placeholders 0 rows)
    ∷ codes ")"
    ∷ codes " ON CONFLICT ("
    ∷ join (codes ", ") keys
    ∷ action
    ∷ [])

length-placeholders : (i : ℕ) (xs : List Text) → length (placeholders i xs) ≡ length xs
unfolding placeholders
length-placeholders i [] = refl
length-placeholders i (x ∷ xs) = ap suc (length-placeholders (suc i) xs)

upsert_str-sql :
    (table : Text) (rows keys : List Text)
    → upsert_str table rows keys
      ≡ upsert_sql table rows keys (
          if length rows == length keys
          then codes ") DO NOTHING"
          else codes ") DO UPDATE SET " ++ updates keys (length rows) 0 rows)
unfolding upsert_str upsert_sql
upsert_str-sql table rows keys =
    rw (separated-join (codes ",") rows, separated-join (codes ", ") keys, separated-placeholders)
      refl
  where
    separated-placeholders :
        separated (codes ",") (length rows) 0 (placeholders 0 rows)
        ≡ join (codes ",") (placeholders 0 rows)
    separated-placeholders =
        separated-join_from (codes ",") (length rows) 0 (placeholders 0 rows)
          (omega (arith, length-placeholders 0 rows))

upsert_str-assigns :
    (table : Text) (rows keys : List Text) (assignments : Text)
    → length rows ≢ length keys
    → updates keys (length rows) 0 rows ≡ assignments
    → upsert_str table rows keys
      ≡ upsert_sql table rows keys (codes ") DO UPDATE SET " ++ assignments)
upsert_str-assigns table rows keys assignments more e =
    upsert_str-sql table rows keys ∙ ap (upsert_sql table rows keys) (ground (arith, more, e))

updates-rows :
    (keys rows : List Text) (last : Text)
    → updates keys (length (rows ++ last ∷ [])) 0 (rows ++ last ∷ [])
      ≡ with_commas (without keys rows) ++ (if contains keys last then [] else set_excluded last)
updates-rows keys rows last =
    updates-last keys (length (rows ++ last ∷ [])) 0 rows last
      (omega (arith, length-append rows (last ∷ [])))

-- Where there are more columns than keys and the last column is no key, `gen_str` of an upsert is
-- the INSERT with one placeholder for a column, in order, that on a conflict of the keys sets each
-- column that is no key to the value that was to be inserted.
pub upsert_str-update :
    (table : Text) (rows : List Text) (last : Text) (keys : List Text)
    → suc (length rows) ≢ length keys
    → contains keys last ≡ false
    → upsert_str table (rows ++ last ∷ []) keys
      ≡ upsert_sql table (rows ++ last ∷ []) keys (
          codes ") DO UPDATE SET "
          ++ join (codes ",") (map set_excluded (without keys (rows ++ last ∷ []))))
upsert_str-update table rows last keys more value =
    upsert_str-assigns table (rows ++ last ∷ []) keys _
      (ground (arith, more, length-append rows (last ∷ []))) assignments
  where
    assignments :
        updates keys (length (rows ++ last ∷ [])) 0 (rows ++ last ∷ [])
        ≡ join (codes ",") (map set_excluded (without keys (rows ++ last ∷ [])))
    assignments =
        rw (updates-rows keys rows last, value, without-append keys rows last)
          (rw value (sym (join-with_commas (without keys rows) last)))

-- Where there are as many columns as keys, `gen_str` of an upsert does nothing on a conflict.
pub upsert_str-nothing :
    (table : Text) (rows keys : List Text)
    → length rows ≡ length keys
    → upsert_str table rows keys ≡ upsert_sql table rows keys (codes ") DO NOTHING")
upsert_str-nothing table rows keys same =
    upsert_str-sql table rows keys ∙ ap (upsert_sql table rows keys) (ground (arith, same))

-- Where the last column is a key, and there are other columns than keys, the list of assignments
-- ends with a comma.
pub upsert_str-trailing_comma :
    (table : Text) (rows : List Text) (last : Text) (keys : List Text)
    → suc (length rows) ≢ length keys
    → contains keys last ≡ true
    → upsert_str table (rows ++ last ∷ []) keys
      ≡ upsert_sql table
          (rows ++ last ∷ [])
          keys
          (codes ") DO UPDATE SET " ++ with_commas (without keys rows))
upsert_str-trailing_comma table rows last keys more key =
    upsert_str-assigns table (rows ++ last ∷ []) keys _
      (ground (arith, more, length-append rows (last ∷ [])))
      (rw (updates-rows keys rows last, key) (append-nil (with_commas (without keys rows))))

length-conditions : (i : ℕ) (ks : List Text) → length (conditions i ks) ≡ length ks
unfolding conditions
length-conditions i [] = refl
length-conditions i (k ∷ ks) = ap suc (length-conditions (suc i) ks)

-- `gen_str` of a delete is the DELETE whose condition compares each key, in order, with the
-- placeholder of its place.
pub delete_str-sql :
    (table : Text) (keys : List Text)
    → delete_str table keys
      ≡ concat (
          codes "DELETE FROM "
          ∷ table
          ∷ codes " WHERE "
          ∷ join (codes " AND ") (conditions 0 keys)
          ∷ [])
unfolding delete_str
delete_str-sql table keys = rw separated-conditions refl
  where
    separated-conditions :
        separated (codes " AND ") (length keys) 0 (conditions 0 keys)
        ≡ join (codes " AND ") (conditions 0 keys)
    separated-conditions =
        separated-join_from (codes " AND ") (length keys) 0 (conditions 0 keys)
          (omega (arith, length-conditions 0 keys))
