-- ===== src/Decoder/TupleData/KeyTuples.antt =====
-- `parse_keys` on the key tuples that PostgreSQL sends: a column for each field of the relation, of
-- which those that are no keys are null.
use cdc_connector.Prelude.{
  ℕ, zero, suc, ◌+◌, ◌-◌, ◌^◌, ◌≤◌, ◌<◌, ◌≡◌, refl, sym, ap, ◌∙◌, false, List, [], ◌∷◌, ◌++◌, ok,
  panic, some, Bytes, length, drop, replicate, arith, length-append, append_assoc, append-nil,
  length-replicate, le→leb, drop-lt, get_elem?, get_elem?-none,
}
use cdc_connector.Bytes.{from_be-to_be_16}
use cdc_connector.Avro.Value.{PgValue}
use cdc_connector.Decoder.Errors.{Utf8}
use cdc_connector.Decoder.RelationData.{KeyField, key_field_access}
use cdc_connector.Decoder.TupleData.{parse_value, parse_indexed, parse_key_cols, parse_keys}
use cdc_connector.Decoder.TupleData.Encode.{
  Cell, null, cell_value, encode_cell, encode_cells, encode_tuple, RowSendable, values,
}
use cdc_connector.Decoder.TupleData.RoundTrip.{encoded_step, RowSendable-length}

-- i, i + 1, … : `n` numbers.
unfoldable pub count_from : ℕ → ℕ → List ℕ
count_from i zero = []
count_from i (suc n) = i ∷ count_from (suc i) n

get-count_from : (n i j : ℕ) → j < n → get_elem? (count_from i n) j ≡ some (i + j)
unfolding count_from
get-count_from zero i j h = absurd (omega arith)
get-count_from (suc n) i zero h = ap some (omega arith)
get-count_from (suc n) i (suc j) h =
    get-count_from n (suc i) j (omega arith) ∙ ap some (omega arith)

length-count_from : (n i : ℕ) → length (count_from i n) ≡ n
unfolding count_from
length-count_from zero i = refl
length-count_from (suc n) i = ap suc (length-count_from n (suc i))

module _ (valid : Utf8) (xs : Bytes) (fields : List KeyField) (total : ℕ) where
  -- What one round reads, where key `i` is column `i`.
  key_step :
      (c : Cell) (cells : List Cell) (i pos : ℕ) (rest : Bytes)
      → drop pos xs ≡ encode_cells (c ∷ cells) ++ rest
      → pos ≤ length xs
      → i < length fields
      → RowSendable valid false (drop i fields) (c ∷ cells)
      → (f : KeyField) × (get_elem? fields i ≡ some f)
        × (get_elem? (count_from 0 (length fields)) i ≡ some i)
        × (parse_value valid (drop pos xs) f false ≡ ok (cell_value c, length (encode_cell c)))
        × (drop (pos + length (encode_cell c)) xs ≡ encode_cells cells ++ rest)
        × (pos + length (encode_cell c) ≤ length xs)
        × RowSendable valid false (drop (suc i) fields) cells
  key_step c cells i pos rest e p lt h =
      let (f, found, cut) = drop-lt fields i lt in
      let (sends, more) = rw cut at h in
      let (first, behind, room) = encoded_step valid xs false f c cells pos rest e p sends in
      (
        f,
        found,
        get-count_from (length fields) 0 i lt ∙ ap some (omega arith),
        first,
        behind,
        room,
        more,
      )

  -- From key `i` on, where the keys are the first columns: the values that were sent, and a
  -- position that counts each column behind the last key, and one more.
  key_prefix :
      (c : Cell) (cells : List Cell) (rounds i pos : ℕ) (cols : List PgValue) (rest : Bytes)
      → length cells ≤ rounds
      → drop pos xs ≡ encode_cells (c ∷ cells) ++ rest
      → pos ≤ length xs
      → i + suc (length cells) ≡ length fields
      → RowSendable valid false (drop i fields) (c ∷ cells)
      → parse_key_cols valid xs fields
          (count_from 0 (length fields))
          total
          (suc rounds)
          i
          i
          pos
          cols
        ≡ ok (
          cols ++ values (c ∷ cells),
          pos + length (encode_cells (c ∷ cells)) + total - (length fields - 1),
        )
  unfolding parse_key_cols encode_cells
  key_prefix c [] rounds i pos cols rest r e p last h =
      let (f, found, idx, first, behind, room, more) =
        key_step c [] i pos rest e p (omega arith) h in
      ground (
        arith,
        found,
        idx,
        first,
        le→leb pos (length xs),
        length-count_from (length fields) 0,
        append-nil (encode_cell c),
      )
  key_prefix c (d ∷ cs) zero i pos cols rest r e p last h = absurd (omega arith)
  key_prefix c (d ∷ cs) (suc rounds) i pos cols rest r e p last h =
      let (f, found, idx, first, behind, room, more) =
        key_step c (d ∷ cs) i pos rest e p (omega arith) h in
      let later =
        key_prefix d cs rounds (suc i) (pos + length (encode_cell c)) (cols ++ cell_value c ∷ [])
          rest (omega arith) behind room (omega arith) more in
      ground (
        arith,
        found,
        idx,
        first,
        le→leb pos (length xs),
        length-count_from (length fields) 0,
        later,
        append_assoc cols (cell_value c ∷ []) (values (d ∷ cs)),
        length-append (encode_cell c) (encode_cells (d ∷ cs)),
      )

  -- Where the columns outnumber the key fields, the loop with an index runs past the fields.
  indexed_overrun :
      (cells : List Cell) (rounds i pos : ℕ) (cols : List PgValue) (rest : Bytes)
      → length cells < rounds
      → drop pos xs ≡ encode_cells cells ++ rest
      → pos ≤ length xs
      → i + length cells ≡ length fields
      → RowSendable valid false (drop i fields) cells
      → parse_indexed valid xs false fields rounds i pos cols ≡ panic
  unfolding parse_indexed
  indexed_overrun cells zero i pos cols rest r e p last h = absurd (omega arith)
  indexed_overrun [] (suc rounds) i pos cols rest r e p last h =
      rw (le→leb pos (length xs) p, get_elem?-none fields i (omega arith)) refl
  indexed_overrun (d ∷ cs) (suc rounds) i pos cols rest r e p last h =
      let (f, found, idx, first, behind, room, tails) =
        key_step d cs i pos rest e p (omega arith) h in
      let later =
        indexed_overrun cs rounds (suc i) (pos + length (encode_cell d)) (cols ++ cell_value d ∷ [])
          rest (omega arith) behind room (omega arith) tails in
      rw (le→leb pos (length xs) p, found, first) later

-- The key tuple of a relation: the columns of the key, then a null for each other column.
abbrev pub key_tuple : List Cell → ℕ → List Cell
key_tuple keys others = keys ++ replicate others null

encode_cells-append :
    (cs ds : List Cell) → encode_cells (cs ++ ds) ≡ encode_cells cs ++ encode_cells ds
unfolding encode_cells
encode_cells-append [] ds = refl
encode_cells-append (c ∷ cs) ds =
    rw (encode_cells-append cs ds)
      (sym (append_assoc (encode_cell c) (encode_cells cs) (encode_cells ds)))

length-encode_nulls : (n : ℕ) → length (encode_cells (replicate n null)) ≡ n
unfolding encode_cells encode_cell
length-encode_nulls zero = refl
length-encode_nulls (suc n) = ap suc (length-encode_nulls n)

key_tuple_facts :
    (keys : List Cell) (others : ℕ) (rest : Bytes)
    → (length (key_tuple keys others) ≡ length keys + others)
      × (length (encode_cells (key_tuple keys others)) ≡ length (encode_cells keys) + others)
      × (encode_cells (key_tuple keys others) ++ rest
          ≡ encode_cells keys ++ (encode_cells (replicate others null) ++ rest))
key_tuple_facts keys others rest = (
  length-append keys (replicate others null)
      ∙ ap (λ (n : ℕ). length keys + n) (length-replicate others null),
  rw (encode_cells-append keys (replicate others null)) (
      length-append (encode_cells keys) (encode_cells (replicate others null))
      ∙ ap (λ (n : ℕ). length (encode_cells keys) + n) (length-encode_nulls others)),
  rw (encode_cells-append keys (replicate others null))
      (append_assoc (encode_cells keys) (encode_cells (replicate others null)) rest),
)

-- For a relation of at most 6 columns whose first columns are the key, `parse_keys` returns the
-- values of the key, and a size that is one more than that of the tuple.
pub parse_keys-prefix :
    (valid : Utf8) (fields : List KeyField) (key : Cell) (keys : List Cell) (others : ℕ)
    (rest : Bytes)
    → length fields + others ≤ 6
    → RowSendable valid false fields (key ∷ keys)
    → parse_keys valid
        (encode_tuple (key_tuple (key ∷ keys) others) ++ rest)
        fields
        (count_from 0 (length fields))
        (length fields + others)
      ≡ ok (values (key ∷ keys), length (encode_tuple (key_tuple (key ∷ keys) others)) + 1)
unfolding parse_keys encode_tuple
parse_keys-prefix valid fields key keys others rest few h = ground (
  arith,
  key_tuple_facts (key ∷ keys) others rest,
  RowSendable-length valid false fields (key ∷ keys) h,
  from_be-to_be_16 (length (key_tuple (key ∷ keys) others)),
  key_prefix valid xs fields (length fields + others) key keys (length keys + others) 0 2 []
      (encode_cells (replicate others null) ++ rest) (omega arith)
      (key_tuple_facts (key ∷ keys) others rest).2 (omega arith)
      (omega (arith, RowSendable-length valid false fields (key ∷ keys) h)) h,
)
  where
    xs : Bytes
    xs = encode_tuple (key_tuple (key ∷ keys) others) ++ rest

-- For a relation of 7 columns or more, of which some are not in the key and the first ones are,
-- `parse_keys` indexes its key fields out of range on the tuple.
pub parse_keys-wide :
    (valid : Utf8) (fields : List KeyField) (indexes : List ℕ) (keys : List Cell) (others : ℕ)
    (rest : Bytes)
    → 1 ≤ others
    → 7 ≤ length fields + others
    → length fields + others < 2 ^ 16
    → RowSendable valid false fields keys
    → parse_keys valid
        (encode_tuple (key_tuple keys others) ++ rest)
        fields
        indexes
        (length fields + others)
      ≡ panic
unfolding parse_keys encode_tuple
parse_keys-wide valid fields indexes keys others rest some_other wide fits h = ground (
  arith,
  key_tuple_facts keys others rest,
  RowSendable-length valid false fields keys h,
  from_be-to_be_16 (length (key_tuple keys others)),
  indexed_overrun valid xs fields (length fields + others) keys (length keys + others) 0 2 []
      (encode_cells (replicate others null) ++ rest) (omega arith)
      (key_tuple_facts keys others rest).2 (omega arith)
      (omega (arith, RowSendable-length valid false fields keys h)) h,
)
  where
    xs : Bytes
    xs = encode_tuple (key_tuple keys others) ++ rest
