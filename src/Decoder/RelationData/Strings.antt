-- ===== src/Decoder/RelationData/Strings.antt =====
-- `extract_string` and the numbers of a relation message, read back.
use cdc_connector.Prelude.{
  ℕ, zero, suc, ◌+◌, ◌-◌, ◌^◌, ◌≤◌, ◌<◌, ◌≡◌, refl, ap, arith, Bool, true, false, ◌∷◌, ◌++◌, Bytes,
  Text, length, take, drop, if◌then◌else◌, All, ok, length-append, take-append, All-append, le→leb,
  length-drop,
}
use cdc_connector.Bytes.{IsByte, to_be_bytes, read_be, from_be-to_be_32, from_be-to_be_16}
use cdc_connector.Decoder.Errors.{DecoderError, Utf8, from_utf8}
use cdc_connector.Decoder.NullWord.Scan.{find_null_word-first_null}
use cdc_connector.Decoder.NullWord.Prefix.{first_null-ended}
use cdc_connector.Decoder.RelationData.{extract_string, all_ascii}
use cdc_connector.Decoder.RelationData.Encode.{encode_name, NameSendable}

pub encode_name-IsByte :
    (valid : Utf8) (name : Text) (rest : Bytes)
    → NameSendable valid name
    → All IsByte rest
    → All IsByte (encode_name name rest)
unfolding encode_name
encode_name-IsByte valid name rest h g = All-append IsByte name (0 ∷ rest) h.0 (omega arith, g)

pub to_be-IsByte : (n v : ℕ) (rest : Bytes) → All IsByte rest → All IsByte (to_be_bytes n v ++ rest)
to_be-IsByte zero v rest h = h
to_be-IsByte (suc n) v rest h = (omega arith, to_be-IsByte n v rest h)

-- A name that was sent is read back, whatever bytes follow it.
pub extract_string-encode :
    (valid : Utf8) (name : Text) (rest : Bytes)
    → NameSendable valid name
    → All IsByte rest
    → extract_string valid (encode_name name rest) ≡ ok name
unfolding extract_string encode_name
extract_string-encode valid name rest h g =
    let room : length name ≤ length (name ++ (0 ∷ rest)) =
      omega (arith, length-append name (0 ∷ rest)) in
    let bytes = All-append IsByte name (0 ∷ rest) h.0 (omega arith, g) in
    rw
      (
        find_null_word-first_null (name ++ (0 ∷ rest)) bytes,
        first_null-ended name rest h.1,
        le→leb 0 (length name) (omega arith),
        le→leb (length name) (length (name ++ (0 ∷ rest))) room,
      )
      (same (all_ascii (take (length name - 0) (name ++ (0 ∷ rest)))))
  where
    part : take (length name - 0) (name ++ (0 ∷ rest)) ≡ name
    part = let e : length name - 0 ≡ length name = omega arith in rw e (take-append name (0 ∷ rest))

    same :
        (b : Bool)
        → (if b
            then ok (take (length name - 0) (name ++ (0 ∷ rest)))
            else from_utf8 valid (take (length name - 0) (name ++ (0 ∷ rest))))
          ≡ ok name
    same true = rw part refl
    same false = rw (part, h.2) refl

-- A number behind a part of the message.
pub read_32 :
    (xs : Bytes) (pos v : ℕ) (rest : Bytes)
    → drop pos xs ≡ to_be_bytes 4 v ++ rest
    → pos ≤ length xs
    → v < 2 ^ 32
    → read_be {E = DecoderError} xs pos (pos + 4) ≡ ok v
read_32 xs pos v rest e p h =
    let four : pos + 4 - pos ≡ 4 = omega arith in
    let room : pos + 4 ≤ length xs = omega (arith, length-drop pos xs, ap length e) in
    rw (le→leb pos (pos + 4) (omega arith), le→leb (pos + 4) (length xs) room, four, e)
      (ap ok (from_be-to_be_32 v h))

pub read_16 :
    (xs : Bytes) (pos v : ℕ) (rest : Bytes)
    → drop pos xs ≡ to_be_bytes 2 v ++ rest
    → pos ≤ length xs
    → v < 2 ^ 16
    → read_be {E = DecoderError} xs pos (pos + 2) ≡ ok v
read_16 xs pos v rest e p h =
    let two : pos + 2 - pos ≡ 2 = omega arith in
    let room : pos + 2 ≤ length xs = omega (arith, length-drop pos xs, ap length e) in
    rw (le→leb pos (pos + 2) (omega arith), le→leb (pos + 2) (length xs) room, two, e)
      (ap ok (from_be-to_be_16 v h))
