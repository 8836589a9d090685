-- ===== src/Avro/Equal.antt =====
-- `PartialEq` of `PgValue`, as it is derived in cdc-avro/src/lib.rs.
use cdc_connector.Prelude.{
  ◌≡◌, ◌↔◌, arith, Bool, true, false, ◌&&◌, ◌==◌, List, [], ◌∷◌, ℤ, pos, negsuc, text_beq,
  text_beq_iff,
}
use cdc_connector.Avro.Value.{PgValue, null, text, int4, int8, bool, timestamp, toasted}

abbrev int_beq : ℤ → ℤ → Bool
int_beq (pos a) (pos b) = a == b
int_beq (negsuc a) (negsuc b) = a == b
int_beq _ _ = false

int_beq_iff : (a b : ℤ) → (int_beq a b ≡ true) ↔ (a ≡ b)
int_beq_iff (pos a) (pos b) = ground arith
int_beq_iff (pos a) (negsuc b) = ground arith
int_beq_iff (negsuc a) (pos b) = ground arith
int_beq_iff (negsuc a) (negsuc b) = ground arith

abbrev bool_beq : Bool → Bool → Bool
bool_beq true true = true
bool_beq false false = true
bool_beq _ _ = false

abbrev pub value_beq : PgValue → PgValue → Bool
value_beq null null = true
value_beq (text a) (text b) = text_beq a b
value_beq (int4 a) (int4 b) = int_beq a b
value_beq (int8 a) (int8 b) = int_beq a b
value_beq (bool a) (bool b) = bool_beq a b
value_beq (timestamp a) (timestamp b) = int_beq a b
value_beq toasted toasted = true
value_beq _ _ = false

pub value_beq_iff : (a b : PgValue) → (value_beq a b ≡ true) ↔ (a ≡ b)
value_beq_iff null null = ground arith
value_beq_iff (text a) (text b) = ground (arith, text_beq_iff a b)
value_beq_iff (int4 a) (int4 b) = ground (arith, int_beq_iff a b)
value_beq_iff (int8 a) (int8 b) = ground (arith, int_beq_iff a b)
value_beq_iff (bool true) (bool true) = ground arith
value_beq_iff (bool true) (bool false) = ground arith
value_beq_iff (bool false) (bool true) = ground arith
value_beq_iff (bool false) (bool false) = ground arith
value_beq_iff (timestamp a) (timestamp b) = ground (arith, int_beq_iff a b)
value_beq_iff toasted toasted = ground arith
value_beq_iff a b = ground arith

abbrev pub values_beq : List PgValue → List PgValue → Bool
values_beq [] [] = true
values_beq (v ∷ vs) (w ∷ ws) = value_beq v w && values_beq vs ws
values_beq _ _ = false

pub values_beq_iff : (a b : List PgValue) → (values_beq a b ≡ true) ↔ (a ≡ b)
values_beq_iff [] [] = ground arith
values_beq_iff [] (w ∷ ws) = ground arith
values_beq_iff (v ∷ vs) [] = ground arith
values_beq_iff (v ∷ vs) (w ∷ ws) = ground (arith, value_beq_iff v w, values_beq_iff vs ws)
