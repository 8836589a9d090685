-- ===== src/Decoder/NullWord/Reference.antt =====
-- What `find_null_word` is to compute: the position of the first zero byte.
use cdc_connector.Prelude.{ℕ, ◌+◌, [], ◌∷◌, Option, none, some, Bytes, ◌==◌, if◌then◌else◌}

-- A position behind `n` more bytes.
abbrev pub shift : ℕ → Option ℕ → Option ℕ
shift n none = none
shift n (some k) = some (n + k)

unfoldable pub first_null : Bytes → Option ℕ
first_null [] = none
first_null (b ∷ bs) = let later = first_null bs in if b == 0 then some 0 else shift 1 later
