-- ===== src/Feldera/Collecting.antt =====
-- A Feldera pipeline in memory, which splits the bodies of requests at line breaks: an instance of the
-- interface of Feldera.Ingress.
use cdc_connector.Prelude.{
  ℕ, zero, suc, ◌≡◌, ◌≢◌, refl, ap, ◌∙◌, arith, ◌&&◌, ◌==◌, List, [], ◌∷◌, ◌++◌, none, Bytes, Text,
  ◌⊎◌, inr, inl, text_beq, text_beq_iff, if◌then◌else◌, Bool-cases, length, replicate, nat_eq, All,
}
use cdc_connector.Avro.Json.{FormatMicros}
use cdc_connector.Feldera.{Api, FelderaEvent, insert, delete}
use cdc_connector.Feldera.Ingress.{Ingress, OneLine, joined}

abbrev pub no_date : FormatMicros
no_date t = none

-- A text with the sign of a change and the number of its columns.
abbrev pub print : FelderaEvent → Bytes
print (insert row) = b'+' ∷ replicate (length row) b'.'
print (delete row) = b'-' ∷ replicate (length row) b'.'

replicate-OneLine : (n : ℕ) → OneLine (replicate n b'.')
replicate-OneLine zero = refl
replicate-OneLine (suc n) = replicate-OneLine n

print-OneLine : (e : FelderaEvent) → OneLine (print e)
print-OneLine (insert row) = replicate-OneLine (length row)
print-OneLine (delete row) = replicate-OneLine (length row)

abbrev push : ℕ → List Bytes → List Bytes
push c [] = (c ∷ []) ∷ []
push c (line ∷ lines) = (c ∷ line) ∷ lines

-- The lines of a body.
split : Bytes → List Bytes
split [] = []
split (c ∷ cs) = let rest = split cs in if c == 10 then [] ∷ rest else push c rest

split-line : (line rest : Bytes) → OneLine line → split (line ++ 10 ∷ rest) ≡ line ∷ split rest
unfolding split
split-line [] rest h = refl
split-line (c ∷ line) rest h = ground (arith, h, split-line line rest)

split-joined : (lines : List Bytes) → All OneLine lines → split (joined lines) ≡ lines
unfolding split
split-joined [] h = refl
split-joined (line ∷ lines) (one, more) =
    split-line line (joined lines) one
    ∙ ap (λ (ls : List Bytes). line ∷ ls) (split-joined lines more)

abbrev pub Tables : Type 0
Tables = Text → Text → List Bytes

pub feed : Tables → Text → Text → Bytes → Tables
feed s pipeline table body p t =
    if text_beq pipeline p && text_beq table t then s pipeline table ++ split body else s p t

abbrev pub collecting : Api
collecting = record {
  State = Tables;
  format = no_date;
  to_json = λ e. inr (print e);
  http_input = λ s pipeline table body. (feed s pipeline table body, none);
}

pub feed_same :
    (s : Tables) (p t : Text) (lines : List Bytes)
    → All OneLine lines
    → feed s p t (joined lines) p t ≡ s p t ++ lines
unfolding feed
feed_same s p t lines h =
    rw ((text_beq_iff p p).1 refl, (text_beq_iff t t).1 refl, split-joined lines h) refl

pub feed_other :
    (s : Tables) (p t other : Text) (body : Bytes) → t ≢ other → feed s p t body p other ≡ s p other
unfolding feed
feed_other s p t other body differ = elim (Bool-cases (text_beq t other)) [
  | inl same ↦ absurd (differ ((text_beq_iff t other).0 same))
  | inr unlike ↦ rw ((text_beq_iff p p).1 refl, unlike) refl
]

pub printed :
    (e : FelderaEvent) (line : Bytes)
    → ◌≡◌ {A = Text ⊎ Bytes} (inr (print e)) (inr line)
    → OneLine line
printed e line made = let same : print e ≡ line = cc in rw (← same) (print-OneLine e)

abbrev pub ingress : Ingress collecting
ingress = record {
  fed = λ s. s;
  to_json-OneLine = λ e line made. printed e line made;
  http_input-fed = λ s p t lines h replied. feed_same s p t lines h;
  http_input-other = λ s p t other body differ. feed_other s p t other body differ;
}
