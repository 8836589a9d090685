-- ===== src/Feldera/Ingress.antt =====
-- What the documentation of Feldera says of the requests that the sink (feldera-connector/src/main.rs)
-- makes, as an interface: each line of a body is one change of the table. And what serde_json
-- documents: its compact texts are single lines.
use cdc_connector.Prelude.{
  ◌≡◌, ◌≢◌, arith, Bool, true, ◌&&◌, not, ◌==◌, List, [], ◌∷◌, ◌++◌, none, Bytes, Text, codes, All,
  inl, inr, ◌⊎◌, ok, sum_cases, Outcome-Cases, is_ok, is_err, is_panic,
}
use cdc_connector.Feldera.{Api, FelderaEvent, to_lines}

abbrev is_one_line : Bytes → Bool
is_one_line [] = true
is_one_line (c ∷ cs) = not (c == 10) && is_one_line cs

abbrev pub OneLine : Bytes → Type 0
OneLine line = is_one_line line ≡ true

-- A line break behind each line.
abbrev pub joined : List Bytes → Bytes
joined [] = []
joined (line ∷ lines) = line ++ (codes "\n" ++ joined lines)

pub record Ingress (A : Api) : Type 0 where
  -- The lines that a table of a pipeline was fed, in order.
  pub fed : A.State → (pipeline table : Text) → List Bytes
  pub to_json-OneLine : (e : FelderaEvent) (line : Bytes) → A.to_json e ≡ inr line → OneLine line
  pub http_input-fed :
      (s : A.State) (pipeline table : Text) (lines : List Bytes)
      → All OneLine lines
      → (A.http_input s pipeline table (joined lines)).1 ≡ none
      → fed (A.http_input s pipeline table (joined lines)).0 pipeline table
        ≡ fed s pipeline table ++ lines
  pub http_input-other :
      (s : A.State) (pipeline table other : Text) (body : Bytes)
      → table ≢ other
      → fed (A.http_input s pipeline table body).0 pipeline other ≡ fed s pipeline other

-- The texts of changes.
abbrev pub line_of : Text ⊎ Bytes → List Bytes
line_of (inl e) = []
line_of (inr line) = line ∷ []

abbrev pub lines_of : (FelderaEvent → Text ⊎ Bytes) → List FelderaEvent → List Bytes
lines_of to_json [] = []
lines_of to_json (e ∷ es) = line_of (to_json e) ++ lines_of to_json es

-- Where every change has a text, `to_lines` joins the texts.
pub to_lines-joined :
    (to_json : FelderaEvent → Text ⊎ Bytes) (es : List FelderaEvent) (body : Text)
    → to_lines to_json es ≡ ok body
    → body ≡ joined (lines_of to_json es)
unfolding to_lines
to_lines-joined to_json [] body h = cc
to_lines-joined to_json (e ∷ es) body h = elim (sum_cases (to_json e)) [
  | inl (x, failed) ↦ ground (arith, failed, h)
  | inr (line, made) ↦ elim (Outcome-Cases (to_lines to_json es)) [
    | is_ok rest e' ↦
        let tail : rest ≡ joined (lines_of to_json es) = to_lines-joined to_json es rest e' in
        ground (arith, made, e', tail, h)
    | is_err x e' ↦ ground (arith, made, e', h)
    | is_panic e' ↦ ground (arith, made, e', h)
  ]
]

pub lines_of-OneLine :
    (A : Api) (I : Ingress A) (es : List FelderaEvent) → All OneLine (lines_of A.to_json es)
lines_of-OneLine A I [] = tt
lines_of-OneLine A I (e ∷ es) = elim (sum_cases (A.to_json e)) [
  | inl (x, failed) ↦ rw failed (lines_of-OneLine A I es)
  | inr (line, made) ↦ rw made (I.to_json-OneLine e line made, lines_of-OneLine A I es)
]
