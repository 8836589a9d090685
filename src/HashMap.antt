-- ===== src/HashMap.antt =====
-- `std::collections::HashMap` as an association list with one entry for a key. No code that is
-- modelled depends on the order in which a map is walked.
use cdc_connector.Prelude.{
  ◌≡◌, refl, Option, none, some, List, [], ◌∷◌, arith, Eq, if◌then◌else◌, Bool-cases, inl, inr,
}

abbrev pub HashMap {ℓ} : Type ℓ → Type ℓ → Type ℓ
HashMap K V = List (K × V)

module _ {ℓ} {K V : Type ℓ} ⦃e : Eq K⦄ where
  -- `get`
  abbrev pub lookup : K → HashMap K V → Option V
  lookup k [] = none
  lookup k ((j, v) ∷ m) = if e.beq j k then some v else lookup k m

  abbrev pub remove : K → HashMap K V → HashMap K V
  remove k [] = []
  remove k ((j, v) ∷ m) = let rest = remove k m in if e.beq j k then rest else (j, v) ∷ rest

  abbrev pub insert : K → V → HashMap K V → HashMap K V
  insert k v m = (k, v) ∷ remove k m

  -- `collect` into a map: a later pair replaces an earlier one of its key.
  abbrev pub collect_from : HashMap K V → List (K × V) → HashMap K V
  collect_from m [] = m
  collect_from m ((k, v) ∷ ps) = collect_from (insert k v m) ps

  pub lookup-remove :
      (k j : K) (m : HashMap K V) → lookup j (remove k m) ≡ (if e.beq k j then none else lookup j m)
  lookup-remove k j [] = ground arith
  lookup-remove k j ((i, v) ∷ m) =
      ground (arith, lookup-remove k j m, e.beq_iff i k, e.beq_iff i j, e.beq_iff k j)

  pub lookup-insert :
      (k j : K) (v : V) (m : HashMap K V)
      → lookup j (insert k v m) ≡ (if e.beq k j then some v else lookup j m)
  lookup-insert k j v m = ground (arith, lookup-remove k j m)

-- `iter().map(|(k, v)| (*k, f(v))).collect()`
abbrev pub map_values {ℓ} : {K V W : Type ℓ} → (V → W) → HashMap K V → HashMap K W
map_values f [] = []
map_values f ((k, v) ∷ m) = (k, f v) ∷ map_values f m

abbrev pub map_option {ℓ} : {V W : Type ℓ} → (V → W) → Option V → Option W
map_option f none = none
map_option f (some v) = some (f v)

pub lookup-map_values {ℓ} :
    {K V W : Type ℓ} ⦃e : Eq K⦄ (f : V → W) (k : K) (m : HashMap K V)
    → lookup k (map_values f m) ≡ map_option f (lookup k m)
lookup-map_values f k [] = refl
lookup-map_values ⦃e = e⦄ f k ((j, v) ∷ m) = elim (Bool-cases (e.beq j k)) [
  | inl same ↦ rw same refl
  | inr other ↦ rw other (lookup-map_values f k m)
]
