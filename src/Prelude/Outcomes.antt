-- ===== src/Prelude/Outcomes.antt =====
-- Rust's `Result<A, E>` together with panics: `panic` is no Rust value but the end of the task, as
-- an index or a slice out of range makes it.
use Prim.Native.Nat.{ℕ, ◌-◌}
use mathlib.Core.Path.{◌≡◌, refl}
use mathlib.Core.Logic.{◌≢◌, ◌⊎◌, inl, inr}
use mathlib.Core.Bool.{Bool, true, false, ◌&&◌}
use mathlib.Core.List.{List}
use mathlib.Core.Option.{Option, none, some}
use cdc_connector.Prelude.Tests.{leb, if◌then◌else◌}
use cdc_connector.Prelude.Lists.{length, take, drop, get_elem?}

pub data Outcome {ℓ} (E : Type 0) (A : Type ℓ) : Type ℓ where
  ok : A → Outcome E A
  err : E → Outcome E A
  panic : Outcome E A

infixl 5 ◌>>=◌ ◌>>◌
abbrev pub ◌>>=◌ {ℓ κ} :
    {E : Type 0} {A : Type ℓ} {B : Type κ} → Outcome E A → (A → Outcome E B) → Outcome E B
ok a >>= f = f a
err e >>= f = err e
panic >>= f = panic

abbrev pub ◌>>◌ {ℓ} : {E : Type 0} {B : Type ℓ} → Outcome E (Unit {0}) → Outcome E B → Outcome E B
m >> k = m >>= λ _. k

-- `if b { return Err(e) }`
abbrev pub fail_if : {E : Type 0} → Bool → E → Outcome E (Unit {0})
fail_if true e = err e
fail_if false e = ok tt

-- `o.ok_or(e)?`
abbrev pub ok_or {ℓ} : {E : Type 0} {A : Type ℓ} → Option A → E → Outcome E A
ok_or none e = err e
ok_or (some a) e = ok a

-- `o.expect("")` and indexing: a panic where there is nothing.
abbrev pub expect {ℓ} : {E : Type 0} {A : Type ℓ} → Option A → Outcome E A
expect none = panic
expect (some a) = ok a

-- `r.expect("")`; what follows may have errors of another type.
abbrev pub expect_ok {ℓ} : {E F : Type 0} {A : Type ℓ} → Outcome E A → Outcome F A
expect_ok (ok a) = ok a
expect_ok (err e) = panic
expect_ok panic = panic

-- `data[i]`
abbrev pub index {ℓ} : {E : Type 0} {A : Type ℓ} → List A → ℕ → Outcome E A
index xs i = expect (get_elem? xs i)

-- `&data[a..]`
abbrev pub slice_from {ℓ} : {E : Type 0} {A : Type ℓ} → List A → ℕ → Outcome E (List A)
slice_from xs a = if leb a (length xs) then ok (drop a xs) else panic

-- `&data[a..b]`
abbrev pub slice {ℓ} : {E : Type 0} {A : Type ℓ} → List A → ℕ → ℕ → Outcome E (List A)
slice xs a b = if leb a b && leb b (length xs) then ok (take (b - a) (drop a xs)) else panic

-- A chain that succeeds has a first part that does.
pub >>=-eq-ok {ℓ κ} :
    {E : Type 0} {X : Type ℓ} {Y : Type κ} {y : Y} (first : Outcome E X) (next : X → Outcome E Y)
    → (first >>= next) ≡ ok y
    → (x : X) × (first ≡ ok x) × (next x ≡ ok y)
>>=-eq-ok panic next e = cc
>>=-eq-ok (err x) next e = cc
>>=-eq-ok (ok x) next e = (x, refl, e)

-- To split on a computed result and keep the equation.
pub data Cases {ℓ} {E : Type 0} {A : Type ℓ} (r : Outcome E A) : Type ℓ where
  is_ok : (a : A) → r ≡ ok a → Cases r
  is_err : (e : E) → r ≡ err e → Cases r
  is_panic : r ≡ panic → Cases r

pub Outcome-Cases {ℓ} : {E : Type 0} {A : Type ℓ} (r : Outcome E A) → Cases r
Outcome-Cases (ok a) = is_ok a refl
Outcome-Cases (err e) = is_err e refl
Outcome-Cases panic = is_panic refl

-- A chain without a panic.
pub >>=-ne-panic {ℓ κ} :
    {E : Type 0} {X : Type ℓ} {Y : Type κ} (first : Outcome E X) (next : X → Outcome E Y)
    → first ≢ panic
    → ((x : X) → next x ≢ panic)
    → (first >>= next) ≢ panic
>>=-ne-panic (ok x) next h g = g x
>>=-ne-panic (err e) next h g = λ p. cc
>>=-ne-panic panic next h g = absurd (h refl)

pub ok-ne-panic {ℓ} : {E : Type 0} {X : Type ℓ} (x : X) → ◌≢◌ {A = Outcome E X} (ok x) panic
ok-ne-panic x e = cc

-- To split on a computed option or sum and keep the equation.
pub option_cases {ℓ} : {A : Type ℓ} (o : Option A) → (o ≡ none) ⊎ ((a : A) × (o ≡ some a))
option_cases none = inl refl
option_cases (some a) = inr (a, refl)

pub sum_cases {ℓ κ} :
    {A : Type ℓ} {B : Type κ} (o : A ⊎ B) → ((a : A) × (o ≡ inl a)) ⊎ ((b : B) × (o ≡ inr b))
sum_cases (inl a) = inl (a, refl)
sum_cases (inr b) = inr (b, refl)
