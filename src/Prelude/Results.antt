-- ===== src/Prelude/Results.antt =====
-- Results, and case splits on options that keep an equation.
use mathlib.Core.Path.{◌≡◌, refl}
use mathlib.Core.Logic.{◌⊎◌, inl, inr}
use mathlib.Core.Option.{Option, none, some}

-- `Result<A, E>` and the `?` operator on it.
pub data Result {ℓ κ} (E : Type ℓ) (A : Type κ) : Type (ℓ ⊔ κ) where
  ok : A → Result E A
  err : E → Result E A

abbrev pub bind_ok {ℓ κ μ} :
    {E : Type ℓ} {A : Type κ} {B : Type μ} → Result E A → (A → Result E B) → Result E B
bind_ok (ok a) f = f a
bind_ok (err e) f = err e

-- `map_err`.
abbrev pub map_err {ℓ κ μ} :
    {E : Type ℓ} {F : Type κ} {A : Type μ} → (E → F) → Result E A → Result F A
map_err f (ok a) = ok a
map_err f (err e) = err (f e)

-- `P` holds of the value of a result, if it has one.
abbrev pub IfOk {ℓ κ μ} : {E : Type ℓ} {A : Type κ} → (A → Type μ) → Result E A → Type μ
IfOk P (ok a) = P a
IfOk P (err e) = Unit

module _ {ℓ κ μ ν ξ} {E : Type ℓ} {A : Type κ} {B : Type μ} where
  pub IfOk-bind :
      (Q : A → Type ν) (P : B → Type ξ) (r : Result E A) (f : A → Result E B)
      → IfOk Q r
      → ((a : A) → Q a → IfOk P (f a))
      → IfOk P (bind_ok r f)
  IfOk-bind Q P (ok a) f h k = k a h
  IfOk-bind Q P (err e) f h k = tt

pub IfOk-trivial {ℓ κ} : {E : Type ℓ} {A : Type κ} (r : Result E A) → IfOk (λ _. Unit {0}) r
IfOk-trivial (ok a) = tt
IfOk-trivial (err e) = tt

-- A property of what is made of either kind of result.
pub result_cases {ℓ κ μ ν} :
    {E : Type ℓ} {A : Type κ} {B : Type μ} (P : B → Type ν) (r : Result E A) (f : A → B) (g : E → B)
    → ((a : A) → r ≡ ok a → P (f a))
    → ((e : E) → r ≡ err e → P (g e))
    → P (elim r [ ok a ↦ f a | err e ↦ g e ])
result_cases P (ok a) f g h k = h a refl
result_cases P (err e) f g h k = k e refl

pub Option-cases {ℓ} : {A : Type ℓ} (o : Option A) → (o ≡ none) ⊎ ((a : A) × (o ≡ some a))
Option-cases none = inl refl
Option-cases (some a) = inr (a, refl)

pub Result-cases {ℓ κ} :
    {E : Type ℓ} {A : Type κ} (r : Result E A) → ((e : E) × (r ≡ err e)) ⊎ ((a : A) × (r ≡ ok a))
Result-cases (ok a) = inr (a, refl)
Result-cases (err e) = inl (e, refl)
