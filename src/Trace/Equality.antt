-- ===== src/Trace/Equality.antt =====
-- crates/agc-trace/src/lib.rs, the `PartialEq` of the events, and `TraceLog::first_difference`. The
-- text of a mnemonic is compared as its label, since different labels have different texts.
use apollo_rs.Prelude.{
  ℕ, ◌+◌, ◌≡◌, refl, arith, ap, sym, Bool-cases, inl, inr, ◌∙◌, ◌↔◌, ◌&&◌, Bool, true, false, List,
  [], ◌∷◌, Option, some, none, if◌then◌else◌,
}
use native.Mathlib.Decide.{ℕ_discrete}
use apollo_rs.Trace.{RegisterSnapshot, MemoryEvent, IoEvent, InterruptEvent, Label, TraceEvent}

pub RegisterSnapshot-discrete : Discrete RegisterSnapshot
RegisterSnapshot-discrete = hlevel ℕ_discrete

pub MemoryEvent-discrete : Discrete MemoryEvent
MemoryEvent-discrete = hlevel ℕ_discrete

pub IoEvent-discrete : Discrete IoEvent
IoEvent-discrete = hlevel ℕ_discrete

pub InterruptEvent-discrete : Discrete InterruptEvent
InterruptEvent-discrete = hlevel ℕ_discrete

pub Label-discrete : Discrete Label
Label-discrete = hlevel

pub TraceEvent-discrete : Discrete TraceEvent
TraceEvent-discrete = hlevel ℕ_discrete

-- The equality of lists, by that of their elements.
unfoldable pub same_all {ℓ} : {A : Type ℓ} → (A → A → Bool) → List A → List A → Bool
same_all same [] [] = true
same_all same [] (y ∷ ys) = false
same_all same (x ∷ xs) [] = false
same_all same (x ∷ xs) (y ∷ ys) = same x y && same_all same xs ys

abbrev pub decided {ℓ} : {A : Type ℓ} → Discrete A → A → A → Bool
decided dec x y = elim (dec x y) [ yes e ↦ true | no n ↦ false ]

pub decided_iff {ℓ} : {A : Type ℓ} (dec : Discrete A) (x y : A) → (decided dec x y ≡ true) ↔ (x ≡ y)
decided_iff dec x y =
    elim (dec x y)
      as (λ d. (◌≡◌ {A = Bool} (elim d [ yes e ↦ true | no n ↦ false ]) true) ↔ (x ≡ y)) [
        | yes e ↦ (λ _. e, λ _. refl)
        | no n ↦ (λ h. absurd (let clash : false ≡ true = h in ground arith), λ e. absurd (n e))
      ]

pub same_all_iff {ℓ} :
    {A : Type ℓ} (same : A → A → Bool)
    → ((x y : A) → (same x y ≡ true) ↔ (x ≡ y))
    → (xs ys : List A) → (same_all same xs ys ≡ true) ↔ (xs ≡ ys)
unfolding same_all
same_all_iff same h [] [] = (λ _. refl, λ _. refl)
same_all_iff same h [] (y ∷ ys) = (λ e. ground arith, λ e. ground arith)
same_all_iff same h (x ∷ xs) [] = (λ e. ground arith, λ e. ground arith)
same_all_iff same h (x ∷ xs) (y ∷ ys) =
    let first = h x y in
    let rest = same_all_iff same h xs ys in
    (
      λ e. ap (λ a. a ∷ xs) (first.0 (ground arith)) ∙ ap (λ b. y ∷ b) (rest.0 (ground arith)),
      λ e. ground (arith, first, rest),
    )

pub record TraceDifference : Type 0 where
  pub index : ℕ
  pub left : Option TraceEvent
  pub right : Option TraceEvent

-- The loop over the shared indices, and the test of the lengths behind it.
unfoldable pub first_difference_from :
    ℕ → List TraceEvent → List TraceEvent → Option TraceDifference
first_difference_from index [] [] = none
first_difference_from index [] (r ∷ rs) =
    some (record { index = index; left = none; right = some r })
first_difference_from index (l ∷ ls) [] =
    some (record { index = index; left = some l; right = none })
first_difference_from index (l ∷ ls) (r ∷ rs) =
    if decided TraceEvent-discrete l r
    then first_difference_from (index + 1) ls rs
    else some (record { index = index; left = some l; right = some r })

unfoldable pub first_difference : List TraceEvent → List TraceEvent → Option TraceDifference
unfolding first_difference_from
first_difference ls rs = first_difference_from 0 ls rs

first_difference_from-none :
    (index : ℕ) (ls rs : List TraceEvent) → (first_difference_from index ls rs ≡ none) ↔ (ls ≡ rs)
unfolding first_difference_from
first_difference_from-none index [] [] = (λ _. refl, λ _. refl)
first_difference_from-none index [] (r ∷ rs) = (λ e. ground arith, λ e. ground arith)
first_difference_from-none index (l ∷ ls) [] = (λ e. ground arith, λ e. ground arith)
first_difference_from-none index (l ∷ ls) (r ∷ rs) =
    let event = decided_iff TraceEvent-discrete l r in
    let rest = first_difference_from-none (index + 1) ls rs in
    elim (Bool-cases (decided TraceEvent-discrete l r)) [
      | inl e ↦ (
        λ h. ap (λ a. a ∷ ls) (event.0 e) ∙ ap (λ b. r ∷ b) (rest.0 (ground (arith, e, h))),
        λ h. ground (arith, e, rest.1 (ground (arith, h))),
      )
      | inr e ↦ (
        λ h. absurd (ground (arith, e, h)),
        λ h.
            absurd (let clash : false ≡ true = sym e ∙ event.1 (ground (arith, h)) in ground arith),
      )
    ]

-- Two traces have no first difference exactly when they are equal.
pub first_difference-none : (ls rs : List TraceEvent) → (first_difference ls rs ≡ none) ↔ (ls ≡ rs)
unfolding first_difference
first_difference-none ls rs = first_difference_from-none 0 ls rs
