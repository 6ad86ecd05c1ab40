-- ===== src/Interpreter/Root.antt =====
-- crates/agc-interpreter/src/lib.rs, `integer_sqrt`: Newton's iteration from above.
use apollo_rs.Prelude.{
  ℕ, zero, suc, ◌+◌, ◌-◌, ◌*◌, ◌/◌, ◌<◌, ◌≤◌, ◌≡◌, refl, arith, false, Bool-cases, inl, inr, ltb,
  leb, if◌then◌else◌, Option, none, some,
}
use native.Mathlib.Nat.{mul-div-le, lt-mul-div-succ, mul-le-mul}

-- `u64::midpoint(current, value / current)`.
unfoldable pub midpoint_of : ℕ → ℕ → ℕ
midpoint_of value current = (current + value / current) / 2

-- The loop, on fuel: it goes on while the next number is smaller.
unfoldable pub sqrt_loop : ℕ → ℕ → ℕ → Option ℕ
unfolding midpoint_of
sqrt_loop zero value current = none
sqrt_loop (suc fuel) value current =
    let next = midpoint_of value current in
    let rest = sqrt_loop fuel value next in if ltb next current then rest else some current

unfoldable pub integer_sqrt : ℕ → Option ℕ
unfolding sqrt_loop
integer_sqrt value = if ltb value 2 then some value else sqrt_loop (value + 1) value value

-- A mean of two numbers is not below the root of their product.
four_products : (a b : ℕ) → 4 * (a * b) ≤ (a + b) * (a + b)
four_products a b = elim (Bool-cases (leb a b)) [
  | inl h ↦ let d = b - a in let e : b ≡ a + d = ground (arith, h) in rw e (ordered a d)
  | inr h ↦ let d = a - b in let e : a ≡ b + d = ground (arith, h) in rw e (ordered_back b d)
]
  where
    ordered : (x d : ℕ) → 4 * (x * (x + d)) ≤ (x + (x + d)) * (x + (x + d))
    ordered x d = grind arith

    ordered_back : (x d : ℕ) → 4 * ((x + d) * x) ≤ (x + d + x) * (x + d + x)
    ordered_back x d = grind arith

-- The next number is above the root, by less than one at most.
midpoint-above :
    (value current : ℕ)
    → 0 < current
    → value < (midpoint_of value current + 1) * (midpoint_of value current + 1)
unfolding midpoint_of
midpoint-above value current h =
    let q = value / current in
    let m = (current + q) / 2 in
    let under : value < current * (q + 1) = lt-mul-div-succ value h in
    let wide : current + (q + 1) ≤ 2 * (m + 1) = omega arith in
    let squares : (current + (q + 1)) * (current + (q + 1)) ≤ (2 * (m + 1)) * (2 * (m + 1)) =
      mul-le-mul wide wide in
    omega (arith, four_products current (q + 1), squares, under)

-- The result is the root rounded down.
abbrev pub IsRoot : ℕ → ℕ → Type 0
IsRoot value r = (r * r ≤ value) × (value < (r + 1) * (r + 1))

root_found :
    (value current : ℕ)
    → ltb (midpoint_of value current) current ≡ false
    → current * current ≤ value
unfolding midpoint_of
root_found value current e =
    let wide : current ≤ value / current = ground (arith, e) in
    omega (arith, mul-div-le value current, mul-le-mul (le_self current) wide)
  where
    le_self : (x : ℕ) → x ≤ x
    le_self x = omega arith

sqrt_loop-IsRoot :
    (fuel value current : ℕ)
    → 0 < value
    → 0 < current
    → current < fuel
    → value < (current + 1) * (current + 1)
    → (r : ℕ) × (sqrt_loop fuel value current ≡ some r) × IsRoot value r
unfolding sqrt_loop
sqrt_loop-IsRoot zero value current v h f above = absurd (omega arith)
sqrt_loop-IsRoot (suc fuel) value current v h f above =
    elim (Bool-cases (ltb (midpoint_of value current) current)) [
      | inl e ↦
          let less : midpoint_of value current < current = ground (arith, e) in
          let over = midpoint-above value current h in
          let positive : 0 < midpoint_of value current = grind (arith, over, v) in
          rw e (
            sqrt_loop-IsRoot fuel value (midpoint_of value current) v positive
              (omega (arith, less, f)) over)
      | inr e ↦ rw e (current, refl, (root_found value current e, above))
    ]

small-IsRoot : (value : ℕ) → value < 2 → IsRoot value value
small-IsRoot zero h = (omega arith, omega arith)
small-IsRoot (suc zero) h = (omega arith, omega arith)
small-IsRoot (suc (suc n)) h = absurd (omega arith)

-- The loop ends, and the result is the root of every number, rounded down.
pub integer_sqrt-IsRoot : (value : ℕ) → (r : ℕ) × (integer_sqrt value ≡ some r) × IsRoot value r
unfolding integer_sqrt
integer_sqrt-IsRoot value = elim (Bool-cases (ltb value 2)) [
  | inl e ↦ rw e (value, refl, small-IsRoot value (ground (arith, e)))
  | inr e ↦
      let large : 2 ≤ value = ground (arith, e) in
      rw e (
        sqrt_loop-IsRoot (value + 1) value value (omega (arith, large)) (omega (arith, large))
          (omega arith) (grind arith))
]
