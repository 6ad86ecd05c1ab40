-- ===== src/Bits/Step.antt =====
-- The lowest digit of `bit_and` and `bit_or`. The native operations mean `bitwise`, a recursion on
-- digits whose count of rounds is the first number.
use Prim.Native.Nat.{
  max, min, differ, bit_and-bitwise, bit_or-bitwise, bit_xor-bitwise, bitwise, digits,
}
use apollo_rs.Prelude.{
  arith, refl, ◌≡◌, bit_or, bit_and, bit_xor, ◌<◌, ℕ, suc, zero, ◌+◌, ◌*◌, ◌%◌, ◌/◌, ◌≤◌,
}

-- Any two counts of rounds that reach the size of the first number give the same.
same_rounds :
    (g : ℕ → ℕ → ℕ) (end : ℕ → ℕ) (x y few many : ℕ)
    → (x ≤ few) × (x ≤ many)
    → digits end g many x y ≡ digits end g few x y
same_rounds g end zero y zero zero le = refl
same_rounds g end zero y zero (suc many) le = refl
same_rounds g end zero y (suc few) zero le = refl
same_rounds g end zero y (suc few) (suc many) le = refl
same_rounds g end (suc x) y zero many le = absurd (omega arith)
same_rounds g end (suc x) y few zero le = absurd (omega arith)
same_rounds g end (suc x) y (suc few) (suc many) le =
    rw (same_rounds g end (suc x / 2) (y / 2) few many (omega arith)) refl

-- One round of `bitwise` splits off the lowest digits.
lowest_digit :
    (g : ℕ → ℕ → ℕ) (end : ℕ → ℕ) (x y : ℕ)
    → g (suc x % 2) (y % 2) + 2 * bitwise end g (suc x / 2) (y / 2) ≡ bitwise end g (suc x) y
lowest_digit g end x y =
    let half = suc x / 2 in omega (arith, same_rounds g end half (y / 2) half x (omega arith))

pub bit_and_step : (x y : ℕ) → bit_and x y ≡ bit_and (x / 2) (y / 2) * 2 + min (x % 2) (y % 2)
bit_and_step zero y = simp bit_and-bitwise (omega arith)
bit_and_step (suc x) y = simp bit_and-bitwise (omega (arith, lowest_digit min (λ d. 0) x y))

pub bit_or_step : (x y : ℕ) → bit_or x y ≡ bit_or (x / 2) (y / 2) * 2 + max (x % 2) (y % 2)
bit_or_step zero y = simp bit_or-bitwise (omega arith)
bit_or_step (suc x) y = simp bit_or-bitwise (omega (arith, lowest_digit max (λ d. d) x y))

pub bit_xor_step : (x y : ℕ) → bit_xor x y ≡ bit_xor (x / 2) (y / 2) * 2 + differ (x % 2) (y % 2)
bit_xor_step zero y = simp bit_xor-bitwise (omega arith)
bit_xor_step (suc x) y = simp bit_xor-bitwise (omega (arith, lowest_digit differ (λ d. d) x y))

pub differ-lt : (x y : ℕ) → x < 2 → y < 2 → differ x y < 2
differ-lt zero y h k = k
differ-lt (suc x) zero h k = h
differ-lt (suc zero) (suc y) h k = omega arith
differ-lt (suc (suc x)) (suc y) h k = absurd (omega arith)
