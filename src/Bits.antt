-- ===== src/Bits.antt =====
-- The bit operations of the crates on unsigned integers: shifts, masks, single bits, and `!`.
-- `x >> k` and `x & (2 ^ k - 1)` are written as quotient and remainder; the lemmas below tie these
-- forms to the native bit operations.
mod Step
use Step.{bit_or_step, bit_and_step, differ-lt}
pub use Step.{bit_xor_step}
use Prim.Native.Nat.{bit_or-bitwise, bit_xor-bitwise}
use native.Mathlib.Nat.{pow-suc, one-le-pow, div-div-eq-div-mul}
use apollo_rs.Prelude.{
  ℕ, zero, suc, ◌+◌, ◌-◌, ◌*◌, ◌/◌, ◌%◌, ◌^◌, ◌≤◌, ◌<◌, bit_and, bit_or, bit_xor,
}
use apollo_rs.Prelude.{◌≡◌, refl, ap, Bool, arith, ◌==◌, if◌then◌else◌}

-- `x >> k`.
abbrev pub shr : ℕ → ℕ → ℕ
shr x k = x / 2 ^ k

-- `x << k`, before the width cuts it.
abbrev pub shl : ℕ → ℕ → ℕ
shl x k = x * 2 ^ k

-- `x & (2 ^ k - 1)`; also the cast `as` to an unsigned type of k bits.
abbrev pub low_bits : ℕ → ℕ → ℕ
low_bits x k = x % 2 ^ k

-- `x & (2 ^ k) != 0`.
abbrev pub bit_is_set : ℕ → ℕ → Bool
bit_is_set x k = x / 2 ^ k % 2 == 1

-- `x | 2 ^ k`.
abbrev pub set_bit : ℕ → ℕ → ℕ
set_bit x k = if bit_is_set x k then x else x + 2 ^ k

-- `x & mask` for a mask of `width` ones above `lo` zeros.
abbrev pub field : ℕ → ℕ → ℕ → ℕ
field x lo width = x / 2 ^ lo % 2 ^ width * 2 ^ lo

-- `!x` on a `u16`.
abbrev pub not16 : ℕ → ℕ
not16 x = 65535 - x

-- A right zero, by strong descent on the digits.
bit_or-zero : (n a : ℕ) → a ≤ n → bit_or a 0 ≡ a
bit_or-zero n zero h = refl
bit_or-zero zero (suc a) h = absurd (omega arith)
bit_or-zero (suc n) (suc a) h =
    omega (arith, bit_or_step (suc a) 0, bit_or-zero n (suc a / 2) (omega arith))

bit_and-zero : (n a : ℕ) → a ≤ n → bit_and a 0 ≡ 0
bit_and-zero n zero h = refl
bit_and-zero zero (suc a) h = absurd (omega arith)
bit_and-zero (suc n) (suc a) h =
    omega (arith, bit_and_step (suc a) 0, bit_and-zero n (suc a / 2) (omega arith))

pub zero-bit_or : (b : ℕ) → bit_or 0 b ≡ b
zero-bit_or b = bit_or-bitwise 0 b

mul-two_pow : (q k : ℕ) → q * 2 ^ suc k ≡ 2 * (q * 2 ^ k)
mul-two_pow q k = omega (arith, ap (λ (t : ℕ). q * t) (pow-suc 2 k))

-- Joining a field with the digits below it adds them.
pub bit_or-fields : (k q r : ℕ) → r < 2 ^ k → bit_or (shl q k) r ≡ q * 2 ^ k + r
bit_or-fields zero q r h = ground (arith, bit_or-zero q q)
bit_or-fields (suc k) q r h =
    ground (
      arith,
      bit_or_step (q * 2 ^ suc k) r,
      mul-two_pow q k,
      bit_or-fields k q (r / 2) (omega arith),
    )

bit_and-fields : (k q r : ℕ) → r < 2 ^ k → bit_and (q * 2 ^ k + r) (2 ^ k - 1) ≡ r
bit_and-fields zero q r h = ground (arith, bit_and-zero (q * 1 + r) (q * 1 + r) (omega arith))
bit_and-fields (suc k) q r h = ground (
  arith,
  bit_and_step (q * 2 ^ suc k + r) (2 ^ suc k - 1),
  mul-two_pow q k,
  pow-suc 2 k,
  bit_and-fields k q (r / 2) (omega arith),
)

-- A mask of `k` ones keeps the remainder.
pub bit_and-low_bits : (k a : ℕ) → bit_and a (2 ^ k - 1) ≡ low_bits a k
bit_and-low_bits k a = ground (arith, one-le-pow k 2, bit_and-fields k (a / 2 ^ k) (a % 2 ^ k))

-- `&` and `|` of numbers of `k` digits have `k` digits.
pub bit_and-lt : (k a b : ℕ) → b < 2 ^ k → bit_and a b < 2 ^ k
bit_and-lt zero a b h =
    let e : b ≡ 0 = omega arith in rw (e, bit_and-zero a a (omega arith)) (omega arith)
bit_and-lt (suc k) a b h =
    let half : b / 2 < 2 ^ k = omega (arith, pow-suc 2 k) in
    omega (arith, bit_and_step a b, pow-suc 2 k, bit_and-lt k (a / 2) (b / 2) half)

pub bit_or-lt : (k a b : ℕ) → a < 2 ^ k → b < 2 ^ k → bit_or a b < 2 ^ k
bit_or-lt zero a b ha hb =
    let e : b ≡ 0 = omega arith in rw (e, bit_or-zero a a (omega arith)) (omega arith)
bit_or-lt (suc k) a b ha hb =
    let left : a / 2 < 2 ^ k = omega (arith, pow-suc 2 k) in
    let right : b / 2 < 2 ^ k = omega (arith, pow-suc 2 k) in
    omega (arith, bit_or_step a b, pow-suc 2 k, bit_or-lt k (a / 2) (b / 2) left right)

pub zero-bit_xor : (b : ℕ) → bit_xor 0 b ≡ b
zero-bit_xor b = bit_xor-bitwise 0 b

pub bit_xor-lt : (k a b : ℕ) → a < 2 ^ k → b < 2 ^ k → bit_xor a b < 2 ^ k
bit_xor-lt zero a b ha hb = let e : a ≡ 0 = omega arith in rw (e, zero-bit_xor b) hb
bit_xor-lt (suc k) a b ha hb =
    let left : a / 2 < 2 ^ k = omega (arith, pow-suc 2 k) in
    let right : b / 2 < 2 ^ k = omega (arith, pow-suc 2 k) in
    omega (
      arith,
      bit_xor_step a b,
      differ-lt (a % 2) (b % 2) (omega arith) (omega arith),
      pow-suc 2 k,
      bit_xor-lt k (a / 2) (b / 2) left right,
    )

bit_or_comm-fuel : (n a b : ℕ) → a ≤ n → b ≤ n → bit_or a b ≡ bit_or b a
bit_or_comm-fuel zero zero zero ha hb = refl
bit_or_comm-fuel zero zero (suc b) ha hb = absurd (omega arith)
bit_or_comm-fuel zero (suc a) b ha hb = absurd (omega arith)
bit_or_comm-fuel (suc n) a b ha hb = omega (
  arith,
  bit_or_step a b,
  bit_or_step b a,
  bit_or_comm-fuel n (a / 2) (b / 2) (omega arith) (omega arith),
)

pub bit_or_comm : (a b : ℕ) → bit_or a b ≡ bit_or b a
bit_or_comm a b = bit_or_comm-fuel (a + b) a b (omega arith) (omega arith)

-- A mask of `width` ones above `lo` zeros keeps a field in its place.
pub bit_and-field : (lo width x : ℕ) → bit_and x ((2 ^ width - 1) * 2 ^ lo) ≡ field x lo width
bit_and-field zero width x =
    let e : (2 ^ width - 1) * 2 ^ 0 ≡ 2 ^ width - 1 = omega arith in
    let d : x / 2 ^ 0 ≡ x = omega arith in rw (e, d) (omega (arith, bit_and-low_bits width x))
bit_and-field (suc lo) width x = ground (
  arith,
  bit_and_step x ((2 ^ width - 1) * 2 ^ suc lo),
  mul-two_pow (2 ^ width - 1) lo,
  mul-two_pow (x / 2 ^ suc lo % 2 ^ width) lo,
  bit_and-field lo width (x / 2),
  div-div-eq-div-mul x 2 (2 ^ lo),
  pow-suc 2 lo,
)
