-- ===== src/Rope/Parity.antt =====
-- crates/agc-loader/src/lib.rs: what the parity of a word catches.
use Prim.Native.Nat.{differ}
use native.Mathlib.Nat.{pow-suc}
use apollo_rs.Prelude.{
  ℕ, zero, suc, ◌+◌, ◌-◌, ◌/◌, ◌%◌, ◌^◌, ◌<◌, ◌≡◌, refl, arith, bit_xor, ok, err, ◌⊎◌,
}
use apollo_rs.Bits.{bit_xor_step, zero-bit_xor}
use apollo_rs.Rope.Bytes.{parity}
use apollo_rs.Rope.Image.{
  RopeFormat, yayul, yayul_parity, hardware, physical_words, count_ones, word_data,
}

differ-one : (b : ℕ) → b < 2 → differ 1 b ≡ 1 - b
differ-one zero h = refl
differ-one (suc zero) h = refl
differ-one (suc (suc b)) h = absurd (omega arith)

-- Flipping one digit changes the number of ones by one.
count_ones-flip :
    (n k raw : ℕ) → k < n → count_ones n (bit_xor (2 ^ k) raw) % 2 ≡ (count_ones n raw + 1) % 2
unfolding count_ones
count_ones-flip zero k raw h = absurd (omega arith)
count_ones-flip (suc n) zero raw h =
    let half : bit_xor 1 raw / 2 ≡ raw / 2 =
      omega
        (arith, bit_xor_step 1 raw, zero-bit_xor (raw / 2), differ-one (raw % 2) (omega arith)) in
    rw half (
      omega (arith, bit_xor_step 1 raw, zero-bit_xor (raw / 2), differ-one (raw % 2) (omega arith)))
count_ones-flip (suc n) (suc k) raw h =
    let even : 2 ^ suc k % 2 ≡ 0 = omega (arith, pow-suc 2 k) in
    let halved : 2 ^ suc k / 2 ≡ 2 ^ k = omega (arith, pow-suc 2 k) in
    let digits = rw (even, halved) at (bit_xor_step (2 ^ suc k) raw) in
    let half : bit_xor (2 ^ suc k) raw / 2 ≡ bit_xor (2 ^ k) (raw / 2) = omega (arith, digits) in
    rw half (omega (arith, digits, count_ones-flip n k (raw / 2) (omega arith)))

-- In both formats that carry a parity, a word that is accepted is refused once one of its sixteen
-- bits is flipped, with its index and the flipped word in the error.
pub word_data-flip :
    (format : RopeFormat) (index k raw : ℕ) {w : ℕ × ℕ}
    → (format ≡ yayul_parity) ⊎ (format ≡ hardware)
    → k < 16
    → word_data format index raw ≡ ok w
    → word_data format index (bit_xor (2 ^ k) raw) ≡ err (parity index (bit_xor (2 ^ k) raw))
unfolding word_data
word_data-flip yayul_parity index k raw f h e = ground (arith, count_ones-flip 16 k raw h)
word_data-flip hardware index k raw f h e = ground (arith, count_ones-flip 16 k raw h)
word_data-flip yayul index k raw f h e = ground arith
word_data-flip physical_words index k raw f h e = ground arith
