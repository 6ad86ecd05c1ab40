-- ===== src/Memory/Edit.antt =====
-- The four edit registers: the rotations and shifts that a write applies.
use apollo_rs.Prelude.{ℕ, suc, ◌+◌, ◌*◌, ◌/◌, ◌%◌, ◌≡◌, arith}
use apollo_rs.Prelude.Int.{pos, negsuc, neg}
use apollo_rs.Bits.{shr, shl, low_bits, bit_or-fields, bit_or_comm}
use apollo_rs.Word.{IsWord, to_i32_lossy_zero}
use apollo_rs.Memory.Store.{rotate_right, rotate_left, shift_right}

-- The rotations as arithmetic: the bit that leaves at one end enters at the other.
pub rotate_right-value : (w : ℕ) → IsWord w → rotate_right w ≡ w % 2 * 16384 + w / 2
unfolding rotate_right
rotate_right-value w h = omega (
  arith,
  bit_or_comm (shr w 1) (shl (low_bits w 1) 14),
  bit_or-fields 14 (w % 2) (w / 2) (omega arith),
)

pub rotate_left-value : (w : ℕ) → IsWord w → rotate_left w ≡ w % 16384 * 2 + w / 16384
unfolding rotate_left
rotate_left-value w h =
    let no_cut : low_bits (shl w 1) 16 ≡ shl w 1 = omega arith in
    rw no_cut (omega (arith, bit_or-fields 1 w (w / 16384 % 2) (omega arith)))

-- Rotating left undoes rotating right, and the other way round, on every word.
pub rotate_left-rotate_right :
    (w : ℕ) → IsWord w → (rotate_left (rotate_right w) ≡ w) × (rotate_right (rotate_left w) ≡ w)
rotate_left-rotate_right w h =
    let r = rotate_right-value w h in
    let l = rotate_left-value w h in
    (
      omega (arith, r, rotate_left-value (rotate_right w) (omega arith)),
      omega (arith, l, rotate_right-value (rotate_left w) (omega arith)),
    )

-- Shifting right halves the integer that a word stands for, towards zero.
pub shift_right-halves :
    (w : ℕ)
    → IsWord w
    → to_i32_lossy_zero (shift_right w)
      ≡ elim (to_i32_lossy_zero w) [ pos n ↦ pos (n / 2) | negsuc n ↦ neg (suc n / 2) ]
unfolding shift_right to_i32_lossy_zero
shift_right-halves w h = ground arith
