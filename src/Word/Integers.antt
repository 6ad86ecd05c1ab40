-- ===== src/Word/Integers.antt =====
-- Conversions between words and host integers.
use apollo_rs.Prelude.{ℕ, ◌-◌, ◌<◌, ◌≤◌, ◌≡◌, arith, if◌then◌else◌}
use apollo_rs.Prelude.{◌==◌, ok, err}
use apollo_rs.Prelude.Int.{ℤ, pos, negsuc, abs}
use apollo_rs.Word.{IsWord, from_i32, to_i32_lossy_zero, max_magnitude}
use apollo_rs.Word.{integer_out_of_range, positive_zero, positive, negative_zero, negative}
use apollo_rs.Word.{sign_class}

-- Every integer of at most 14 bits of magnitude is encoded as a word, and read back from it.
pub from_i32-to_i32 :
    (v : ℤ)
    → abs v ≤ max_magnitude
    → (w : ℕ) × (from_i32 v ≡ ok w) × IsWord w × (to_i32_lossy_zero w ≡ v)
unfolding from_i32 to_i32_lossy_zero
from_i32-to_i32 (pos n) h = (n, ground arith, omega arith, ground arith)
from_i32-to_i32 (negsuc n) h = (32766 - n, ground arith, omega arith, ground arith)

-- Every other integer is refused, with the bounds in the error.
pub from_i32_refuses :
    (v : ℤ)
    → max_magnitude < abs v
    → from_i32 v ≡ err (integer_out_of_range v (negsuc 16382) (pos 16383))
unfolding from_i32
from_i32_refuses v h = ground arith

-- Encoding the integer read from a word gives the word back, but positive zero for negative zero.
pub to_i32-from_i32 :
    (w : ℕ) → IsWord w → from_i32 (to_i32_lossy_zero w) ≡ ok (if w == 32767 then 0 else w)
unfolding from_i32 to_i32_lossy_zero
to_i32-from_i32 w h = ground arith

-- The four classes by the integer that a word stands for: its sign, and for zero which of the two.
pub sign_class-value :
    (w : ℕ)
    → IsWord w
    → sign_class w ≡ elim (to_i32_lossy_zero w) [
      | pos n ↦ if n == 0 then if w == 0 then positive_zero else negative_zero else positive
      | negsuc n ↦ negative
    ]
unfolding sign_class to_i32_lossy_zero
sign_class-value w h = ground arith
