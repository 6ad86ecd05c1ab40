-- ===== src/Register/Laws.antt =====
-- The register against the word: widening loses nothing, and adding in sixteen bits is adding in
-- fifteen with the overflow kept in the two sign bits.
use apollo_rs.Prelude.{ℕ, ◌≡◌, arith}
use apollo_rs.Prelude.{Bool, true, false}
use apollo_rs.Word.{
  IsWord, IsRegister, sign_extend, overflowing_add, Overflow, no_overflow, positive_overflow,
  negative_overflow,
}
use apollo_rs.Register.{overflow_correct, has_overflow, wrapping_add}

pub sign_extend-IsRegister : (w : ℕ) → IsWord w → IsRegister (sign_extend w)
unfolding sign_extend
sign_extend-IsRegister w h = ground arith

pub overflow_correct-IsWord : (r : ℕ) → IsWord (overflow_correct r)
unfolding overflow_correct
overflow_correct-IsWord r = omega arith

pub wrapping_add-IsRegister : (a b : ℕ) → IsRegister (wrapping_add a b)
unfolding wrapping_add
wrapping_add-IsRegister a b = omega arith

-- A word widened to a register shows no overflow, and is read back unchanged.
pub overflow_correct-sign_extend :
    (w : ℕ)
    → IsWord w
    → (overflow_correct (sign_extend w) ≡ w) × (has_overflow (sign_extend w) ≡ false)
unfolding overflow_correct has_overflow sign_extend
overflow_correct-sign_extend w h = ground arith

-- A register without overflow is the widening of the word that it is read as.
pub sign_extend-overflow_correct :
    (r : ℕ) → IsRegister r → has_overflow r ≡ false → sign_extend (overflow_correct r) ≡ r
unfolding overflow_correct has_overflow sign_extend
sign_extend-overflow_correct r h e = ground arith

abbrev pub is_overflow : Overflow → Bool
is_overflow no_overflow = false
is_overflow positive_overflow = true
is_overflow negative_overflow = true

-- The sixteen-bit sum of two words shows an overflow exactly when the fifteen-bit sum reports one.
pub has_overflow-wrapping_add :
    (a b : ℕ)
    → IsWord a
    → IsWord b
    → has_overflow (wrapping_add (sign_extend a) (sign_extend b))
      ≡ is_overflow (overflowing_add a b).overflow
unfolding has_overflow wrapping_add sign_extend overflowing_add
has_overflow-wrapping_add a b ha hb = ground arith

-- When the fifteen-bit sum of two words reports no overflow, the sixteen-bit sum of the widened
-- words reads as the same word.
pub overflow_correct-wrapping_add :
    (a b : ℕ)
    → IsWord a
    → IsWord b
    → (overflowing_add a b).overflow ≡ no_overflow
    → overflow_correct (wrapping_add (sign_extend a) (sign_extend b)) ≡ (overflowing_add a b).value
unfolding overflow_correct wrapping_add sign_extend overflowing_add
overflow_correct-wrapping_add a b ha hb e = ground arith
