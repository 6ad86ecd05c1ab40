-- ===== src/Word/Sum.antt =====
-- End-around carry: addition of words as arithmetic of one's-complement numbers.
use apollo_rs.Prelude.{ℕ, ◌+◌, ◌-◌, ◌*◌, ◌/◌, ◌≡◌, arith, ltb, if◌then◌else◌}
use apollo_rs.Prelude.{◌==◌}
use apollo_rs.Prelude.Int.{ℤ, pos, negsuc, ◌+ℤ◌, pos_part, neg_part, +ℤ_parts, eq_of_parts}
use apollo_rs.Word.{IsWord, Overflow, no_overflow, positive_overflow, negative_overflow}
use apollo_rs.Word.{overflowing_add, wrapping_add, wrapping_sub, complement, to_i32_lossy_zero}

-- The sum with its carry folded back: 32768 counts as 1.
abbrev pub fold : ℕ → ℕ
fold s = if ltb s 32768 then s else s - 32767

pub wrapping_add-eq-fold : (a b : ℕ) → IsWord a → IsWord b → wrapping_add a b ≡ fold (a + b)
unfolding wrapping_add
wrapping_add-eq-fold a b ha hb = ground arith

pub overflowing_add-IsWord : (a b : ℕ) → IsWord (overflowing_add a b).value
unfolding overflowing_add
overflowing_add-IsWord a b = omega arith

pub wrapping_add-IsWord : (a b : ℕ) → IsWord (wrapping_add a b)
unfolding wrapping_add
wrapping_add-IsWord a b = omega arith

-- What the overflow flag says that the returned word lacks.
abbrev pub missing : Overflow → ℤ
missing no_overflow = pos 0
missing positive_overflow = pos 32767
missing negative_overflow = negsuc 32766

-- A word with its sign bit set stands 32767 below its raw value.
pub to_i32_parts :
    (w : ℕ)
    → IsWord w
    → pos_part (to_i32_lossy_zero w) + 32767 * (w / 16384) ≡ w + neg_part (to_i32_lossy_zero w)
unfolding to_i32_lossy_zero
to_i32_parts w h = ground arith

-- The flag counts the carry and the signs.
missing_parts :
    (a b : ℕ)
    → IsWord a
    → IsWord b
    → let r = overflowing_add a b in
      pos_part (missing r.overflow) + 32767 * (a / 16384) + 32767 * (b / 16384) + r.value
      ≡ neg_part (missing r.overflow) + 32767 * (r.value / 16384) + a + b
unfolding overflowing_add
missing_parts a b ha hb = ground arith

-- The integer read from the sum of two words, plus the amount that the overflow flag stands for, is
-- the sum of the integers read from the words.
pub overflowing_add-value :
    (a b : ℕ)
    → IsWord a
    → IsWord b
    → to_i32_lossy_zero (overflowing_add a b).value +ℤ missing (overflowing_add a b).overflow
      ≡ to_i32_lossy_zero a +ℤ to_i32_lossy_zero b
overflowing_add-value a b ha hb = eq_of_parts _ _ (
    omega (
      arith,
      +ℤ_parts (to_i32_lossy_zero a) (to_i32_lossy_zero b),
      +ℤ_parts (to_i32_lossy_zero (overflowing_add a b).value)
          (missing (overflowing_add a b).overflow),
      to_i32_parts a ha,
      to_i32_parts b hb,
      to_i32_parts (overflowing_add a b).value (overflowing_add-IsWord a b),
      missing_parts a b ha hb,
    ))

-- Addition of words is associative.
pub wrapping_add_assoc :
    (a b c : ℕ)
    → IsWord a
    → IsWord b
    → IsWord c
    → wrapping_add (wrapping_add a b) c ≡ wrapping_add a (wrapping_add b c)
wrapping_add_assoc a b c ha hb hc = ground (
  arith,
  wrapping_add-eq-fold a b ha hb,
  wrapping_add-eq-fold b c hb hc,
  wrapping_add-IsWord a b,
  wrapping_add-IsWord b c,
  wrapping_add-eq-fold (wrapping_add a b) c (wrapping_add-IsWord a b) hc,
  wrapping_add-eq-fold a (wrapping_add b c) ha (wrapping_add-IsWord b c),
)

-- Addition of words is commutative.
pub wrapping_add_comm : (a b : ℕ) → IsWord a → IsWord b → wrapping_add a b ≡ wrapping_add b a
wrapping_add_comm a b ha hb =
    ground (arith, wrapping_add-eq-fold a b ha hb, wrapping_add-eq-fold b a hb ha)

pub complement-IsWord : (w : ℕ) → IsWord (complement w)
unfolding complement
complement-IsWord w = omega arith

pub complement_involutive : (w : ℕ) → IsWord w → complement (complement w) ≡ w
unfolding complement
complement_involutive w h = omega arith

-- Subtracting a word from itself gives negative zero, and what was subtracted can be added back.
pub wrapping_sub_cancel :
    (a b : ℕ)
    → IsWord a
    → IsWord b
    → (wrapping_sub a a ≡ 32767)
      × (wrapping_add (wrapping_sub a b) b ≡ (if a == 0 then 32767 else a))
unfolding wrapping_sub
wrapping_sub_cancel a b ha hb = ground arith
