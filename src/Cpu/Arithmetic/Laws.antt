-- ===== src/Cpu/Arithmetic/Laws.antt =====
-- The arithmetic helpers of the processor against those of the word crate, and against integers.
use apollo_rs.Prelude.{ℕ, ◌+◌, ◌-◌, ◌*◌, ◌/◌, ◌%◌, ◌^◌, ◌≡◌, arith, false}
use apollo_rs.Prelude.{◌==◌, ltb, if◌then◌else◌}
use apollo_rs.Prelude.Int.{pos, negsuc, neg}
use apollo_rs.Bits.{shr, shl, low_bits, field, bit_or-fields, bit_or_comm}
use apollo_rs.Word.{IsWord, IsRegister, sign_extend, to_i32_lossy_zero}
use apollo_rs.Register
use apollo_rs.Register.{overflow_correct}
use apollo_rs.Cpu.Arithmetic.{add_sp16, overflow_correct_raw, sign_extend_raw, counter_pinc}
use apollo_rs.Cpu.Operations.{modular_difference}

-- On sixteen-bit values the processor's own adder is that of the word crate.
pub add_sp16-eq-wrapping_add :
    (a b : ℕ) → IsRegister a → IsRegister b → add_sp16 a b ≡ Register.wrapping_add a b
unfolding add_sp16 Register.wrapping_add
add_sp16-eq-wrapping_add a b ha hb = ground arith

pub overflow_correct_raw-eq-overflow_correct :
    (r : ℕ) → IsRegister r → overflow_correct_raw r ≡ overflow_correct r
unfolding overflow_correct_raw overflow_correct
overflow_correct_raw-eq-overflow_correct r h = ground (
  arith,
  bit_or_comm (low_bits r 14) (field (shr r 1) 14 1),
  bit_or-fields 14 (r / 2 / 2 ^ 14 % 2) (r % 2 ^ 14) (omega arith),
)

pub sign_extend_raw-eq-sign_extend : (w : ℕ) → IsWord w → sign_extend_raw w ≡ sign_extend w
unfolding sign_extend_raw sign_extend
sign_extend_raw-eq-sign_extend w h =
    let sign = field (low_bits (shl (low_bits w 15) 1) 16) 15 1 in
    ground (
      arith,
      bit_or_comm (low_bits w 15) sign,
      bit_or-fields 15 (w % 32768 * 2 % 65536 / 32768 % 2) (w % 32768) (omega arith),
    )

-- A counter steps to the next integer, and from the largest wraps to positive zero and reports it, as it
-- does in no other case.
pub counter_pinc-next :
    (w : ℕ)
    → IsWord w
    → (to_i32_lossy_zero (counter_pinc w).0 ≡ elim (to_i32_lossy_zero w) [
      | pos n ↦ if n == 16383 then pos 0 else pos (n + 1)
      | negsuc n ↦ neg n
    ])
      × ((counter_pinc w).1 ≡ elim (to_i32_lossy_zero w) [ pos n ↦ n == 16383 | negsuc n ↦ false ])
unfolding counter_pinc to_i32_lossy_zero
counter_pinc-next w h = (ground arith, ground arith)

-- MSU reads its operands as angles in two's complement, takes the difference around the circle, and
-- hands it on in one's complement, where half a turn becomes the largest positive number.
pub modular_difference-value :
    (lhs rhs : ℕ)
    → IsWord lhs
    → IsWord rhs
    → let d = (lhs + 32768 - rhs) % 32768 in
      to_i32_lossy_zero (modular_difference lhs rhs)
      ≡ (if ltb d 16384 then pos d else if d == 16384 then pos 16383 else neg (32768 - d))
unfolding modular_difference to_i32_lossy_zero
modular_difference-value lhs rhs hl hr = ground arith
