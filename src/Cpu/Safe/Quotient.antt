-- ===== src/Cpu/Safe/Quotient.antt =====
-- crates/agc-cpu/src/lib.rs, `divide`: a proper division has a quotient and a remainder in range.
use apollo_rs.Prelude.{
  ℕ, ◌+◌, ◌-◌, ◌*◌, ◌/◌, ◌%◌, ◌^◌, ◌<◌, ◌≤◌, ◌≡◌, sym, ◌∙◌, arith, true, false, if_cases,
  Bool-cases, inl, inr, if◌then◌else◌, bit_or, ◌==◌, ◌||◌, ◌⊎◌,
}
use apollo_rs.Prelude.Int.{abs, is_neg}
use apollo_rs.Bits.{shr, shl, low_bits, field, bit_is_set, set_bit, bit_or-fields, bit_or_comm}
use apollo_rs.Word.{IsWord, to_i32_lossy_zero}
use native.Mathlib.Nat.{mod-lt, div-lt_iff_lt-mul}
use apollo_rs.Cpu.Product.{abs-neg, abs-signed}
use apollo_rs.Cpu.Divide.{quotient_ℤ, remainder_ℤ}
use apollo_rs.Cpu.Arithmetic.{
  signs_differ, overflow_correct_raw, sign_extend_raw, absolute_sp, sp_to_decent, normalize_double,
  agc_double_to_i64, match_signs,
}

overflow_correct_raw-value : (x : ℕ) → overflow_correct_raw x ≡ x % 16384 + x / 32768 % 2 * 16384
unfolding overflow_correct_raw
overflow_correct_raw-value x = ground (
  arith,
  bit_or_comm (low_bits x 14) (field (shr x 1) 14 1),
  bit_or-fields 14 (x / 2 / 2 ^ 14 % 2) (x % 2 ^ 14) (omega arith),
)

sign_extend_raw-value : (x : ℕ) → sign_extend_raw x ≡ x % 32768 + x / 16384 % 2 * 32768
unfolding sign_extend_raw
sign_extend_raw-value x =
    let sign = field (low_bits (shl (low_bits x 15) 1) 16) 15 1 in
    ground (
      arith,
      bit_or_comm (low_bits x 15) sign,
      bit_or-fields 15 (x % 32768 * 2 % 65536 / 32768 % 2) (x % 32768) (omega arith),
    )

-- A double precision value of 30 bits whose two top bits agree.
abbrev pub IsSigned : ℕ → Type 0
IsSigned d = (d < 268435456) ⊎ (805306368 ≤ d) × (d < 1073741824)

joined : (h l : ℕ) → bit_or (field (shl h 14) 14 15) (low_bits l 14) ≡ h % 32768 * 16384 + l % 16384
joined h l =
    let cut : field (shl h 14) 14 15 ≡ shl (h % 32768) 14 = omega arith in
    rw cut (bit_or-fields 14 (h % 32768) (l % 16384) (omega arith))

-- The sign of a single word is spread over the high half.
spread : (x : ℕ) → x < 65536 → bit_or x 0xffff_0000 ≡ 0xffff_0000 + x
spread x h = bit_or_comm x 0xffff_0000 ∙ bit_or-fields 16 65535 x h

extended-IsSigned :
    (l : ℕ)
    → let e = sign_extend_raw l in
      IsSigned (low_bits (if bit_is_set e 15 then bit_or e 0xffff_0000 else e) 30)
extended-IsSigned l =
    let e = sign_extend_raw l in
    let value : e ≡ l % 32768 + l / 16384 % 2 * 32768 = sign_extend_raw-value l in
    elim (Bool-cases (bit_is_set e 15)) [
      | inl b ↦
          let top : 32768 ≤ e = ground (arith, b) in
          rw (b, spread e (omega (arith, value))) (inr (omega (arith, value), omega (arith, value)))
      | inr b ↦ let top : e < 32768 = ground (arith, b, value) in rw b (inl (omega arith))
    ]

set_bit-IsSigned : (x : ℕ) → x < 536870912 → IsSigned (if bit_is_set x 28 then set_bit x 29 else x)
set_bit-IsSigned x h = elim (Bool-cases (bit_is_set x 28)) [
  | inl b ↦
      let clear : bit_is_set x 29 ≡ false = ground (arith, b) in
      rw (b, clear) (inr (ground (arith, b), ground (arith, b)))
  | inr b ↦ rw b (inl (ground (arith, b)))
]

sp_to_decent-IsSigned : (h l : ℕ) → IsSigned (sp_to_decent h l)
unfolding sp_to_decent
sp_to_decent-IsSigned h l =
    let e = sign_extend_raw l in
    let x = bit_or (field (shl (match_signs h l).0 14) 14 15) (low_bits (match_signs h l).1 14) in
    let fits : x < 536870912 = omega (arith, joined (match_signs h l).0 (match_signs h l).1) in
    if_cases IsSigned (h == 0 || h == 0o77777)
      (low_bits (if bit_is_set e 15 then bit_or e 0xffff_0000 else e) 30)
      (if bit_is_set x 28 then set_bit x 29 else x) (λ _. extended-IsSigned l)
      (λ _. set_bit-IsSigned x fits)

-- The high half holds the sign and the fourteen top bits of the magnitude.
high_half :
    (d : ℕ)
    → IsSigned d
    → abs (agc_double_to_i64 d) / 16384
      ≡ absolute_sp (overflow_correct_raw (low_bits (shr d 14) 16))
unfolding agc_double_to_i64 absolute_sp
high_half d (inl h) =
    let high = overflow_correct_raw (low_bits (shr d 14) 16) in
    let value = overflow_correct_raw-value (low_bits (shr d 14) 16) in
    let plus : bit_is_set d 28 ≡ false = ground (arith, h) in
    let top : bit_is_set high 14 ≡ false = ground (arith, value, h) in
    rw (plus, top) (omega (arith, value, h))
high_half d (inr h) =
    let high = overflow_correct_raw (low_bits (shr d 14) 16) in
    let value = overflow_correct_raw-value (low_bits (shr d 14) 16) in
    let minus : bit_is_set d 28 ≡ true = ground (arith, h) in
    let top : bit_is_set high 14 ≡ true = ground (arith, value, h) in
    rw (minus, top, abs-neg ((4294967295 - d) % 268435456)) (omega (arith, value, h))

word_magnitude : (w : ℕ) → IsWord w → abs (to_i32_lossy_zero w) ≡ absolute_sp w
unfolding to_i32_lossy_zero absolute_sp
word_magnitude w h = ground arith

magnitude_bound : (w : ℕ) → IsWord w → absolute_sp w ≤ 16383
unfolding absolute_sp
magnitude_bound w h = ground arith

-- A dividend whose high half is below the divisor: the quotient has at most fourteen bits.
proper_quotient : (m k : ℕ) → m / 16384 < k → k ≤ 16383 → (m / k ≤ 16383) × (m % k ≤ 16383)
proper_quotient m k h b =
    let below : m < k * 16384 = omega (arith, h) in
    let q : m / k < 16384 =
      (div-lt_iff_lt-mul {y = 16384} (omega (arith, h))).1 (omega (arith, below)) in
    let r : m % k < k = mod-lt m (omega (arith, h)) in (omega (arith, q), omega (arith, r, b))

-- The halves of A and L: the high half is below the divisor, so that both results have range.
pub division_fits :
    (a l w : ℕ)
    → IsWord w
    → absolute_sp (normalize_double a l).0 < absolute_sp w
    → let dividend = agc_double_to_i64 (normalize_double a l).2 in
      let divisor = to_i32_lossy_zero w in
      (abs (quotient_ℤ dividend divisor) ≤ 16383) × (abs (remainder_ℤ dividend divisor) ≤ 16383)
unfolding normalize_double
division_fits a l w h k =
    let d = (normalize_double a l).2 in
    let x = agc_double_to_i64 d in
    let y = to_i32_lossy_zero w in
    let signed : IsSigned d = sp_to_decent-IsSigned (overflow_correct_raw a) l in
    let fits =
      proper_quotient (abs x) (absolute_sp w) (omega (arith, high_half d signed, k))
        (magnitude_bound w h) in
    let at_divisor = rw (sym (word_magnitude w h)) at fits in
    (
      rw (abs-signed (signs_differ (is_neg x) (is_neg y)) (abs x / abs y)) at_divisor.0,
      rw (abs-signed (is_neg x) (abs x % abs y)) at_divisor.1,
    )
