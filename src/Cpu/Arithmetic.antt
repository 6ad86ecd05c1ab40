-- ===== src/Cpu/Arithmetic.antt =====
-- crates/agc-cpu/src/lib.rs: the arithmetic helpers on raw registers, and the division that the
-- hardware makes when its operands break the rules of DV.
pub mod Laws
use apollo_rs.Prelude.{
  ℕ, zero, suc, ◌+◌, ◌-◌, ◌*◌, ◌/◌, ◌%◌, ◌^◌, Bool, true, false, ◌||◌, ◌&&◌, not,
}
use apollo_rs.Prelude.{◌==◌, ◌=/=◌, if◌then◌else◌, bit_or}
use apollo_rs.Prelude.Int.{ℤ, pos, neg}
use apollo_rs.Bits.{shr, shl, low_bits, field, bit_is_set, set_bit, not16}
use apollo_rs.Word.{from_raw_truncate, sign_extend}
use apollo_rs.Register
use apollo_rs.Register.{sign_bits}
use apollo_rs.Double.{not32}

unfoldable pub add_double_precision_carry : ℕ → ℕ → ℕ
add_double_precision_carry high low =
    if sign_bits low == 1
    then Register.wrapping_add high (sign_extend (from_raw_truncate 1))
    else if sign_bits low == 2
    then Register.wrapping_add high (sign_extend (from_raw_truncate 0o77776))
    else high

unfoldable pub counter_pinc : ℕ → ℕ × Bool
unfolding from_raw_truncate
counter_pinc value =
    if value == 0o37777
    then (0, true)
    else if value == 0o77777
    then (from_raw_truncate 1, false)
    else (from_raw_truncate (low_bits (value + 1) 16), false)

unfoldable pub overflow_correct_raw : ℕ → ℕ
unfolding from_raw_truncate
overflow_correct_raw value =
    from_raw_truncate (bit_or (low_bits value 14) (field (shr value 1) 14 1))

unfoldable pub sign_extend_raw : ℕ → ℕ
sign_extend_raw value =
    let word = low_bits value 15 in bit_or word (field (low_bits (shl word 1) 16) 15 1)

unfoldable pub add_sp16 : ℕ → ℕ → ℕ
add_sp16 lhs rhs =
    let sum = lhs + rhs in low_bits (if bit_is_set sum 16 then low_bits (sum + 1) 16 else sum) 16

unfoldable pub absolute_sp : ℕ → ℕ
absolute_sp value = if bit_is_set value 14 then low_bits (not16 value) 15 else low_bits value 15

-- `a != b` on signs.
abbrev pub signs_differ : Bool → Bool → Bool
signs_differ true b = not b
signs_differ false b = b

-- The pair of words with the sign of the second made that of the first; the last branch of
-- `sp_to_decent` complements both before and after it borrows.
unfoldable pub match_signs : ℕ → ℕ → ℕ × ℕ
match_signs high low =
    let complement = bit_is_set high 14 in
    if signs_differ (bit_is_set low 14) (bit_is_set high 14)
    then if low == 0 || low == 0o77777
      then (high, (if complement then 0o77777 else 0))
      else (let high₁ = if complement then low_bits (not16 high) 15 else high in
          let low₁ = if complement then low_bits (not16 low) 15 else low in
          let high₂ = low_bits (high₁ + 65535) 16 in
          let low₂ = low_bits (low_bits (low₁ + 0o40001) 16) 15 in
          (
            (if complement then low_bits (not16 high₂) 15 else high₂),
            (if complement then low_bits (not16 low₂) 15 else low₂),
          ))
    else (high, low)

unfoldable pub sp_to_decent : ℕ → ℕ → ℕ
unfolding match_signs sign_extend_raw
sp_to_decent high low =
    let extended = sign_extend_raw low in
    let (high', low') = match_signs high low in
    let value = bit_or (field (shl high' 14) 14 15) (low_bits low' 14) in
    if high == 0 || high == 0o77777
    then low_bits (if bit_is_set extended 15 then bit_or extended 0xffff_0000 else extended) 30
    else if bit_is_set value 28
    then set_bit value 29
    else value

-- The two halves and the double precision value.
unfoldable pub normalize_double : ℕ → ℕ → ℕ × ℕ × ℕ
unfolding sp_to_decent overflow_correct_raw
normalize_double a_raw l_raw =
    let decent = sp_to_decent (overflow_correct_raw a_raw) l_raw in
    let sign = bit_is_set decent 29 in
    let low = bit_or (low_bits (low_bits decent 16) 14) (if sign then 0o40000 else 0) in
    let high = overflow_correct_raw (low_bits (shr decent 14) 16) in (high, low, decent)

unfoldable pub agc_double_to_i64 : ℕ → ℤ
agc_double_to_i64 value =
    if bit_is_set value 28 then neg (low_bits (not32 value) 28) else pos (low_bits value 28)

-- `register_overflow_sign(value) != 1`.
unfoldable pub is_positive_overflow : ℕ → Bool
is_positive_overflow value = sign_bits value == 1

-- One round of the divider, on the quotient and the remainder.
unfoldable pub divide_round : ℕ → ℕ × ℕ → ℕ × ℕ
unfolding add_sp16
divide_round divisor (quotient, remainder) =
    let quotient₁ = low_bits (shl quotient 1) 16 in
    let remainder_sign = field remainder 15 1 in
    let shifted = bit_or remainder_sign (low_bits (shl (low_bits remainder 14) 1) 16) in
    let remainder₁ =
      if not (bit_is_set quotient₁ 15) then bit_or shifted (shr remainder_sign 15) else shifted in
    let sum = add_sp16 remainder₁ divisor in
    if bit_is_set sum 15 then (bit_or quotient₁ 1, sum) else (quotient₁, remainder₁)

unfoldable pub divide_rounds : ℕ → ℕ → ℕ × ℕ → ℕ × ℕ
unfolding divide_round
divide_rounds zero divisor s = s
divide_rounds (suc n) divisor s = divide_rounds n divisor (divide_round divisor s)

-- The new A and L.
unfoldable pub simulate_divide : ℕ → ℕ → ℕ → ℕ × ℕ
unfolding divide_rounds add_sp16 is_positive_overflow
simulate_divide a_raw l_raw divisor_raw =
    let a₁ = if bit_is_set a_raw 15 then a_raw else not16 a_raw in
    let dividend_sign = if a₁ == 0o177777 then field l_raw 15 1 else field a_raw 15 1 in
    let l₁ = if dividend_sign =/= 0 then not16 l_raw else l_raw in
    let l₂ = add_sp16 l₁ 0o40000 in
    let a₂ = if is_positive_overflow l₂ then a₁ else add_sp16 a₁ 1 in
    let divisor_sign = field divisor_raw 15 1 in
    let divisor = if divisor_sign =/= 0 then not16 divisor_raw else divisor_raw in
    let quotient_sign = field l₂ 15 1 in
    let quotient =
      bit_or (bit_or quotient_sign (low_bits (shl (low_bits l₂ 14) 1) 16)) (shr quotient_sign 15) in
    let (quotient', remainder) = divide_rounds 14 divisor (quotient, a₂) in
    let a = bit_or quotient_sign (low_bits quotient' 15) in
    (
      (if dividend_sign == divisor_sign then a else not16 a),
      (if dividend_sign =/= 0 then remainder else not16 remainder),
    )
