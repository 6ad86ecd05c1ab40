-- ===== src/Cpu/Divide.antt =====
-- crates/agc-cpu/src/lib.rs, `divide`.
use apollo_rs.Prelude.{ℕ, ◌/◌, ◌%◌, Bool, true, false, ◌||◌, ◌&&◌, not}
use apollo_rs.Prelude.{ltb, ◌==◌, ◌=/=◌, if◌then◌else◌, Result, ok}
use apollo_rs.Prelude.Int.{ℤ, pos, neg, abs, is_neg}
use apollo_rs.Bits.{bit_is_set, low_bits, not16, set_bit}
use apollo_rs.Word.{WordError, from_raw_truncate, from_i32, sign_extend, to_i32_lossy_zero}
use apollo_rs.Register.{has_overflow}
use apollo_rs.Memory.Central
use apollo_rs.Memory.Store.{central_register, MemoryError}
use apollo_rs.Cpu.Arithmetic.{normalize_double, absolute_sp, overflow_correct_raw, add_sp16}
use apollo_rs.Cpu.Arithmetic.{simulate_divide, agc_double_to_i64, signs_differ}
use apollo_rs.Cpu.State.{Cpu, M, ◌>>=◌, ◌>>◌, get, push_memory, lift_memory, lift_word}
use apollo_rs.Cpu.Registers.{a_register, l_register, program_counter, set_a_register, set_a_word}
use apollo_rs.Cpu.Registers.{set_l_register, set_l_word}
use apollo_rs.Cpu.Access.{memory_read}

-- `i64` division and remainder, which round towards zero.
abbrev pub quotient_ℤ : ℤ → ℤ → ℤ
quotient_ℤ a b =
    if signs_differ (is_neg a) (is_neg b) then neg (abs a / abs b) else pos (abs a / abs b)

abbrev pub remainder_ℤ : ℤ → ℤ → ℤ
remainder_ℤ a b = if is_neg a then neg (abs a % abs b) else pos (abs a % abs b)

-- The sign that the divisor takes from the dividend when DV names L or Z.
unfoldable pub dividend_is_negative : ℕ → ℕ → ℕ → Bool
dividend_is_negative abs_a a_raw l_raw =
    if abs_a == 0 then bit_is_set l_raw 15 else bit_is_set a_raw 15

-- The divisor by the operand's address: A, L and Z are special, Q keeps sixteen bits.
unfoldable pub divisor_of : Cpu → ℕ → ℕ → ℕ → Result MemoryError ℕ
unfolding dividend_is_negative
divisor_of c k abs_a word =
    let a_raw = a_register c in
    let l_raw = l_register c in
    let minus = dividend_is_negative abs_a a_raw l_raw in
    if k == Central.a
    then ok (if bit_is_set a_raw 15 then a_raw else not16 a_raw)
    else if k == Central.l
    then ok (
        sign_extend
          (overflow_correct_raw (add_sp16 (if minus then not16 l_raw else l_raw) 0o40000)))
    else if k == Central.z
    then ok (if minus then set_bit (program_counter c) 15 else program_counter c)
    else if ltb k Central.eb
    then central_register c.memory k
    else ok (sign_extend word)

-- The quotient of a zero dividend, by the signs and whether the divisor is zero too.
unfoldable pub zero_quotient : Bool → Bool → ℕ
zero_quotient true true = 0o37777
zero_quotient true false = 0
zero_quotient false true = 0o40000
zero_quotient false false = 0o77777

-- The remainder word: a zero remainder keeps the dividend's sign.
unfoldable pub remainder_word : ℤ → ℤ → Result WordError ℕ
remainder_word dividend divisor =
    if abs (remainder_ℤ dividend divisor) == 0
    then ok (if is_neg dividend then 0o77777 else 0)
    else from_i32 (remainder_ℤ dividend divisor)

-- The division of a dividend smaller than its divisor.
unfoldable pub divide_proper : ℕ → ℕ → M (Unit {0})
unfolding remainder_word
divide_proper decent divisor_word = do
  let dividend = agc_double_to_i64 decent
  let divisor = to_i32_lossy_zero divisor_word
  a ← lift_word (from_i32 (quotient_ℤ dividend divisor))
  set_a_word a
  l ← lift_word (remainder_word dividend divisor)
  set_l_word l

-- The cases of `divide` on the divisor.
unfoldable pub divide_by : ℕ → M (Unit {0})
unfolding zero_quotient divide_proper
divide_by divisor = do
  c ← get
  let a_raw = a_register c
  let l_raw = l_register c
  let (high, low, decent) = normalize_double a_raw l_raw
  let abs_a = absolute_sp high
  let abs_l = absolute_sp low
  let divisor_word = overflow_correct_raw divisor
  let abs_k = absolute_sp divisor_word
  let simulated = (do
    let (a, l) = simulate_divide a_raw l_raw divisor
    set_a_register a
    set_l_register l)
  let same_sign = not (signs_differ (bit_is_set low 14) (bit_is_set divisor_word 14))
  let equal = (do
    set_l_word (from_raw_truncate high)
    set_a_word (if high == divisor_word then 0o37777 else 0o40000))
  if ltb abs_k abs_a || abs_a == abs_k && abs_l =/= 0 || has_overflow divisor
      then simulated
      else if abs_a == 0 && abs_l == 0
      then set_a_word (zero_quotient same_sign (abs_k == 0))
      else if abs_a == abs_k && abs_l == 0
      then equal
      else divide_proper decent divisor_word

unfoldable pub divide : ℕ → M (Unit {0})
unfolding memory_read divisor_of divide_by
divide k = do
  access ← memory_read k
  push_memory access
  c ← get
  let (high, low, decent) = normalize_double (a_register c) (l_register c)
  divisor ← lift_memory (divisor_of c k (absolute_sp high) access.value)
  divide_by (low_bits divisor 16)
