-- ===== src/Interpreter/Values.antt =====
-- crates/agc-interpreter/src/lib.rs: the values, the errors and the arithmetic on integers.
use apollo_rs.Prelude.{
  ℕ, suc, ◌-◌, ◌/◌, ◌%◌, ◌^◌, Bool, ◌&&◌, ltb, leb, if◌then◌else◌, Result, ok, err, bind_ok, List,
}
use apollo_rs.Prelude.Int.{ℤ, pos, negsuc, neg, abs, ◌+ℤ◌}
use apollo_rs.Cpu.Product.{times}

pub data Value : Type 0 where
  scalar : ℤ → Value
  vector : ℤ → ℤ → ℤ → Value

-- A storage name, by its bytes.
abbrev pub Name : Type 0
Name = List ℕ

-- The errors; the texts of a type and of an arithmetic error are left out.
pub data InterpreterError : Type 0 where
  address : ℕ → InterpreterError
  stack_underflow return_underflow type_error arithmetic : InterpreterError
  undefined : Name → InterpreterError
  step_limit : ℕ → InterpreterError

-- `-value`.
abbrev pub negated : ℤ → ℤ
negated (pos n) = neg n
negated (negsuc n) = pos (suc n)

abbrev pub minus : ℤ → ℤ → ℤ
minus a b = a +ℤ negated b

-- `i64::try_from`.
unfoldable pub checked_i64 : ℤ → Result InterpreterError ℤ
checked_i64 (pos n) = if ltb n (2 ^ 63) then ok (pos n) else err arithmetic
checked_i64 (negsuc n) = if ltb n (2 ^ 63) then ok (negsuc n) else err arithmetic

-- `>>` on a signed integer rounds down.
unfoldable pub shift_down : ℤ → ℕ → ℤ
shift_down (pos n) bits = pos (n / 2 ^ bits)
shift_down (negsuc n) bits = negsuc (n / 2 ^ bits)

-- The shift of an `i128` takes its count modulo 128.
unfoldable pub scaled_product : ℤ → ℤ → ℕ → Result InterpreterError ℤ
unfolding checked_i64 shift_down
scaled_product left right fraction_bits =
    checked_i64 (shift_down (times left right) (fraction_bits % 128))

unfoldable pub cross_component : ℤ → ℤ → ℤ → ℤ → Result InterpreterError ℤ
unfolding checked_i64
cross_component a b c d = checked_i64 (minus (times a b) (times c d))

-- `checked_neg` and `checked_abs` on an `i64`: the least integer has no negation.
unfoldable pub checked_neg : ℤ → Result InterpreterError ℤ
checked_neg (pos n) = ok (neg n)
checked_neg (negsuc n) = if ltb n (2 ^ 63 - 1) then ok (pos (suc n)) else err arithmetic

unfoldable pub checked_abs : ℤ → Result InterpreterError ℤ
unfolding checked_neg
checked_abs (pos n) = ok (pos n)
checked_abs (negsuc n) = checked_neg (negsuc n)

-- Three components, with `?` on each.
abbrev pub vector_of :
    Result InterpreterError ℤ
    → Result InterpreterError ℤ
    → Result InterpreterError ℤ
    → Result InterpreterError Value
vector_of x y z = bind_ok x λ a. bind_ok y λ b. bind_ok z λ c. ok (vector a b c)

unfoldable pub add_values : Value → Value → Result InterpreterError Value
unfolding checked_i64
add_values (scalar a) (scalar b) = bind_ok (checked_i64 (a +ℤ b)) λ c. ok (scalar c)
add_values (vector a b c) (vector x y z) =
    vector_of (checked_i64 (a +ℤ x)) (checked_i64 (b +ℤ y)) (checked_i64 (c +ℤ z))
add_values _ _ = err type_error

unfoldable pub subtract_values : Value → Value → Result InterpreterError Value
unfolding checked_i64
subtract_values (scalar a) (scalar b) = bind_ok (checked_i64 (minus a b)) λ c. ok (scalar c)
subtract_values (vector a b c) (vector x y z) =
    vector_of (checked_i64 (minus a x)) (checked_i64 (minus b y)) (checked_i64 (minus c z))
subtract_values _ _ = err type_error

-- `AgcDoubleWord::MAX_MAGNITUDE`.
abbrev pub in_range : ℤ → Bool
in_range v = leb (abs v) 268435455

unfoldable pub ensure_value_range : Value → Result InterpreterError (Unit {0})
ensure_value_range (scalar v) = if in_range v then ok tt else err arithmetic
ensure_value_range (vector a b c) =
    if in_range a && in_range b && in_range c then ok tt else err arithmetic

unfoldable pub checked_scalar : Value → Result InterpreterError ℤ
checked_scalar (scalar v) = ok v
checked_scalar (vector a b c) = err type_error

unfoldable pub checked_vector : Value → Result InterpreterError (ℤ × ℤ × ℤ)
checked_vector (scalar v) = err type_error
checked_vector (vector a b c) = ok (a, b, c)
