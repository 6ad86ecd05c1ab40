-- ===== src/Word.antt =====
-- crates/agc-word/src/lib.rs: the fifteen-bit one's-complement word, the sixteen-bit register, the
-- double word and the range-checked identifiers. A word, like a register, is its raw bits, a number.
pub mod Sum
pub mod Integers
use apollo_rs.Prelude.{ℕ, ◌+◌, ◌-◌, ◌*◌, ◌/◌, ◌%◌, ◌^◌, ◌<◌, Bool, true, false, ◌||◌, not}
use apollo_rs.Prelude.{Result, ok, err, leb, ◌==◌, ◌=/=◌, if◌then◌else◌, bit_or}
use apollo_rs.Prelude.Int.{ℤ, pos, neg, abs, is_neg}
use apollo_rs.Bits.{shr, shl, low_bits, bit_is_set, set_bit, not16}

abbrev pub word_mask : ℕ
word_mask = 0o77777

abbrev pub word_sign : ℕ
word_sign = 0o40000

abbrev pub max_magnitude : ℕ
max_magnitude = 0o37777

-- A value of fifteen bits, and one of sixteen.
abbrev pub IsWord : ℕ → Type 0
IsWord w = w < 2 ^ 15

abbrev pub IsRegister : ℕ → Type 0
IsRegister r = r < 2 ^ 16

pub data WordError : Type 0 where
  raw_out_of_range : ℕ → ℕ → WordError
  integer_out_of_range : ℤ → ℤ → ℤ → WordError

pub data SignClass : Type 0 where
  positive_zero positive negative_zero negative : SignClass

pub data Overflow : Type 0 where
  no_overflow positive_overflow negative_overflow : Overflow

pub record AddResult : Type 0 where
  pub value : ℕ
  pub end_around_carry : Bool
  pub overflow : Overflow

unfoldable pub try_from_raw : ℕ → Result WordError ℕ
try_from_raw raw = if shr raw 15 == 0 then ok raw else err (raw_out_of_range raw 15)

unfoldable pub from_raw_truncate : ℕ → ℕ
from_raw_truncate raw = low_bits raw 15

unfoldable pub sign_class : ℕ → SignClass
sign_class raw =
    if raw == 0
    then positive_zero
    else if raw == word_mask
    then negative_zero
    else if not (bit_is_set raw 14)
    then positive
    else negative

unfoldable pub is_zero : ℕ → Bool
is_zero w = w == 0 || w == word_mask

unfoldable pub is_negative_zero : ℕ → Bool
is_negative_zero w = w == word_mask

unfoldable pub is_negative : ℕ → Bool
is_negative w = bit_is_set w 14

unfoldable pub complement : ℕ → ℕ
complement w = low_bits (not16 w) 15

-- `value.unsigned_abs() as u16` keeps sixteen bits.
unfoldable pub from_i32 : ℤ → Result WordError ℕ
unfolding from_raw_truncate
from_i32 value =
    if leb (abs value) max_magnitude
    then if is_neg value
      then ok (from_raw_truncate (not16 (low_bits (abs value) 16)))
      else ok (low_bits (abs value) 16)
    else err (integer_out_of_range value (neg max_magnitude) (pos max_magnitude))

unfoldable pub to_i32_lossy_zero : ℕ → ℤ
unfolding is_negative
to_i32_lossy_zero w = if is_negative w then neg (low_bits (not16 w) 15) else pos w

-- The match on the three signs of `overflowing_add`.
abbrev pub overflow_of_signs : Bool → Bool → Bool → Overflow
overflow_of_signs false false true = positive_overflow
overflow_of_signs true true false = negative_overflow
overflow_of_signs _ _ _ = no_overflow

unfoldable pub overflowing_add : ℕ → ℕ → AddResult
unfolding is_negative
overflowing_add a b =
    let sum = a + b in
    let first_carry = shr sum 15 in
    let folded = low_bits sum 15 + first_carry in
    let second_carry = shr folded 15 in
    let raw = low_bits (low_bits folded 15 + second_carry) 16 in
    let value = low_bits raw 15 in
    record {
      value = value;
      end_around_carry = first_carry =/= 0 || second_carry =/= 0;
      overflow = overflow_of_signs (is_negative a) (is_negative b) (is_negative value);
    }

unfoldable pub wrapping_add : ℕ → ℕ → ℕ
unfolding overflowing_add
wrapping_add a b = (overflowing_add a b).value

unfoldable pub wrapping_sub : ℕ → ℕ → ℕ
unfolding wrapping_add complement
wrapping_sub a b = wrapping_add a (complement b)

unfoldable pub sign_extend : ℕ → ℕ
unfolding is_negative
sign_extend w = if is_negative w then set_bit w 15 else w
