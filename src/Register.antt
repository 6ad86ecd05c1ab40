-- ===== src/Register.antt =====
-- crates/agc-word/src/lib.rs, `AgcRegister`: the sixteen-bit central register, whose two top bits
-- differ after an overflow.
pub mod Laws
use apollo_rs.Prelude.{ℕ, ◌+◌, ◌-◌, ◌*◌, ◌/◌, ◌%◌, ◌^◌, Bool, true, false, ◌||◌}
use apollo_rs.Prelude.{Result, ok, err, leb, ◌==◌, if◌then◌else◌}
use apollo_rs.Bits.{shr, low_bits, bit_is_set, set_bit}
use apollo_rs.Word.{WordError, raw_out_of_range, from_raw_truncate}

unfoldable pub try_from_raw : ℕ → Result WordError ℕ
try_from_raw raw = if leb raw 65535 then ok raw else err (raw_out_of_range raw 16)

-- `raw & 0o140000`, as the number that its two bits make: 1 is 0o040000 and 2 is 0o100000.
abbrev pub sign_bits : ℕ → ℕ
sign_bits raw = low_bits (shr raw 14) 2

unfoldable pub overflow_correct : ℕ → ℕ
unfolding from_raw_truncate
overflow_correct raw =
    let corrected =
      if sign_bits raw == 2
      then set_bit (set_bit raw 15) 14
      else if sign_bits raw == 1
      then low_bits raw 14
      else raw in
    from_raw_truncate corrected

unfoldable pub has_overflow : ℕ → Bool
has_overflow raw = sign_bits raw == 1 || sign_bits raw == 2

unfoldable pub wrapping_add : ℕ → ℕ → ℕ
wrapping_add a b =
    let sum = a + b in
    let folded = low_bits sum 16 + shr sum 16 in low_bits (low_bits folded 16 + shr folded 16) 16
