-- ===== src/Double.antt =====
-- crates/agc-word/src/lib.rs, `AgcDoubleWord`: two words with a 28-bit magnitude, each with its sign.
pub mod Laws
use apollo_rs.Prelude.{ℕ, ◌+◌, ◌-◌, ◌*◌, ◌/◌, ◌%◌, ◌^◌, Bool, true, false, ◌&&◌}
use apollo_rs.Prelude.{Result, ok, err, leb, ◌==◌, if◌then◌else◌, bit_or}
use apollo_rs.Prelude.Int.{ℤ, pos, negsuc, neg, abs, is_neg}
use apollo_rs.Bits.{shr, shl, low_bits}
use apollo_rs.Word.{WordError, integer_out_of_range, from_raw_truncate, is_negative, word_sign}
use apollo_rs.Word.{is_negative_zero as word_is_negative_zero}

pub record AgcDoubleWord : Type 0 where
  pub high : ℕ
  pub low : ℕ

abbrev pub max_magnitude : ℕ
max_magnitude = 2 ^ 28 - 1

-- `!x` on a `u32`.
abbrev pub not32 : ℕ → ℕ
not32 x = 0xffff_ffff - x

unfoldable pub from_i64 : ℤ → Result WordError AgcDoubleWord
unfolding from_raw_truncate
from_i64 value =
    let negative = is_neg value in
    let magnitude = low_bits (abs value) 32 in
    let encoded = if negative then low_bits (not32 magnitude) 28 else magnitude in
    let sign : ℕ = if negative then word_sign else 0 in
    if leb (abs value) max_magnitude
    then ok (record {
      high = from_raw_truncate (bit_or sign (low_bits (low_bits (shr encoded 14) 16) 14));
      low = from_raw_truncate (bit_or sign (low_bits (low_bits encoded 16) 14));
    })
    else err (integer_out_of_range value (neg max_magnitude) (pos max_magnitude))

unfoldable pub to_i64_lossy_zero : AgcDoubleWord → ℤ
unfolding is_negative
to_i64_lossy_zero d =
    let encoded = bit_or (shl (low_bits d.high 14) 14) (low_bits d.low 14) in
    if is_negative d.high then neg (low_bits (not32 encoded) 28) else pos encoded

unfoldable pub is_zero : AgcDoubleWord → Bool
unfolding to_i64_lossy_zero
is_zero d = elim (to_i64_lossy_zero d) [ pos n ↦ n == 0 | negsuc n ↦ false ]

unfoldable pub is_negative_zero : AgcDoubleWord → Bool
unfolding word_is_negative_zero
is_negative_zero d = word_is_negative_zero d.high && word_is_negative_zero d.low
