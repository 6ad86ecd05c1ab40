-- ===== src/Fixed.antt =====
-- crates/agc-fixed/src/lib.rs: words with a binary scale. `to_f64`, which is for display, is left out.
use apollo_rs.Prelude.{ℕ, ◌≤◌, ◌≡◌, arith, Result, ok, err, bind_ok, map_err, leb, if◌then◌else◌}
use apollo_rs.Prelude.Int.{ℤ, abs}
use apollo_rs.Word as Word
use apollo_rs.Word.{WordError, max_magnitude, from_i32, to_i32_lossy_zero}
use apollo_rs.Word.Integers.{from_i32-to_i32}

pub data FixedError : Type 0 where
  invalid_scale : ℕ → FixedError
  word_error : WordError → FixedError

pub record AgcFixed (fraction_bits : ℕ) : Type 0 where
  pub word : ℕ

unfoldable pub from_word : (fraction_bits : ℕ) → ℕ → Result FixedError (AgcFixed fraction_bits)
from_word fraction_bits word =
    if leb fraction_bits 14 then ok (record { word = word }) else err (invalid_scale fraction_bits)

-- The word is made before the scale is tested.
unfoldable pub from_scaled_integer :
    (fraction_bits : ℕ) → ℤ → Result FixedError (AgcFixed fraction_bits)
unfolding from_word
from_scaled_integer fraction_bits value =
    bind_ok (map_err word_error (from_i32 value)) (from_word fraction_bits)

unfoldable pub scaled_integer_lossy_zero : {fraction_bits : ℕ} → AgcFixed fraction_bits → ℤ
scaled_integer_lossy_zero f = to_i32_lossy_zero f.word

unfoldable pub wrapping_add :
    {fraction_bits : ℕ} → AgcFixed fraction_bits → AgcFixed fraction_bits → AgcFixed fraction_bits
wrapping_add f g = record { word = Word.wrapping_add f.word g.word }

unfoldable pub wrapping_sub :
    {fraction_bits : ℕ} → AgcFixed fraction_bits → AgcFixed fraction_bits → AgcFixed fraction_bits
wrapping_sub f g = record { word = Word.wrapping_sub f.word g.word }

-- Every integer of at most 14 bits of magnitude is encoded at a scale of at most 14 bits, and read back.
pub scaled_integer_lossy_zero-from_scaled_integer :
    (fraction_bits : ℕ) (v : ℤ)
    → fraction_bits ≤ 14
    → abs v ≤ max_magnitude
    → (f : AgcFixed fraction_bits) × (from_scaled_integer fraction_bits v ≡ ok f)
      × (scaled_integer_lossy_zero f ≡ v)
unfolding from_scaled_integer scaled_integer_lossy_zero
scaled_integer_lossy_zero-from_scaled_integer fraction_bits v h k =
    let (w, encodes, _, reads) = from_i32-to_i32 v k in
    (record { word = w }, rw encodes (ground arith), reads)
