-- ===== src/Double/Laws.antt =====
-- Double words and host integers.
use apollo_rs.Prelude.{◌+◌, ◌-◌, ◌*◌, ◌/◌, ◌%◌, ◌^◌, ◌<◌, ◌≤◌, ◌≡◌, arith}
use apollo_rs.Prelude.{true, false, ok, bit_or, ◌∙◌, Bool-cases, inl, inr}
use apollo_rs.Prelude.Int.{ℤ, pos, negsuc, abs}
use apollo_rs.Bits.{bit_or-fields, zero-bit_or, low_bits, shl}
use apollo_rs.Word.{IsWord, is_negative}
use apollo_rs.Double.{AgcDoubleWord, from_i64, to_i64_lossy_zero, is_negative_zero, max_magnitude}

-- The two words are words.
abbrev pub IsDouble : AgcDoubleWord → Type 0
IsDouble d = IsWord d.high × IsWord d.low

-- The pair that an integer of at most 28 bits is encoded as, with arithmetic in place of bits.
abbrev pub encoded : ℤ → AgcDoubleWord
encoded (pos n) = record { high = n / 16384; low = n % 16384 }
encoded (negsuc n) = record {
  high = 16384 + (2 ^ 28 - 2 - n) / 16384;
  low = 16384 + (2 ^ 28 - 2 - n) % 16384;
}

pub from_i64-encoded : (v : ℤ) → abs v ≤ max_magnitude → from_i64 v ≡ ok (encoded v)
unfolding from_i64
from_i64-encoded (pos n) h = rw (zero-bit_or, zero-bit_or) (ground arith)
from_i64-encoded (negsuc n) h = ground (
  arith,
  bit_or-fields 14 1 ((2 ^ 28 - 2 - n) / 16384) (omega arith),
  bit_or-fields 14 1 ((2 ^ 28 - 2 - n) % 16384) (omega arith),
)

to_i64-sum :
    (d : AgcDoubleWord)
    → bit_or (shl (low_bits d.high 14) 14) (low_bits d.low 14)
      ≡ d.high % 16384 * 16384 + d.low % 16384
to_i64-sum d = bit_or-fields 14 (d.high % 16384) (d.low % 16384) (omega arith)

-- Every integer of at most 28 bits of magnitude is encoded in two words, and read back from them.
pub from_i64-to_i64 :
    (v : ℤ)
    → abs v ≤ max_magnitude
    → (d : AgcDoubleWord) × (from_i64 v ≡ ok d) × IsDouble d × (to_i64_lossy_zero d ≡ v)
unfolding to_i64_lossy_zero
from_i64-to_i64 (pos n) h = (
  encoded (pos n),
  from_i64-encoded (pos n) h,
  omega arith,
  ground (arith, to_i64-sum (encoded (pos n))),
)
from_i64-to_i64 (negsuc n) h = (
  encoded (negsuc n),
  from_i64-encoded (negsuc n) h,
  omega arith,
  ground (arith, to_i64-sum (encoded (negsuc n))),
)

-- The integer of a pair of words, by the sign of the first.
to_i64-pos :
    (d : AgcDoubleWord)
    → IsDouble d
    → is_negative d.high ≡ false
    → to_i64_lossy_zero d ≡ pos (d.high % 16384 * 16384 + d.low % 16384)
unfolding to_i64_lossy_zero
to_i64-pos d h e = rw (e, to_i64-sum d)

to_i64-negsuc :
    (d : AgcDoubleWord)
    → IsDouble d
    → is_negative d.high ≡ true
    → d.high % 16384 * 16384 + d.low % 16384 < 2 ^ 28 - 1
    → to_i64_lossy_zero d ≡ negsuc (2 ^ 28 - 2 - (d.high % 16384 * 16384 + d.low % 16384))
unfolding to_i64_lossy_zero
to_i64-negsuc d h e lt = rw (e, to_i64-sum d) (ground arith)

-- Decoding and encoding again gives the two words back, when they carry the same sign and are not
-- the pair of negative zeros.
pub to_i64-from_i64 :
    (d : AgcDoubleWord)
    → IsDouble d
    → is_negative d.high ≡ is_negative d.low
    → is_negative_zero d ≡ false
    → from_i64 (to_i64_lossy_zero d) ≡ ok d
unfolding is_negative_zero is_negative
to_i64-from_i64 d h s z = elim (Bool-cases (is_negative d.high)) [
  | inl e ↦
      let lt : d.high % 16384 * 16384 + d.low % 16384 < 2 ^ 28 - 1 = ground arith in
      rw (to_i64-negsuc d h e lt) (
        from_i64-encoded (negsuc (2 ^ 28 - 2 - (d.high % 16384 * 16384 + d.low % 16384)))
          (omega arith)
        ∙ ground arith)
  | inr e ↦
      rw (to_i64-pos d h e) (
        from_i64-encoded (pos (d.high % 16384 * 16384 + d.low % 16384)) (omega arith)
        ∙ ground arith)
]
