-- ===== src/Rope/Image.antt =====
-- crates/agc-loader/src/lib.rs, `decode_bytes`: the four formats, with their reserved bits and
-- parities. The words of an image are a function of the index, of which 36864 are in use.
use apollo_rs.Prelude.{
  ℕ, zero, suc, ◌+◌, ◌*◌, ◌/◌, ◌%◌, bit_or, List, [], ◌∷◌, Result, ok, err, bind_ok, length, update,
  ◌=/=◌, if◌then◌else◌,
}
use apollo_rs.Bits.{shr, low_bits, bit_is_set, field}
use apollo_rs.Word.{from_raw_truncate}
use apollo_rs.Memory.Store.{Memory, MemoryError, with_rope, fixed_banks, fixed_words_per_bank}
use apollo_rs.Rope.Bytes.{LoaderError, size, reserved_bit, parity, yayul_bank}

pub data RopeFormat : Type 0 where
  yayul yayul_parity hardware physical_words : RopeFormat

pub record RopeImage : Type 0 where
  pub words : ℕ → ℕ
  pub format : RopeFormat
  pub parity_words : ℕ

-- The list of the first words of an array.
unfoldable pub tabulate : (ℕ → ℕ) → ℕ → ℕ → List ℕ
tabulate f i zero = []
tabulate f i (suc n) = f i ∷ tabulate f (i + 1) n

-- `RopeImage::into_memory`.
unfoldable pub into_memory : RopeImage → Result MemoryError Memory
unfolding with_rope tabulate
into_memory image = with_rope (tabulate image.words 0 (fixed_banks * fixed_words_per_bank))

-- `count_ones`, of so many digits.
unfoldable pub count_ones : ℕ → ℕ → ℕ
count_ones zero raw = 0
count_ones (suc n) raw = raw % 2 + count_ones n (raw / 2)

-- The word of a pair of bytes, and the number of parities that were checked for it.
unfoldable pub word_data : RopeFormat → ℕ → ℕ → Result LoaderError (ℕ × ℕ)
word_data yayul index raw =
    if bit_is_set raw 0 then err (reserved_bit index raw) else ok (shr raw 1, 0)
word_data yayul_parity index raw =
    if count_ones 16 raw % 2 =/= 1 then err (parity index raw) else ok (shr raw 1, 1)
word_data hardware index raw =
    if count_ones 16 raw % 2 =/= 1
    then err (parity index raw)
    else ok (bit_or (shr (field raw 15 1) 1) (low_bits raw 14), 1)
word_data physical_words index raw =
    if bit_is_set raw 15 then err (reserved_bit index raw) else ok (raw, 0)

-- The bank of memory at a place of the file's order.
unfoldable pub bank_of : RopeFormat → ℕ → ℕ
unfolding yayul_bank
bank_of yayul file_bank = yayul_bank file_bank
bank_of yayul_parity file_bank = yayul_bank file_bank
bank_of hardware file_bank = file_bank
bank_of physical_words file_bank = file_bank

-- Where the word of an index of the file goes.
unfoldable pub place : RopeFormat → ℕ → ℕ
unfolding bank_of
place format index =
    bank_of format (index / fixed_words_per_bank) * fixed_words_per_bank
    + index % fixed_words_per_bank

-- The loop over the pairs of bytes, from an index on.
unfoldable pub decode_words :
    RopeFormat → ℕ → List ℕ → (ℕ → ℕ) → ℕ → Result LoaderError ((ℕ → ℕ) × ℕ)
unfolding word_data place from_raw_truncate
decode_words format index [] physical parity_words = ok (physical, parity_words)
decode_words format index (high ∷ []) physical parity_words = ok (physical, parity_words)
decode_words format index (high ∷ (low ∷ rest)) physical parity_words =
    bind_ok (word_data format index (high * 256 + low)) λ w.
      decode_words format (index + 1) rest
        (update physical (place format index) (from_raw_truncate (w.0))) (parity_words + w.1)

unfoldable pub decode_bytes : List ℕ → RopeFormat → Result LoaderError RopeImage
unfolding decode_words
decode_bytes bytes format =
    let expected = fixed_banks * fixed_words_per_bank * 2 in
    if length bytes =/= expected
    then err (size expected (length bytes))
    else bind_ok (decode_words format 0 bytes (λ _. 0) 0)
        λ r. ok (record { words = r.0; format = format; parity_words = r.1 })
