-- ===== src/Rope/Bytes.antt =====
-- crates/agc-loader/src/lib.rs, `encode_yayul`: the order of the banks in a file and the bytes of a
-- word. The loop over the banks is also that of `ProgramImage::to_yayul_bytes` in
-- crates/agc-assembler/src/lib.rs, which takes the words of an image.
use apollo_rs.Prelude.{
  ℕ, zero, suc, ◌+◌, ◌*◌, ◌/◌, ◌%◌, bit_xor, List, [], ◌∷◌, ◌++◌, Result, ok, err, length, get_or,
  ltb, ◌==◌, if◌then◌else◌,
}
use apollo_rs.Bits.{shl, low_bits}
use apollo_rs.Memory.Store.{fixed_banks, fixed_words_per_bank}

pub data LoaderError : Type 0 where
  size : ℕ → ℕ → LoaderError
  reserved_bit parity : ℕ → ℕ → LoaderError

-- The bank that a file has at a place of its order.
unfoldable pub yayul_bank : ℕ → ℕ
yayul_bank file_bank = if ltb file_bank 4 then bit_xor file_bank 2 else file_bank

-- `(word.raw() << 1).to_be_bytes()`, before the bytes that follow.
unfoldable pub push_word : ℕ → List ℕ → List ℕ
push_word word bytes = let raw = low_bits (shl word 1) 16 in raw / 256 ∷ (raw % 256 ∷ bytes)

-- The bytes of a slice of the words, by its first index and its length.
unfoldable pub slice_bytes : (ℕ → ℕ) → ℕ → ℕ → List ℕ
unfolding push_word
slice_bytes words start zero = []
slice_bytes words start (suc n) = push_word (words start) (slice_bytes words (start + 1) n)

-- The bytes of some banks from one on.
unfoldable pub bank_bytes : (ℕ → ℕ) → ℕ → ℕ → List ℕ
bank_bytes words file_bank zero = []
bank_bytes words file_bank (suc n) =
    slice_bytes words (yayul_bank file_bank * fixed_words_per_bank) fixed_words_per_bank
    ++ bank_bytes words (file_bank + 1) n

unfoldable pub encode_yayul : List ℕ → Result LoaderError (List ℕ)
unfolding bank_bytes
encode_yayul words =
    let expected_words = fixed_banks * fixed_words_per_bank in
    if length words == expected_words
    then ok (bank_bytes (λ i. get_or words i 0) 0 fixed_banks)
    else err (size (expected_words * 2) (length words * 2))
