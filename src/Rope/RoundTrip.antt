-- ===== src/Rope/RoundTrip.antt =====
-- crates/agc-loader/src/lib.rs: what `decode_bytes` makes of the bytes of `encode_yayul`.
use apollo_rs.Prelude.{
  ℕ, zero, suc, ◌+◌, ◌-◌, ◌*◌, ◌/◌, ◌%◌, ◌<◌, ◌≤◌, ◌≡◌, refl, arith, List, [], ◌++◌, ok, length,
  length-append, get_or, update, leb, ltb, ◌==◌, ◌&&◌, if◌then◌else◌, ◌∙◌,
}
use mathlib.Core.Path.{fun_ext}
use apollo_rs.Bits.{shl, low_bits}
use apollo_rs.Word.{IsWord, from_raw_truncate}
use apollo_rs.Rope.Bytes.{yayul_bank, push_word, slice_bytes, bank_bytes, encode_yayul}
use apollo_rs.Rope.Image.{RopeImage, yayul, place, bank_of, word_data, decode_words, decode_bytes}

yayul_bank-cases :
    (b : ℕ) → yayul_bank b ≡ (if ltb b 2 then b + 2 else if ltb b 4 then b - 2 else b)
unfolding yayul_bank
yayul_bank-cases zero = refl
yayul_bank-cases (suc zero) = refl
yayul_bank-cases (suc (suc zero)) = refl
yayul_bank-cases (suc (suc (suc zero))) = refl
yayul_bank-cases (suc (suc (suc (suc b)))) = ground arith

-- The order is its own inverse.
yayul_bank_self : (b : ℕ) → yayul_bank (yayul_bank b) ≡ b
yayul_bank_self b = ground (arith, yayul_bank-cases b, yayul_bank-cases (yayul_bank b))

-- The words of a run of indices are put where they came from.
abbrev filled : (ℕ → ℕ) → ℕ → ℕ → (ℕ → ℕ) → ℕ → ℕ
filled words start n physical p = if leb start p && ltb p (start + n) then words p else physical p

word_data-push :
    (index w : ℕ)
    → IsWord w
    → word_data yayul index (low_bits (shl w 1) 16 / 256 * 256 + low_bits (shl w 1) 16 % 256)
      ≡ ok (w, 0)
unfolding word_data
word_data-push index w h = ground arith

module _ (words : ℕ → ℕ) (fits : (i : ℕ) → IsWord (words i)) where
  decode_words-push :
      (index start : ℕ) (rest : List ℕ) (physical : ℕ → ℕ)
      → place yayul index ≡ start
      → decode_words yayul index (push_word (words start) rest) physical 0
        ≡ decode_words yayul (index + 1) rest (update physical start (words start)) 0
  unfolding decode_words push_word from_raw_truncate
  decode_words-push index start rest physical e =
      let same : low_bits (words start) 15 ≡ words start = omega (arith, fits start) in
      rw (word_data-push index (words start) (fits start), e, same) refl

  filled-cons :
      (start n : ℕ) (physical : ℕ → ℕ)
      → filled words (start + 1) n (update physical start (words start))
        ≡ filled words start (suc n) physical
  filled-cons start n physical = fun_ext λ p. ground arith

  place-offset : (b o : ℕ) → o < 1024 → place yayul (b * 1024 + o) ≡ yayul_bank b * 1024 + o
  unfolding place bank_of
  place-offset b o h =
      let q : (b * 1024 + o) / 1024 ≡ b = omega arith in
      let r : (b * 1024 + o) % 1024 ≡ o = omega arith in rw (q, r) refl

  -- A part of a bank, from its offset on, up to the end of the bank.
  decode_words-slice :
      (n b o : ℕ) (rest : List ℕ) (physical : ℕ → ℕ)
      → o + n ≤ 1024
      → decode_words yayul
          (b * 1024 + o)
          (slice_bytes words (yayul_bank b * 1024 + o) n ++ rest)
          physical
          0
        ≡ decode_words yayul
            (b * 1024 + (o + n))
            rest
            (filled words (yayul_bank b * 1024 + o) n physical)
            0
  unfolding slice_bytes
  decode_words-slice zero b o rest physical h =
      let start = yayul_bank b * 1024 + o in
      let same : filled words start 0 physical ≡ physical = fun_ext λ p. ground arith in
      let here : o + 0 ≡ o = omega arith in rw (same, here) refl
  decode_words-slice (suc n) b o rest physical h =
      let start = yayul_bank b * 1024 + o in
      decode_words-push (b * 1024 + o) start (slice_bytes words (start + 1) n ++ rest) physical
        (place-offset b o (omega arith))
      ∙ (let index : b * 1024 + o + 1 ≡ b * 1024 + (o + 1) = omega arith in
          let next : start + 1 ≡ yayul_bank b * 1024 + (o + 1) = omega arith in
          let end : o + suc n ≡ o + 1 + n = omega arith in
          rw (← filled-cons start n physical) (
            rw (index, next, end)
              (decode_words-slice n b (o + 1) rest (update physical start (words start))
                (omega arith))))

  decode_words-bank :
      (b : ℕ) (rest : List ℕ) (physical : ℕ → ℕ)
      → decode_words yayul
          (b * 1024)
          (slice_bytes words (yayul_bank b * 1024) 1024 ++ rest)
          physical
          0
        ≡ decode_words yayul
            (b * 1024 + 1024)
            rest
            (filled words (yayul_bank b * 1024) 1024 physical)
            0
  decode_words-bank b rest physical =
      let here : b * 1024 + 0 ≡ b * 1024 = omega arith in
      let from : yayul_bank b * 1024 + 0 ≡ yayul_bank b * 1024 = omega arith in
      rw (here, from) at (decode_words-slice 1024 b 0 rest physical (omega arith))

  decode_words-nil :
      (i : ℕ) (physical : ℕ → ℕ) → decode_words yayul i [] physical 0 ≡ ok (physical, 0)
  unfolding decode_words
  decode_words-nil i physical = refl

  -- The banks that the file has from one on are in memory once it has been read.
  abbrev Banks : ℕ → ℕ → (ℕ → ℕ) → (ℕ → ℕ) → Type 0
  Banks b n old new =
      (p : ℕ)
      → new p ≡ (
          if leb b (yayul_bank (p / 1024)) && ltb (yayul_bank (p / 1024)) (b + n)
          then words p
          else old p)

  bank-slice :
      (b p : ℕ)
      → (leb (yayul_bank b * 1024) p && ltb p (yayul_bank b * 1024 + 1024))
        ≡ (yayul_bank (p / 1024) == b)
  bank-slice b p = ground (
    arith,
    yayul_bank_self b,
    yayul_bank_self (p / 1024),
    yayul_bank-cases (p / 1024),
    yayul_bank-cases b,
  )

  decode_words-Banks :
      (n b : ℕ) (physical : ℕ → ℕ)
      → (new : ℕ → ℕ) × (decode_words yayul (b * 1024) (bank_bytes words b n) physical 0
          ≡ ok (new, 0))
        × Banks b n physical new
  unfolding bank_bytes
  decode_words-Banks zero b physical = (physical, decode_words-nil _ physical, λ p. ground arith)
  decode_words-Banks (suc n) b physical =
      let after = bank_bytes words (b + 1) n in
      let start : decode_words yayul (b * 1024)
            (slice_bytes words (yayul_bank b * 1024) 1024 ++ after) physical 0
          ≡ decode_words yayul (b * 1024 + 1024) after
              (filled words (yayul_bank b * 1024) 1024 physical) 0 =
        decode_words-bank b after physical in
      let (new, reads, holds) =
        decode_words-Banks n (b + 1) (filled words (yayul_bank b * 1024) 1024 physical) in
      (
        new,
        start ∙ (let next : b * 1024 + 1024 ≡ (b + 1) * 1024 = omega arith in rw next reads),
        λ p. ground (arith, holds p, bank-slice b p),
      )

length-slice_bytes : (words : ℕ → ℕ) (n start : ℕ) → length (slice_bytes words start n) ≡ 2 * n
unfolding slice_bytes push_word
length-slice_bytes words zero start = refl
length-slice_bytes words (suc n) start = omega (arith, length-slice_bytes words n (start + 1))

length-bank_bytes : (words : ℕ → ℕ) (n b : ℕ) → length (bank_bytes words b n) ≡ 2048 * n
unfolding bank_bytes
length-bank_bytes words zero b = refl
length-bank_bytes words (suc n) b =
    let bank = slice_bytes words (yayul_bank b * 1024) 1024 in
    omega (
      arith,
      length-append {0} bank (bank_bytes words (b + 1) n),
      length-slice_bytes words 1024 (yayul_bank b * 1024),
      length-bank_bytes words n (b + 1),
    )

-- The bytes of an array of words are read back as the words, each at its index.
pub decode_bytes-bank_bytes :
    (words : ℕ → ℕ)
    → ((i : ℕ) → IsWord (words i))
    → (image : RopeImage) × (decode_bytes (bank_bytes words 0 36) yayul ≡ ok image)
      × ((i : ℕ) → i < 36864 → image.words i ≡ words i)
      × (image.parity_words ≡ 0)
unfolding decode_bytes
decode_bytes-bank_bytes words fits =
    let (new, reads, holds) = decode_words-Banks words fits 36 0 (λ _. 0) in
    (
      record { words = new; format = yayul; parity_words = 0 },
      rw (length-bank_bytes words 36 0, reads) refl,
      λ i h. ground (arith, holds i, yayul_bank-cases (i / 1024)),
      refl,
    )

-- A rope of the right length is encoded, and its bytes are decoded to the same words, each at its
-- index, with no parity checked; of another length it is refused.
pub decode_bytes-encode_yayul :
    (words : List ℕ)
    → ((i : ℕ) → IsWord (get_or words i 0))
    → length words ≡ 36864
    → (bytes : List ℕ) × (image : RopeImage) × (encode_yayul words ≡ ok bytes)
      × (decode_bytes bytes yayul ≡ ok image)
      × ((i : ℕ) → i < 36864 → image.words i ≡ get_or words i 0)
      × (image.parity_words ≡ 0)
unfolding encode_yayul
decode_bytes-encode_yayul words fits n =
    let (image, reads, holds, none_checked) =
      decode_bytes-bank_bytes (λ i. get_or words i 0) fits in
    (bank_bytes (λ i. get_or words i 0) 0 36, image, rw n refl, reads, holds, none_checked)
