-- ===== src/Isa/RoundTrip.antt =====
-- `encode_with_context` and `decode` against each other.
use native.Mathlib.Decide.{dec_lt}
use native.Mathlib.Nat.{mod-eq_of_lt}
use apollo_rs.Prelude.{ℕ, ◌+◌, ◌/◌, ◌^◌, ◌<◌, ◌≤◌, ◌≡◌, refl, arith, Bool, true, false}
use apollo_rs.Prelude.{◌==◌, ltb, ◌||◌, bit_or, ok, err, ap, ◌∙◌}
use apollo_rs.Bits.{shl, low_bits, bit_or-fields}
use apollo_rs.Word.{IsWord}
use apollo_rs.Isa.Mnemonics.{Mnemonic, is_extended, ad, ads, aug, bzf, bzmf, ca, ccs, cs, das}
use apollo_rs.Isa.Mnemonics.{dca, dcs, dim, dv, dxch, edrupt, extend, incr, index, inhint, lxch}
use apollo_rs.Isa.Mnemonics.{mask, mp, msu, qxch, rand, read, relint, resume, ror, rxor, su, tc}
use apollo_rs.Isa.Mnemonics.{tcf, ts, wand, wor, write, xch}
use apollo_rs.Isa.Decode.{decode, decode_basic, decode_extended}
use apollo_rs.Isa.Encode.{operand_out_of_range, base_and_bits, encode_with_context}

-- The context in which an encoded instruction is read back.
abbrev pub read_back : Mnemonic → Bool → Bool
read_back index c = c
read_back m c = is_extended m

abbrev base : Mnemonic → Bool → ℕ
base m c = (base_and_bits m c).0

abbrev pub bits : Mnemonic → Bool → ℕ
bits m c = (base_and_bits m c).1

-- Each base word leaves the bits of its operand clear, and no operand carries it past 15 bits.
abbrev Aligned : Mnemonic → Bool → Type 0
Aligned m c =
    (base m c ≡ shl (base m c / 2 ^ bits m c) (bits m c)) × (base m c + 2 ^ bits m c ≤ 2 ^ 15)

base-Aligned : (m : Mnemonic) (c : Bool) → Aligned m c
base-Aligned index true = (refl, omega arith)
base-Aligned index false = (refl, omega arith)
base-Aligned ad c = (refl, omega arith)
base-Aligned _ c = (refl, omega arith)

place : (b q k : ℕ) → k < 2 ^ b → bit_or (shl q b) (low_bits k b) ≡ shl q b + k
place b q k h = rw (mod-eq_of_lt h) (bit_or-fields b q k h)

-- An operand that fits its field is added to the base word.
encode-sum :
    (m : Mnemonic) (k : ℕ) (c : Bool)
    → k < 2 ^ bits m c
    → encode_with_context m k c ≡ ok (base m c + k)
unfolding encode_with_context
encode-sum index k true h = ground (arith, place 12 5 k h)
encode-sum index k false h = ground (arith, place 10 20 k h)
encode-sum ad k c h = ground (arith, place 12 6 k h)
encode-sum m k c h = ground (arith, place (bits m c) (base m c / 2 ^ bits m c) k h)

-- An operand too wide for its field is refused.
encode-refuses :
    (m : Mnemonic) (k : ℕ) (c : Bool)
    → 2 ^ bits m c ≤ k
    → encode_with_context m k c ≡ err (operand_out_of_range m k (bits m c))
unfolding encode_with_context
encode-refuses index k true h = ground arith
encode-refuses index k false h = ground arith
encode-refuses ad k c h = ground arith
encode-refuses _ k c h = ground arith

-- The words that `decode` reads as another instruction: opcodes that share their bits with a
-- shorter operand field, and the special operands of TC and INDEX.
abbrev pub is_shadowed : Mnemonic → ℕ → Bool → Bool
is_shadowed tc k c = k == 3 || (k == 4 || k == 6)
is_shadowed tcf k c = ltb k 1024
is_shadowed bzf k c = ltb k 1024
is_shadowed bzmf k c = ltb k 1024
is_shadowed index k false = k == 15
is_shadowed _ k c = false

-- The instructions with no operand.
basic_special :
    (k : ℕ)
    → k < 1
    → (decode_basic (3 + k) ≡ (relint, k, 1))
      × (decode_basic (4 + k) ≡ (inhint, k, 1))
      × (decode_basic (6 + k) ≡ (extend, k, 1))
      × (decode_basic (20495 + k) ≡ (resume, k, 2))
unfolding decode_basic
basic_special k h = (ground arith, ground arith, ground arith, ground arith)

-- The basic instructions with twelve bits of operand.
basic_wide :
    (k : ℕ)
    → k < 4096
    → (decode_basic (12288 + k) ≡ (ca, k, 2))
      × (decode_basic (16384 + k) ≡ (cs, k, 2))
      × (decode_basic (24576 + k) ≡ (ad, k, 2))
      × (decode_basic (28672 + k) ≡ (mask, k, 2))
unfolding decode_basic
basic_wide k h = (ground arith, ground arith, ground arith, ground arith)

-- The basic instructions with ten bits.
basic_narrow :
    (k : ℕ)
    → k < 1024
    → (decode_basic (4096 + k) ≡ (ccs, k, 2))
      × (decode_basic (8192 + k) ≡ (das, k, 3))
      × (decode_basic (9216 + k) ≡ (lxch, k, 2))
      × (decode_basic (10240 + k) ≡ (incr, k, 2))
      × (decode_basic (11264 + k) ≡ (ads, k, 2))
      × (decode_basic (21504 + k) ≡ (dxch, k, 3))
      × (decode_basic (22528 + k) ≡ (ts, k, 2))
      × (decode_basic (23552 + k) ≡ (xch, k, 2))
unfolding decode_basic
basic_narrow k h = (
  ground arith,
  ground arith,
  ground arith,
  ground arith,
  ground arith,
  ground arith,
  ground arith,
  ground arith,
)

-- The channel instructions.
extended_channel :
    (k : ℕ)
    → k < 512
    → (decode_extended (0 + k) ≡ (read, k, 2))
      × (decode_extended (512 + k) ≡ (write, k, 2))
      × (decode_extended (1024 + k) ≡ (rand, k, 2))
      × (decode_extended (1536 + k) ≡ (wand, k, 2))
      × (decode_extended (2048 + k) ≡ (ror, k, 2))
      × (decode_extended (2560 + k) ≡ (wor, k, 2))
      × (decode_extended (3072 + k) ≡ (rxor, k, 2))
      × (decode_extended (3584 + k) ≡ (edrupt, k, 1))
unfolding decode_extended
extended_channel k h = (
  ground arith,
  ground arith,
  ground arith,
  ground arith,
  ground arith,
  ground arith,
  ground arith,
  ground arith,
)

-- The extracodes with ten bits.
extended_narrow :
    (k : ℕ)
    → k < 1024
    → (decode_extended (4096 + k) ≡ (dv, k, 6))
      × (decode_extended (8192 + k) ≡ (msu, k, 2))
      × (decode_extended (9216 + k) ≡ (qxch, k, 2))
      × (decode_extended (10240 + k) ≡ (aug, k, 2))
      × (decode_extended (11264 + k) ≡ (dim, k, 2))
      × (decode_extended (24576 + k) ≡ (su, k, 2))
unfolding decode_extended
extended_narrow k h =
    (ground arith, ground arith, ground arith, ground arith, ground arith, ground arith)

-- The extracodes with twelve bits.
extended_wide :
    (k : ℕ)
    → k < 4096
    → (decode_extended (12288 + k) ≡ (dca, k, 3))
      × (decode_extended (16384 + k) ≡ (dcs, k, 3))
      × (decode_extended (20480 + k) ≡ (index, k, 2))
      × (decode_extended (28672 + k) ≡ (mp, k, 3))
unfolding decode_extended
extended_wide k h = (ground arith, ground arith, ground arith, ground arith)

-- The instructions whose words others share, where they are not shadowed.
tc_row : (k : ℕ) → k < 4096 → is_shadowed tc k false ≡ false → decode_basic (0 + k) ≡ (tc, k, 1)
unfolding decode_basic
tc_row k h s = ground arith

tcf_row :
    (k : ℕ) → k < 4096 → is_shadowed tcf k false ≡ false → decode_basic (4096 + k) ≡ (tcf, k, 1)
unfolding decode_basic
tcf_row k h s = ground arith

index_row :
    (k : ℕ)
    → k < 1024
    → is_shadowed index k false ≡ false
    → decode_basic (20480 + k) ≡ (index, k, 2)
unfolding decode_basic
index_row k h s = ground arith

bzf_row :
    (k : ℕ) → k < 4096 → is_shadowed bzf k false ≡ false → decode_extended (4096 + k) ≡ (bzf, k, 1)
unfolding decode_extended
bzf_row k h s = ground arith

bzmf_row :
    (k : ℕ)
    → k < 4096
    → is_shadowed bzmf k false ≡ false
    → decode_extended (24576 + k) ≡ (bzmf, k, 1)
unfolding decode_extended
bzmf_row k h s = ground arith

decode-sum :
    (m : Mnemonic) (k : ℕ) (c : Bool)
    → k < 2 ^ bits m c
    → is_shadowed m k c ≡ false
    → ((decode (base m c + k) (read_back m c)).mnemonic ≡ m)
      × ((decode (base m c + k) (read_back m c)).operand ≡ k)
unfolding decode is_extended
decode-sum ad k c h s = rw ((basic_wide k h).2) (refl, refl)
decode-sum ads k c h s = rw ((basic_narrow k h).4) (refl, refl)
decode-sum aug k c h s = rw ((extended_narrow k h).3) (refl, refl)
decode-sum bzf k c h s = rw (bzf_row k h s) (refl, refl)
decode-sum bzmf k c h s = rw (bzmf_row k h s) (refl, refl)
decode-sum ca k c h s = rw ((basic_wide k h).0) (refl, refl)
decode-sum ccs k c h s = rw ((basic_narrow k h).0) (refl, refl)
decode-sum cs k c h s = rw ((basic_wide k h).1) (refl, refl)
decode-sum das k c h s = rw ((basic_narrow k h).1) (refl, refl)
decode-sum dca k c h s = rw ((extended_wide k h).0) (refl, refl)
decode-sum dcs k c h s = rw ((extended_wide k h).1) (refl, refl)
decode-sum dim k c h s = rw ((extended_narrow k h).4) (refl, refl)
decode-sum dv k c h s = rw ((extended_narrow k h).0) (refl, refl)
decode-sum dxch k c h s = rw ((basic_narrow k h).5) (refl, refl)
decode-sum edrupt k c h s = rw ((extended_channel k h).7) (refl, refl)
decode-sum extend k c h s = rw ((basic_special k h).2) (refl, refl)
decode-sum incr k c h s = rw ((basic_narrow k h).3) (refl, refl)
decode-sum index k true h s = rw ((extended_wide k h).2) (refl, refl)
decode-sum index k false h s = rw (index_row k h s) (refl, refl)
decode-sum inhint k c h s = rw ((basic_special k h).1) (refl, refl)
decode-sum lxch k c h s = rw ((basic_narrow k h).2) (refl, refl)
decode-sum mask k c h s = rw ((basic_wide k h).3) (refl, refl)
decode-sum mp k c h s = rw ((extended_wide k h).3) (refl, refl)
decode-sum msu k c h s = rw ((extended_narrow k h).1) (refl, refl)
decode-sum qxch k c h s = rw ((extended_narrow k h).2) (refl, refl)
decode-sum rand k c h s = rw ((extended_channel k h).2) (refl, refl)
decode-sum read k c h s = rw ((extended_channel k h).0) (refl, refl)
decode-sum relint k c h s = rw ((basic_special k h).0) (refl, refl)
decode-sum resume k c h s = rw ((basic_special k h).3) (refl, refl)
decode-sum ror k c h s = rw ((extended_channel k h).4) (refl, refl)
decode-sum rxor k c h s = rw ((extended_channel k h).6) (refl, refl)
decode-sum su k c h s = rw ((extended_narrow k h).5) (refl, refl)
decode-sum tc k c h s = rw (tc_row k h s) (refl, refl)
decode-sum tcf k c h s = rw (tcf_row k h s) (refl, refl)
decode-sum ts k c h s = rw ((basic_narrow k h).6) (refl, refl)
decode-sum wand k c h s = rw ((extended_channel k h).3) (refl, refl)
decode-sum wor k c h s = rw ((extended_channel k h).5) (refl, refl)
decode-sum write k c h s = rw ((extended_channel k h).1) (refl, refl)
decode-sum xch k c h s = rw ((basic_narrow k h).7) (refl, refl)

-- A word that encodes an instruction, in its context, is decoded to the same mnemonic and operand,
-- unless another instruction shares the word.
pub decode-encode :
    (m : Mnemonic) (k : ℕ) (c : Bool) {w : ℕ}
    → encode_with_context m k c ≡ ok w
    → is_shadowed m k c ≡ false
    → ((decode w (read_back m c)).mnemonic ≡ m) × ((decode w (read_back m c)).operand ≡ k)
decode-encode m k c {w} e s = elim (dec_lt k (2 ^ bits m c)) [
  | yes h ↦
      let same : base m c + k ≡ w = cc (encode-sum m k c h) in rw same at (decode-sum m k c h s)
  | no h ↦ absurd (cc (encode-refuses m k c (omega arith)))
]

-- Each decoded operand fits the field of its mnemonic, and completes the base word.
pub decode-fits :
    (w : ℕ) (c : Bool)
    → IsWord w
    → let d = decode w c in
      (base d.mnemonic c + d.operand ≡ w) × (d.operand < 2 ^ bits d.mnemonic c)
unfolding decode decode_basic decode_extended
decode-fits w true h = ground arith
decode-fits w false h = ground arith

-- Every word, in either context, is the encoding of the instruction that it is decoded to.
pub encode-decode :
    (w : ℕ) (c : Bool)
    → IsWord w
    → encode_with_context (decode w c).mnemonic (decode w c).operand c ≡ ok w
encode-decode w c h =
    let fits = decode-fits w c h in
    encode-sum (decode w c).mnemonic (decode w c).operand c fits.1 ∙ ap ok fits.0
