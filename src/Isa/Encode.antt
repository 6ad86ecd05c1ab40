-- ===== src/Isa/Encode.antt =====
-- crates/agc-isa/src/lib.rs, `encode` and `encode_with_context`.
use apollo_rs.Prelude.{ℕ, Bool, true, false, ◌==◌, if◌then◌else◌, bit_or}
use apollo_rs.Prelude.{Result, err, map_err}
use apollo_rs.Bits.{shr, low_bits}
use apollo_rs.Word.{try_from_raw}
use apollo_rs.Isa.Mnemonics.{Mnemonic, ad, ads, aug, bzf, bzmf, ca, ccs, cs, das}
use apollo_rs.Isa.Mnemonics.{dca, dcs, dim, dv, dxch, edrupt, extend, incr, index, inhint, lxch}
use apollo_rs.Isa.Mnemonics.{mask, mp, msu, qxch, rand, read, relint, resume, ror, rxor, su, tc}
use apollo_rs.Isa.Mnemonics.{tcf, ts, wand, wor, write, xch}

pub data EncodeError : Type 0 where
  operand_out_of_range : Mnemonic → ℕ → ℕ → EncodeError

-- The base word and the width of the operand field; the field's mask is `2 ^ width - 1`.
abbrev pub base_and_bits : Mnemonic → Bool → ℕ × ℕ
base_and_bits relint c = (0o00003, 0)
base_and_bits inhint c = (0o00004, 0)
base_and_bits extend c = (0o00006, 0)
base_and_bits resume c = (0o50017, 0)
base_and_bits tc c = (0o00000, 12)
base_and_bits ccs c = (0o10000, 10)
base_and_bits tcf c = (0o10000, 12)
base_and_bits das c = (0o20000, 10)
base_and_bits lxch c = (0o22000, 10)
base_and_bits incr c = (0o24000, 10)
base_and_bits ads c = (0o26000, 10)
base_and_bits ca c = (0o30000, 12)
base_and_bits cs c = (0o40000, 12)
base_and_bits index false = (0o50000, 10)
base_and_bits dxch c = (0o52000, 10)
base_and_bits ts c = (0o54000, 10)
base_and_bits xch c = (0o56000, 10)
base_and_bits ad c = (0o60000, 12)
base_and_bits mask c = (0o70000, 12)
base_and_bits read c = (0o00000, 9)
base_and_bits write c = (0o01000, 9)
base_and_bits rand c = (0o02000, 9)
base_and_bits wand c = (0o03000, 9)
base_and_bits ror c = (0o04000, 9)
base_and_bits wor c = (0o05000, 9)
base_and_bits rxor c = (0o06000, 9)
base_and_bits edrupt c = (0o07000, 9)
base_and_bits dv c = (0o10000, 10)
base_and_bits bzf c = (0o10000, 12)
base_and_bits msu c = (0o20000, 10)
base_and_bits qxch c = (0o22000, 10)
base_and_bits aug c = (0o24000, 10)
base_and_bits dim c = (0o26000, 10)
base_and_bits dca c = (0o30000, 12)
base_and_bits dcs c = (0o40000, 12)
base_and_bits index true = (0o50000, 12)
base_and_bits su c = (0o60000, 10)
base_and_bits bzmf c = (0o60000, 12)
base_and_bits mp c = (0o70000, 12)

unfoldable pub encode_with_context : Mnemonic → ℕ → Bool → Result EncodeError ℕ
unfolding try_from_raw
encode_with_context mnemonic operand extended_context =
    let (base, bits) = base_and_bits mnemonic extended_context in
    if shr operand bits == 0
    then map_err (λ _. operand_out_of_range mnemonic operand bits)
        (try_from_raw (bit_or base (low_bits operand bits)))
    else err (operand_out_of_range mnemonic operand bits)

unfoldable pub encode : Mnemonic → ℕ → Result EncodeError ℕ
unfolding encode_with_context
encode mnemonic operand = encode_with_context mnemonic operand false
