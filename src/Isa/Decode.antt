-- ===== src/Isa/Decode.antt =====
-- crates/agc-isa/src/lib.rs, `decode`: every word has an instruction in each context.
use apollo_rs.Prelude.{ℕ, Bool, ◌==◌, ◌&&◌, if◌then◌else◌}
use apollo_rs.Bits.{shr, low_bits}
use apollo_rs.Isa.Mnemonics.{
  Mnemonic, DecodedInstruction, ad, ads, aug, bzf, bzmf, ca, ccs, cs, das,
}
use apollo_rs.Isa.Mnemonics.{dca, dcs, dim, dv, dxch, edrupt, extend, incr, index, inhint, lxch}
use apollo_rs.Isa.Mnemonics.{mask, mp, msu, qxch, rand, read, relint, resume, ror, rxor, su, tc}
use apollo_rs.Isa.Mnemonics.{tcf, ts, wand, wor, write, xch}

-- The triple of mnemonic, operand and cycles.
abbrev pub Row : Type 0
Row = Mnemonic × ℕ × ℕ

-- The channel instructions, by `(bits >> 9) & 7`.
unfoldable pub decode_channel : ℕ → Row
decode_channel bits =
    let code = low_bits (shr bits 9) 3 in
    let k = low_bits bits 9 in
    if code == 0
    then (read, k, 2)
    else if code == 1
    then (write, k, 2)
    else if code == 2
    then (rand, k, 2)
    else if code == 3
    then (wand, k, 2)
    else if code == 4
    then (ror, k, 2)
    else if code == 5
    then (wor, k, 2)
    else if code == 6
    then (rxor, k, 2)
    else (edrupt, k, 1)

unfoldable pub decode_extended : ℕ → Row
unfolding decode_channel
decode_extended bits =
    let opcode = low_bits (shr bits 12) 3 in
    let quarter = low_bits (shr bits 10) 2 in
    if opcode == 0
    then decode_channel bits
    else if opcode == 1
    then if quarter == 0 then (dv, low_bits bits 10, 6) else (bzf, low_bits bits 12, 1)
    else if opcode == 2
    then if quarter == 0
      then (msu, low_bits bits 10, 2)
      else if quarter == 1
      then (qxch, low_bits bits 10, 2)
      else if quarter == 2
      then (aug, low_bits bits 10, 2)
      else (dim, low_bits bits 10, 2)
    else if opcode == 3
    then (dca, low_bits bits 12, 3)
    else if opcode == 4
    then (dcs, low_bits bits 12, 3)
    else if opcode == 5
    then (index, low_bits bits 12, 2)
    else if opcode == 6
    then if quarter == 0 then (su, low_bits bits 10, 2) else (bzmf, low_bits bits 12, 1)
    else (mp, low_bits bits 12, 3)

-- The four instructions that share opcode 0.
unfoldable pub decode_transfer : ℕ → Row
decode_transfer bits =
    let operand = low_bits bits 12 in
    if operand == 3
    then (relint, 0, 1)
    else if operand == 4
    then (inhint, 0, 1)
    else if operand == 6
    then (extend, 0, 1)
    else (tc, operand, 1)

unfoldable pub decode_basic : ℕ → Row
unfolding decode_transfer
decode_basic bits =
    let opcode = low_bits (shr bits 12) 3 in
    let quarter = low_bits (shr bits 10) 2 in
    if opcode == 0
    then decode_transfer bits
    else if opcode == 1
    then if quarter == 0 then (ccs, low_bits bits 10, 2) else (tcf, low_bits bits 12, 1)
    else if opcode == 2
    then if quarter == 0
      then (das, low_bits bits 10, 3)
      else if quarter == 1
      then (lxch, low_bits bits 10, 2)
      else if quarter == 2
      then (incr, low_bits bits 10, 2)
      else (ads, low_bits bits 10, 2)
    else if opcode == 3
    then (ca, low_bits bits 12, 2)
    else if opcode == 4
    then (cs, low_bits bits 12, 2)
    else if opcode == 5
    then if quarter == 0 && low_bits bits 12 == 0o17
      then (resume, 0, 2)
      else if quarter == 0
      then (index, low_bits bits 10, 2)
      else if quarter == 1
      then (dxch, low_bits bits 10, 3)
      else if quarter == 2
      then (ts, low_bits bits 10, 2)
      else (xch, low_bits bits 10, 2)
    else if opcode == 6
    then (ad, low_bits bits 12, 2)
    else (mask, low_bits bits 12, 2)

unfoldable pub decode : ℕ → Bool → DecodedInstruction
decode bits extended =
    let row = if extended then decode_extended bits else decode_basic bits in
    record { mnemonic = row.0; operand = row.1; raw = bits; extended = extended; cycles = row.2 }
