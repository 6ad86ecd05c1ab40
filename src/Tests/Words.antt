-- ===== src/Tests/Words.antt =====
-- Words, registers, double words and instructions at concrete values.
use apollo_rs.Prelude.{◌≡◌, refl, arith, false, ok}
use apollo_rs.Prelude.Int.{◌+ℤ◌}
use apollo_rs.Word.{overflowing_add, sign_extend, to_i32_lossy_zero}
use apollo_rs.Word.Sum.{missing, overflowing_add-value}
use apollo_rs.Register
use apollo_rs.Register.Laws.{is_overflow, has_overflow-wrapping_add}
use apollo_rs.Isa.Mnemonics.{ts, ccs}
use apollo_rs.Isa.Decode.{decode, decode_basic}
use apollo_rs.Isa.Encode.{encode_with_context}
use apollo_rs.Isa.RoundTrip.{read_back, encode-decode, decode-encode}

-- 16383 and 1 overflow to the raw word 040000, which reads as -16383.
largest_plus_one : (overflowing_add 16383 1).value ≡ 16384
unfolding overflowing_add
largest_plus_one = refl

overflowing_add-value_example :
    to_i32_lossy_zero (overflowing_add 16383 1).value +ℤ missing (overflowing_add 16383 1).overflow
    ≡ to_i32_lossy_zero 16383 +ℤ to_i32_lossy_zero 1
overflowing_add-value_example = overflowing_add-value 16383 1 (omega arith) (omega arith)

has_overflow-wrapping_add_example :
    Register.has_overflow (Register.wrapping_add (sign_extend 16383) (sign_extend 1))
    ≡ is_overflow (overflowing_add 16383 1).overflow
has_overflow-wrapping_add_example = has_overflow-wrapping_add 16383 1 (omega arith) (omega arith)

-- TS 100 has the word 054144.
encode-decode_example :
    encode_with_context (decode 0o54144 false).mnemonic (decode 0o54144 false).operand false
    ≡ ok 0o54144
encode-decode_example = encode-decode 0o54144 false (omega arith)

decode-encode_example :
    ((decode 0o54144 (read_back ts false)).mnemonic ≡ ts)
    × ((decode 0o54144 (read_back ts false)).operand ≡ 100)
unfolding encode_with_context
decode-encode_example = decode-encode ts 100 false refl refl

-- TCF to an erasable address has the word of CCS.
shadowed_tcf : (decode 0o10100 false).mnemonic ≡ ccs
unfolding decode decode_basic
shadowed_tcf = refl
