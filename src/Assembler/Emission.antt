-- ===== src/Assembler/Emission.antt =====
-- crates/agc-assembler/src/lib.rs: how many words a record emits, and which.
use apollo_rs.Prelude.{
  ℕ, zero, suc, ◌+◌, Bool, true, false, ◌&&◌, not, List, [], ◌∷◌, some, none, Result, ok, err, leb,
  if◌then◌else◌,
}
use apollo_rs.Prelude.Int.{ℤ, pos, negsuc, abs, is_neg}
use apollo_rs.Bits.{shr, low_bits}
use apollo_rs.Text.{Text, codes, is, is_any}
use apollo_rs.Word.{from_raw_truncate, from_i32}
use apollo_rs.Double.{from_i64}
use apollo_rs.Isa.Mnemonics.{Mnemonic, is_extended, extend, relint, inhint, resume}
use apollo_rs.Isa.Encode.{encode_with_context}
use apollo_rs.Isa.Names.{parse}
use apollo_rs.Symbols.Table.{SymbolTable}
use apollo_rs.Assembler.Records.{
  IrRecord, Operand, literal, no_operand, symbol, expression, Diagnostic, push_error, is_equate,
}
use apollo_rs.Assembler.Operands.{EvaluationError, evaluate_and_reference}

-- The size of an ERASE, with an error where its operand is none.
unfoldable pub erase_count : IrRecord → Operand → List Diagnostic → ℕ × List Diagnostic
erase_count r (literal (pos value)) diagnostics = (value + 1, diagnostics)
erase_count r (literal (negsuc value)) diagnostics = (0, push_error diagnostics (codes "AGCA020") r)
erase_count r no_operand diagnostics = (1, diagnostics)
erase_count r (symbol name offset) diagnostics = (0, push_error diagnostics (codes "AGCA020") r)
erase_count r (expression text) diagnostics = (0, push_error diagnostics (codes "AGCA020") r)

unfoldable pub is_single : Text → Bool
is_single operation = is_any operation (
    "OCT"
    ∷ ("ADRES"
        ∷ ("REMADR"
            ∷ ("ECADR"
                ∷ ("FCADR"
                    ∷ ("CADR" ∷ ("GENADR" ∷ ("XCADR" ∷ ("BBCON" ∷ ("DNCHAN" ∷ ("VN" ∷ [])))))))))))

unfoldable pub is_double : Text → Bool
is_double operation = is_any operation ("2CADR" ∷ ("2BCADR" ∷ ("1DNADR" ∷ [])))

unfoldable pub emitted_word_count : IrRecord → List Diagnostic → ℕ × List Diagnostic
unfolding erase_count
emitted_word_count r diagnostics =
    let operation = r.operation in
    elim (parse operation) [
      | some mnemonic ↦ (1, diagnostics)
      | none ↦
          if is_any operation ("DEC" ∷ ("BNKSUM" ∷ []))
          then (1, diagnostics)
          else if is_single operation
          then (1, diagnostics)
          else if is_any operation ("2OCT" ∷ ("2DEC" ∷ []))
          then (2, diagnostics)
          else if is_double operation
          then (2, diagnostics)
          else if is operation "ERASE"
          then erase_count r r.operand diagnostics
          else if is_equate operation
          then (0, diagnostics)
          else (0, push_error diagnostics (codes "AGCA021") r)
    ]

-- Words, or no words and an error.
abbrev pub Emitted : Type 0
Emitted = List ℕ × List Diagnostic

abbrev refused : List Diagnostic → Text → IrRecord → Emitted
refused diagnostics code r = ([], push_error diagnostics code r)

unfoldable pub single_word : Result EvaluationError ℤ → IrRecord → List Diagnostic → Emitted
unfolding from_raw_truncate
single_word (ok (pos value)) r diagnostics =
    if leb value 0o77777
    then (from_raw_truncate (low_bits value 16) ∷ [], diagnostics)
    else refused diagnostics (codes "AGCA040") r
single_word (ok (negsuc value)) r diagnostics = refused diagnostics (codes "AGCA040") r
single_word (err e) r diagnostics = refused diagnostics (codes "AGCA041") r

-- `i32::try_from` fails outside of 32 bits.
unfoldable pub signed_word : Result EvaluationError ℤ → IrRecord → List Diagnostic → Emitted
signed_word (err e) r diagnostics = refused diagnostics (codes "AGCA043") r
signed_word (ok value) r diagnostics =
    if leb (abs value) (if is_neg value then 0x8000_0000 else 0x7fff_ffff)
    then elim (from_i32 value) [
      | ok word ↦ (word ∷ [], diagnostics)
      | err e ↦ refused diagnostics (codes "AGCA042") r
    ]
    else refused diagnostics (codes "AGCA043") r

-- The two halves of an unsigned number of 28 bits.
unfoldable pub double_octal : ℤ → IrRecord → List Diagnostic → Emitted
unfolding from_raw_truncate
double_octal (pos value) r diagnostics =
    if leb value 0x0fff_ffff
    then (
      from_raw_truncate (low_bits (low_bits (shr (low_bits value 32) 14) 14) 16)
          ∷ (from_raw_truncate (low_bits (low_bits (low_bits value 32) 14) 16) ∷ []),
      diagnostics,
    )
    else refused diagnostics (codes "AGCA046") r
double_octal (negsuc value) r diagnostics = refused diagnostics (codes "AGCA046") r

unfoldable pub double_words : Result EvaluationError ℤ → Bool → IrRecord → List Diagnostic → Emitted
unfolding double_octal
double_words (err e) signed r diagnostics = refused diagnostics (codes "AGCA044") r
double_words (ok value) true r diagnostics = elim (from_i64 value) [
  | ok double ↦ (double.high ∷ (double.low ∷ []), diagnostics)
  | err e ↦ refused diagnostics (codes "AGCA045") r
]
double_words (ok value) false r diagnostics = double_octal value r diagnostics

abbrev pub takes_no_operand : Mnemonic → Bool
takes_no_operand extend = true
takes_no_operand relint = true
takes_no_operand inhint = true
takes_no_operand resume = true
takes_no_operand _ = false

-- An instruction with its operand, in the context of the record before it.
unfoldable pub encode_instruction : Mnemonic → ℕ → IrRecord → Bool → List Diagnostic → Emitted
unfolding encode_with_context is_extended
encode_instruction mnemonic operand r extended_context diagnostics =
    if is_extended mnemonic && not extended_context
    then refused diagnostics (codes "AGCA032") r
    else elim (encode_with_context mnemonic operand extended_context) [
      | ok word ↦ (word ∷ [], diagnostics)
      | err e ↦ refused diagnostics (codes "AGCA033") r
    ]

-- An operand of twelve bits is encoded, any other refused.
unfoldable pub emit_instruction :
    Mnemonic → Result EvaluationError ℤ → IrRecord → Bool → List Diagnostic → Emitted
unfolding encode_instruction
emit_instruction mnemonic (ok (pos value)) r extended_context diagnostics =
    if leb value 0o7777
    then encode_instruction mnemonic value r extended_context diagnostics
    else refused diagnostics (codes "AGCA030") r
emit_instruction mnemonic (ok (negsuc value)) r extended_context diagnostics =
    refused diagnostics (codes "AGCA030") r
emit_instruction mnemonic (err e) r extended_context diagnostics =
    refused diagnostics (codes "AGCA031") r

unfoldable pub replicate : ℕ → List ℕ
replicate zero = []
replicate (suc n) = 0 ∷ replicate n

-- The word of a 2CADR, with a zero after it.
abbrev pub with_zero : Emitted → Emitted
with_zero ([], diagnostics) = ([], diagnostics)
with_zero (word ∷ words, diagnostics) = (word ∷ (0 ∷ []), diagnostics)

-- The words of a record, and the symbols with its uses noted. An operand is evaluated only where
-- the operation takes one.
unfoldable pub emit_data : IrRecord → SymbolTable → List Diagnostic → Emitted × SymbolTable
unfolding emitted_word_count replicate
emit_data r symbols diagnostics =
    let operation = r.operation in
    let evaluated = evaluate_and_reference r.operand symbols r.location in
    let value = evaluated.0 in
    if is operation "DEC"
    then (signed_word value r diagnostics, evaluated.1)
    else if is operation "2OCT"
    then (double_words value false r diagnostics, evaluated.1)
    else if is operation "2DEC"
    then (double_words value true r diagnostics, evaluated.1)
    else if is_single operation
    then (single_word value r diagnostics, evaluated.1)
    else if is_double operation
    then (with_zero (single_word value r diagnostics), evaluated.1)
    else if is operation "ERASE"
    then (
      (replicate (emitted_word_count r diagnostics).0, (emitted_word_count r diagnostics).1),
      symbols,
    )
    else if is operation "BNKSUM"
    then ((0 ∷ [], diagnostics), symbols)
    else (([], diagnostics), symbols)

unfoldable pub emit_record : IrRecord → SymbolTable → Bool → List Diagnostic → Emitted × SymbolTable
unfolding emit_instruction emit_data
emit_record r symbols extended_context diagnostics = elim (parse r.operation) [
  | some mnemonic ↦
      if takes_no_operand mnemonic
      then (encode_instruction mnemonic 0 r extended_context diagnostics, symbols)
      else (
        emit_instruction mnemonic (evaluate_and_reference r.operand symbols r.location).0 r
            extended_context diagnostics,
        (evaluate_and_reference r.operand symbols r.location).1,
      )
  | none ↦ emit_data r symbols diagnostics
]
