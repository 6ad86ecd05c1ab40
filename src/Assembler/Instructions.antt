-- ===== src/Assembler/Instructions.antt =====
-- crates/agc-assembler/src/lib.rs, `emit_record`: an instruction is encoded, or there is an error.
use apollo_rs.Prelude.{
  ℕ, ◌<◌, ◌≡◌, refl, arith, Bool, true, false, sym, ◌∙◌, ◌&&◌, not, List, [], ◌∷◌, some, Result, ok,
  err, leb, if_cases, result_cases,
}
use apollo_rs.Prelude.Int.{ℤ, pos, negsuc}
use apollo_rs.Isa.Mnemonics.{Mnemonic, is_extended}
use apollo_rs.Isa.Encode.{encode_with_context}
use apollo_rs.Isa.Names.{parse}
use apollo_rs.Text.{Text}
use apollo_rs.Symbols.Table.{SymbolTable}
use apollo_rs.Assembler.Records.{IrRecord, Diagnostic, push_error}
use apollo_rs.Assembler.Operands.{EvaluationError, evaluate_operand, evaluate_and_reference}
use apollo_rs.Assembler.Values.{
  SameValues, evaluate_operand-SameValues, evaluate_and_reference-value,
}
use apollo_rs.Assembler.Diagnostics.{count_errors}
use apollo_rs.Assembler.Emission.{
  encode_instruction, emit_instruction, emit_record, Emitted, takes_no_operand,
}
use apollo_rs.Assembler.Words.{count_errors-push_error}

-- The operand of an instruction is the value of its record, or zero where the mnemonic takes none.
abbrev pub IsOperand : IrRecord → SymbolTable → Mnemonic → ℕ → Type 0
IsOperand r symbols m operand =
    (takes_no_operand m ≡ true → operand ≡ 0)
    × (takes_no_operand m ≡ false → evaluate_operand r.operand symbols ≡ ok (pos operand))

pub IsOperand-SameValues :
    (r : IrRecord) (s t : SymbolTable) (m : Mnemonic) (operand : ℕ)
    → SameValues s t
    → IsOperand r s m operand
    → IsOperand r t m operand
IsOperand-SameValues r s t m operand same h =
    (h.0, λ takes. evaluate_operand-SameValues s t same r.operand ∙ h.1 takes)

-- What an instruction emits: an error more, or the one word that encodes it with its operand.
pub data Encoded (ds : List Diagnostic) (r : IrRecord) (symbols : SymbolTable) (m : Mnemonic)
    (x : Bool) (e : Emitted) : Type 0 where
  failed : count_errors ds < count_errors e.1 → Encoded ds r symbols m x e
  encoded :
      (w operand : ℕ)
      → e.0 ≡ w ∷ []
      → encode_with_context m operand x ≡ ok w
      → IsOperand r symbols m operand
      → Encoded ds r symbols m x e

module _ (ds : List Diagnostic) (r : IrRecord) (symbols : SymbolTable) (m : Mnemonic)
    (x : Bool) where
  abbrev Encodes : Emitted → Type 0
  Encodes = Encoded ds r symbols m x

  refused-Encoded : (code : Text) → Encodes ([], push_error ds code r)
  refused-Encoded code = failed (omega (arith, count_errors-push_error ds code r))

  encode_instruction-Encoded :
      (operand : ℕ) → IsOperand r symbols m operand → Encodes (encode_instruction m operand r x ds)
  unfolding encode_instruction
  encode_instruction-Encoded operand means =
      if_cases Encodes (is_extended m && not x) _ _ (λ _. refused-Encoded _)
        λ _.
          result_cases Encodes (encode_with_context m operand x) _ _
            (λ w e. encoded w operand refl e means) λ _ _. refused-Encoded _

  emit_instruction-Encoded :
      (v : Result EvaluationError ℤ)
      → takes_no_operand m ≡ false
      → v ≡ evaluate_operand r.operand symbols
      → Encodes (emit_instruction m v r x ds)
  unfolding emit_instruction
  emit_instruction-Encoded (ok (pos n)) takes e =
      if_cases Encodes (leb n 0o7777) _ _
        (λ _.
          encode_instruction-Encoded n
            (λ none_taken. ground (arith, takes, none_taken), λ _. sym e))
        λ _. refused-Encoded _
  emit_instruction-Encoded (ok (negsuc n)) takes e = refused-Encoded _
  emit_instruction-Encoded (err y) takes e = refused-Encoded _

  abbrev RecordEncoded : Emitted × SymbolTable → Type 0
  RecordEncoded e = Encodes e.0

  pub emit_record-Encoded : parse r.operation ≡ some m → Encodes (emit_record r symbols x ds).0
  unfolding emit_record
  emit_record-Encoded is_instruction =
      rw (is_instruction, emit_record)
        (if_cases RecordEncoded (takes_no_operand m) _ _
          (λ none_taken.
            encode_instruction-Encoded 0 (λ _. refl, λ takes. ground (arith, takes, none_taken)))
          λ takes.
            emit_instruction-Encoded (evaluate_and_reference r.operand symbols r.location).0 takes
              (evaluate_and_reference-value r.operand symbols r.location))
