-- ===== src/Assembler/Equates.antt =====
-- crates/agc-assembler/src/lib.rs, `assemble`: equates are resolved to a fixed point.
use apollo_rs.Prelude.{ℕ, zero, suc, Bool, true, false, List, [], ◌∷◌, ok, err, leb, if◌then◌else◌}
use apollo_rs.Prelude.Int.{ℤ, pos, negsuc}
use apollo_rs.Bits.{low_bits}
use apollo_rs.Text.{Text, codes}
use apollo_rs.Word.{from_raw_truncate}
use apollo_rs.Symbols.Table.{SymbolValue, constant, absolute, SymbolTable}
use apollo_rs.Assembler.Records.{IrRecord, Diagnostic, push_error}
use apollo_rs.Assembler.Operands.{evaluate_operand}
use apollo_rs.Assembler.Assign.{define_or_report}

-- The value of an equate: a word where it has fifteen bits.
unfoldable pub equate_value : ℤ → SymbolValue
unfolding from_raw_truncate
equate_value (pos value) =
    if leb value 0o77777
    then constant (from_raw_truncate (low_bits value 16))
    else absolute (pos value)
equate_value (negsuc value) = absolute (negsuc value)

pub record Equating : Type 0 where
  pub symbols : SymbolTable
  pub diagnostics : List Diagnostic

-- One round over the equates: those left over, and whether any was defined.
unfoldable pub sweep_equates :
    List (IrRecord × Text) → Equating → List (IrRecord × Text) × Bool × Equating
unfolding equate_value define_or_report
sweep_equates [] s = ([], false, s)
sweep_equates ((r, label) ∷ pending) s = elim (evaluate_operand r.operand s.symbols) [
  | err e ↦ let (left, progress, t) = sweep_equates pending s in ((r, label) ∷ left, progress, t)
  | ok value ↦
      let defined =
        define_or_report s.symbols label (equate_value value) r.location s.diagnostics in
      let (left, progress, t) =
        sweep_equates pending (record { symbols = defined.0; diagnostics = defined.1 }) in
      (left, true, t)
]

-- Rounds while they make progress, as many as there are equates at most.
unfoldable pub resolve_equates :
    ℕ → List (IrRecord × Text) → Equating → List (IrRecord × Text) × Equating
unfolding sweep_equates
resolve_equates zero pending s = (pending, s)
resolve_equates (suc fuel) pending s =
    let (left, progress, t) = sweep_equates pending s in
    elim progress [ true ↦ resolve_equates fuel left t | false ↦ (left, t) ]

-- An error for each equate that is left over.
unfoldable pub report_equates : List (IrRecord × Text) → List Diagnostic → List Diagnostic
report_equates [] diagnostics = diagnostics
report_equates ((r, label) ∷ pending) diagnostics =
    report_equates pending (push_error diagnostics (codes "AGCA003") r)
