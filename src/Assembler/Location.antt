-- ===== src/Assembler/Location.antt =====
-- crates/agc-assembler/src/lib.rs, `LocationCounter` and the directives that move it.
use apollo_rs.Prelude.{
  ℕ, ◌+◌, List, [], ◌∷◌, Option, some, none, Result, ok, err, ltb, leb, if◌then◌else◌,
}
use apollo_rs.Prelude.Int.{ℤ, pos, negsuc}
use apollo_rs.Bits.{shr, low_bits}
use apollo_rs.Text.{Text, codes, is, is_any}
use apollo_rs.Symbols.Table.{SymbolValue, SymbolTable, fixed, erasable}
use apollo_rs.Assembler.Records.{IrRecord, Diagnostic, push_error}
use apollo_rs.Assembler.Operands.{EvaluationError, evaluate_operand}

pub data LocationCounter : Type 0 where
  in_fixed in_erasable : ℕ → ℕ → LocationCounter

unfoldable pub current_value : LocationCounter → Option ℕ × ℕ × SymbolValue
current_value (in_fixed bank offset) = (some bank, offset, fixed bank offset)
current_value (in_erasable bank offset) = (none, offset, erasable bank offset)

-- A location that would pass its bank stays, with the bank and the offset in the error.
unfoldable pub advance : LocationCounter → ℕ → Result LocationCounter LocationCounter
advance (in_fixed bank offset) amount =
    let next = offset + amount in
    if ltb 1024 next then err (in_fixed bank next) else ok (in_fixed bank next)
advance (in_erasable bank offset) amount =
    let next = offset + amount in
    if ltb 256 next then err (in_erasable bank next) else ok (in_erasable bank next)

-- `(0..n).contains(&value)`, with the value as an unsigned number.
unfoldable pub value_below : ℕ → Result EvaluationError ℤ → Option ℕ
value_below n (ok (pos value)) = if ltb value n then some value else none
value_below n (ok (negsuc value)) = none
value_below n (err e) = none

-- The place that a logical address names for SETLOC.
unfoldable pub set_location : ℕ → LocationCounter
set_location logical =
    if leb logical 0o1377
    then in_erasable (shr logical 8) (low_bits logical 8)
    else if leb logical 0o1777
    then in_erasable 0 (low_bits logical 8)
    else if leb logical 0o3777
    then in_fixed 0 (low_bits logical 10)
    else if leb logical 0o5777
    then in_fixed 2 (low_bits logical 10)
    else in_fixed 3 (low_bits logical 10)

-- A directive that is given a number moves the location, and any other leaves an error.
unfoldable pub move_location :
    Text
    → (ℕ → LocationCounter)
    → Option ℕ
    → IrRecord
    → LocationCounter
    → List Diagnostic
    → LocationCounter × List Diagnostic
move_location code place (some value) r location diagnostics = (place value, diagnostics)
move_location code place none r location diagnostics = (location, push_error diagnostics code r)

-- No location for a record that is no such directive.
unfoldable pub apply_location_directive :
    IrRecord
    → LocationCounter
    → SymbolTable
    → List Diagnostic
    → Option (LocationCounter × List Diagnostic)
unfolding move_location set_location value_below
apply_location_directive r location symbols diagnostics =
    let value = evaluate_operand r.operand symbols in
    if is r.operation "BANK"
    then some (
        move_location (codes "AGCA010") (λ bank. in_fixed bank 0) (value_below 36 value) r location
          diagnostics)
    else if is r.operation "BLOCK"
    then some (
        move_location (codes "AGCA011") (λ bank. in_erasable bank 0) (value_below 8 value) r
          location diagnostics)
    else if is r.operation "SETLOC"
    then some (
        move_location (codes "AGCA012") set_location (value_below 0o10000 value) r location
          diagnostics)
    else if is_any r.operation ("MEMORY" ∷ ("COUNT" ∷ ("SUBRO" ∷ ("CHECK=" ∷ []))))
    then some (location, diagnostics)
    else none
