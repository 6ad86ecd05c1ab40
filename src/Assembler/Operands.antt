-- ===== src/Assembler/Operands.antt =====
-- crates/agc-assembler/src/lib.rs: the values of operands. An `i64` is an integer; its sums would
-- pass its width only for literals near the end of it.
use apollo_rs.Prelude.{
  ◌||◌, List, [], ◌∷◌, Option, some, none, Result, ok, err, bind_ok, if◌then◌else◌,
}
use apollo_rs.Prelude.Int.{ℤ, pos, ◌+ℤ◌}
use apollo_rs.Text.{Text, is, trim, split_whitespace}
use apollo_rs.Symbols.Table.{
  SymbolValue, fixed, erasable, constant, absolute, SymbolTable, SourceLocation, logical_address,
  get, reference,
}
use apollo_rs.Assembler.Records.{
  Operand, no_operand, literal, symbol, expression, negated, radix_digits, signed_number,
}

-- The two messages of a value that is not there.
pub data EvaluationError : Type 0 where
  unresolved_symbol no_logical_address : Text → EvaluationError

unfoldable pub address_base : Text → SymbolValue → Result EvaluationError ℤ
address_base name value = elim (logical_address value) [
  | none ↦ err (no_logical_address name)
  | some a ↦ ok (pos a)
]

-- The value that stands for a symbol in an operand.
unfoldable pub base_of : Text → SymbolValue → Result EvaluationError ℤ
unfolding address_base
base_of name (constant value) = ok (pos value)
base_of name (absolute value) = ok value
base_of name (fixed bank offset) = address_base name (fixed bank offset)
base_of name (erasable bank offset) = address_base name (erasable bank offset)

unfoldable pub evaluate_symbol : Text → ℤ → SymbolTable → Result EvaluationError ℤ
unfolding base_of
evaluate_symbol name offset symbols = elim (get symbols name) [
  | none ↦ err (unresolved_symbol name)
  | some s ↦ bind_ok (base_of name s.value) λ base. ok (base +ℤ offset)
]

unfoldable pub parse_numeric : Text → Option ℤ
unfolding signed_number radix_digits
parse_numeric input = signed_number radix_digits input

unfoldable pub parse_atom : Text → SymbolTable → Result EvaluationError ℤ
unfolding parse_numeric evaluate_symbol
parse_atom atom symbols = elim (parse_numeric atom) [
  | some value ↦ ok value
  | none ↦ evaluate_symbol atom (pos 0) symbols
]

-- The sum or difference of two atoms.
unfoldable pub combine_atoms : Text → Text → Text → SymbolTable → Result EvaluationError ℤ
unfolding parse_atom
combine_atoms left sign right symbols =
    bind_ok (parse_atom left symbols) λ a.
      bind_ok (parse_atom right symbols) λ b. ok (if is sign "+" then a +ℤ b else a +ℤ negated b)

unfoldable pub evaluate_tokens : Text → List Text → SymbolTable → Result EvaluationError ℤ
unfolding combine_atoms parse_atom
evaluate_tokens whole (left ∷ (sign ∷ (right ∷ []))) symbols =
    if is sign "+" || is sign "-"
    then combine_atoms left sign right symbols
    else parse_atom (trim whole) symbols
evaluate_tokens whole tokens symbols = parse_atom (trim whole) symbols

unfoldable pub evaluate_expression : Text → SymbolTable → Result EvaluationError ℤ
unfolding evaluate_tokens
evaluate_expression text symbols = evaluate_tokens text (split_whitespace text) symbols

unfoldable pub evaluate_operand : Operand → SymbolTable → Result EvaluationError ℤ
unfolding evaluate_symbol evaluate_expression
evaluate_operand no_operand symbols = ok (pos 0)
evaluate_operand (literal value) symbols = ok value
evaluate_operand (symbol name offset) symbols = evaluate_symbol name offset symbols
evaluate_operand (expression text) symbols = evaluate_expression text symbols

-- A symbol is looked up and its use noted; the note stays where the symbol has no address.
unfoldable pub reference_symbol :
    Text → ℤ → SymbolTable → SourceLocation → Result EvaluationError ℤ × SymbolTable
unfolding base_of
reference_symbol name offset symbols location = elim (reference symbols name location) [
  | err e ↦ (err (unresolved_symbol name), symbols)
  | ok (value, noted) ↦ (bind_ok (base_of name value) λ base. ok (base +ℤ offset), noted)
]

unfoldable pub evaluate_and_reference :
    Operand → SymbolTable → SourceLocation → Result EvaluationError ℤ × SymbolTable
unfolding reference_symbol evaluate_operand
evaluate_and_reference (symbol name offset) symbols location =
    reference_symbol name offset symbols location
evaluate_and_reference no_operand symbols location = (evaluate_operand no_operand symbols, symbols)
evaluate_and_reference (literal value) symbols location =
    (evaluate_operand (literal value) symbols, symbols)
evaluate_and_reference (expression text) symbols location =
    (evaluate_operand (expression text) symbols, symbols)
