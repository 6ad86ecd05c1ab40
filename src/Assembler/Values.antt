-- ===== src/Assembler/Values.antt =====
-- crates/agc-assembler/src/lib.rs, `evaluate_and_reference` and `evaluate_operand`: a value depends on
-- the values of the symbols alone, which a reference leaves.
use apollo_rs.Prelude.{
  ◌≡◌, refl, arith, Bool, List, [], ◌∷◌, ◌++◌, Option, some, none, Result, ok, err, bind_ok, ap,
  sym, ◌∙◌, inl, inr, Option-cases, if_cases, Bool-cases, if◌then◌else◌,
}
use apollo_rs.Prelude.Int.{ℤ, pos, ◌+ℤ◌}
use apollo_rs.Text.{Text, text_eq, text_eq_iff, is, trim, split_whitespace}
use apollo_rs.Isa.Names.{parse}
use apollo_rs.Symbols.Table.{SourceLocation, Symbol, SymbolValue, SymbolTable, get, reference}
use apollo_rs.Symbols.Laws.{get-reference}
use apollo_rs.Assembler.Records.{
  Operand, no_operand, literal, symbol, expression, IrRecord, Diagnostic,
}
use apollo_rs.Assembler.Operands.{
  EvaluationError, unresolved_symbol, base_of, evaluate_symbol, parse_atom, combine_atoms,
  evaluate_tokens, evaluate_expression, evaluate_operand, reference_symbol, evaluate_and_reference,
}
use apollo_rs.Assembler.Emission.{
  Emitted, is_single, is_double, takes_no_operand, emit_data, emit_record,
}

abbrev value_in : Option Symbol → Option SymbolValue
value_in none = none
value_in (some s) = some s.value

abbrev pub value_of : SymbolTable → Text → Option SymbolValue
value_of symbols name = value_in (get symbols name)

-- Two tables that give their names the same values.
abbrev pub SameValues : SymbolTable → SymbolTable → Type 0
SameValues s t = (name : Text) → value_of t name ≡ value_of s name

abbrev evaluated : Text → ℤ → Option SymbolValue → Result EvaluationError ℤ
evaluated name offset none = err (unresolved_symbol name)
evaluated name offset (some value) = bind_ok (base_of name value) λ base. ok (base +ℤ offset)

evaluate_symbol-value_of :
    (name : Text) (offset : ℤ) (symbols : SymbolTable)
    → evaluate_symbol name offset symbols ≡ evaluated name offset (value_of symbols name)
unfolding evaluate_symbol
evaluate_symbol-value_of name offset symbols = elim (Option-cases (get symbols name)) [
  | inl e ↦ ground (arith, e)
  | inr (s, e) ↦ ground (arith, e)
]

module _ (s t : SymbolTable) (same : SameValues s t) where
  evaluate_symbol-SameValues :
      (name : Text) (offset : ℤ) → evaluate_symbol name offset t ≡ evaluate_symbol name offset s
  evaluate_symbol-SameValues name offset =
      evaluate_symbol-value_of name offset t
      ∙ ap (evaluated name offset) (same name)
      ∙ sym (evaluate_symbol-value_of name offset s)

  parse_atom-SameValues : (atom : Text) → parse_atom atom t ≡ parse_atom atom s
  unfolding parse_atom
  parse_atom-SameValues atom = ground (arith, evaluate_symbol-SameValues atom (pos 0))

  combine_atoms-SameValues :
      (left sign right : Text) → combine_atoms left sign right t ≡ combine_atoms left sign right s
  unfolding combine_atoms
  combine_atoms-SameValues left sign right =
      rw (parse_atom-SameValues left, parse_atom-SameValues right) refl

  evaluate_tokens-SameValues :
      (whole : Text) (tokens : List Text)
      → evaluate_tokens whole tokens t ≡ evaluate_tokens whole tokens s
  unfolding evaluate_tokens
  evaluate_tokens-SameValues whole [] = parse_atom-SameValues (trim whole)
  evaluate_tokens-SameValues whole (a ∷ []) = parse_atom-SameValues (trim whole)
  evaluate_tokens-SameValues whole (a ∷ (b ∷ [])) = parse_atom-SameValues (trim whole)
  evaluate_tokens-SameValues whole (a ∷ (b ∷ (c ∷ []))) =
      rw (parse_atom-SameValues (trim whole), combine_atoms-SameValues a b c) refl
  evaluate_tokens-SameValues whole (a ∷ (b ∷ (c ∷ (d ∷ ds)))) = parse_atom-SameValues (trim whole)

  pub evaluate_operand-SameValues : (o : Operand) → evaluate_operand o t ≡ evaluate_operand o s
  unfolding evaluate_operand evaluate_expression
  evaluate_operand-SameValues no_operand = refl
  evaluate_operand-SameValues (literal value) = refl
  evaluate_operand-SameValues (symbol name offset) = evaluate_symbol-SameValues name offset
  evaluate_operand-SameValues (expression text) =
      evaluate_tokens-SameValues text (split_whitespace text)

-- A reference evaluates its operand.
pub evaluate_and_reference-value :
    (o : Operand) (symbols : SymbolTable) (at : SourceLocation)
    → (evaluate_and_reference o symbols at).0 ≡ evaluate_operand o symbols
unfolding evaluate_and_reference evaluate_operand reference_symbol evaluate_symbol reference
evaluate_and_reference-value no_operand symbols at = refl
evaluate_and_reference-value (literal value) symbols at = refl
evaluate_and_reference-value (expression text) symbols at = refl
evaluate_and_reference-value (symbol name offset) symbols at =
    elim (Option-cases (get symbols name)) [
      | inl e ↦ ground (arith, e)
      | inr (s, e) ↦ ground (arith, e)
    ]

reference-value_of :
    (name n : Text) (symbols t : SymbolTable) (at : SourceLocation) (s : Symbol)
    → get symbols name ≡ some s
    → (get t n ≡ (
        if text_eq name n
        then some (record s { references = s.references ++ at ∷ [] })
        else get symbols n))
    → value_of t n ≡ value_of symbols n
reference-value_of name n symbols t at s e g = elim (Bool-cases (text_eq name n)) [
  | inl same ↦
      let name_same : name ≡ n = (text_eq_iff name n).0 same in
      let h : get symbols n ≡ some s = rw (← name_same) e in rw (g, same, h) refl
  | inr differ ↦ rw (g, differ) refl
]

reference_symbol-unresolved :
    (name : Text) (offset : ℤ) (symbols : SymbolTable) (at : SourceLocation)
    → get symbols name ≡ none
    → (reference_symbol name offset symbols at).1 ≡ symbols
unfolding reference_symbol reference
reference_symbol-unresolved name offset symbols at e = ground (arith, e)

reference_symbol-noted :
    (name : Text) (offset : ℤ) (symbols t : SymbolTable) (at : SourceLocation) (s : Symbol)
    → reference symbols name at ≡ ok (s.value, t)
    → (reference_symbol name offset symbols at).1 ≡ t
unfolding reference_symbol
reference_symbol-noted name offset symbols t at s e = ground (arith, e)

evaluate_and_reference-SameValues :
    (o : Operand) (symbols : SymbolTable) (at : SourceLocation)
    → SameValues symbols (evaluate_and_reference o symbols at).1
unfolding evaluate_and_reference
evaluate_and_reference-SameValues no_operand symbols at n = refl
evaluate_and_reference-SameValues (literal value) symbols at n = refl
evaluate_and_reference-SameValues (expression text) symbols at n = refl
evaluate_and_reference-SameValues (symbol name offset) symbols at n =
    elim (Option-cases (get symbols name)) [
      | inl e ↦ ap (λ t. value_of t n) (reference_symbol-unresolved name offset symbols at e)
      | inr (s, e) ↦
          let (t, noted, g) = get-reference symbols name n at s e in
          ap (λ u. value_of u n) (reference_symbol-noted name offset symbols t at s noted)
          ∙ reference-value_of name n symbols t at s e g
    ]

module _ (r : IrRecord) (symbols : SymbolTable) (ds : List Diagnostic) where
  -- The symbols of what is emitted have the values that they had.
  abbrev Keeps : Emitted × SymbolTable → Type 0
  Keeps e = SameValues symbols e.1

  noted : Keeps (([], ds), (evaluate_and_reference r.operand symbols r.location).1)
  noted = evaluate_and_reference-SameValues r.operand symbols r.location

  emit_data-SameValues : Keeps (emit_data r symbols ds)
  unfolding emit_data
  emit_data-SameValues =
      if_cases Keeps (is r.operation "DEC") _ _ (λ _. noted)
        λ _.
          if_cases Keeps (is r.operation "2OCT") _ _ (λ _. noted)
            λ _.
              if_cases Keeps (is r.operation "2DEC") _ _ (λ _. noted)
                λ _.
                  if_cases Keeps (is_single r.operation) _ _ (λ _. noted)
                    λ _.
                      if_cases Keeps (is_double r.operation) _ _ (λ _. noted)
                        λ _.
                          if_cases Keeps (is r.operation "ERASE") _ _ (λ _ n. refl)
                            λ _.
                              if_cases Keeps (is r.operation "BNKSUM") _ _ (λ _ n. refl) λ _ n. refl

  pub emit_record-SameValues : (x : Bool) → Keeps (emit_record r symbols x ds)
  unfolding emit_record
  emit_record-SameValues x = elim (Option-cases (parse r.operation)) [
    | inl e ↦ rw (e, emit_record) emit_data-SameValues
    | inr (m, e) ↦
        rw (e, emit_record) (if_cases Keeps (takes_no_operand m) _ _ (λ _ n. refl) λ _. noted)
  ]
