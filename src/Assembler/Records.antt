-- ===== src/Assembler/Records.antt =====
-- crates/agc-ir/src/lib.rs: operands, records and `parse_operand`; and the diagnostics of
-- crates/agc-assembler/src/lib.rs. The message of a diagnostic, a text for its reader, is left out.
use apollo_rs.Prelude.{
  ℕ, Bool, ◌||◌, List, [], ◌∷◌, ◌++◌, Option, some, none, within, ◌==◌, if◌then◌else◌,
}
use apollo_rs.Prelude.Int.{ℤ, pos, pos_part, neg_part, sub_ℕ}
use apollo_rs.Text.{
  Text, codes, is, trim, split_whitespace, all, strip_prefix, strip_suffix, from_str_radix,
}
use apollo_rs.Symbols.Table.{SourceLocation, SymbolError, duplicate, unresolved}

pub data StatementKind : Type 0 where
  instruction directive interpretive unknown : StatementKind

pub data Operand : Type 0 where
  no_operand : Operand
  literal : ℤ → Operand
  symbol : Text → ℤ → Operand
  expression : Text → Operand

pub record IrRecord : Type 0 where
  pub location : SourceLocation
  pub label : Option Text
  pub operation : Text
  pub operand : Operand
  pub kind : StatementKind
  pub bank : Option ℕ
  pub offset : Option ℕ
  pub word : Option ℕ

pub data Severity : Type 0 where
  error warning : Severity

pub record Diagnostic : Type 0 where
  pub severity : Severity
  pub code : Text
  pub location : Option SourceLocation

-- `-value`.
unfoldable pub negated : ℤ → ℤ
negated z = sub_ℕ (neg_part z) (pos_part z)

-- The radix and the digits of a number, without its sign.
unfoldable pub radix_digits : Text → Option (ℕ × Text)
radix_digits digits = elim (strip_suffix b'D' digits) [
  | some value ↦ some (10, value)
  | none ↦ if all (within b'0' b'7') digits then some (8, digits) else none
]

-- A number of 64 bits, negated behind a minus sign.
unfoldable pub signed_number : (Text → Option (ℕ × Text)) → Text → Option ℤ
unfolding negated from_str_radix
signed_number split input = elim (strip_prefix b'-' input) [
  | some digits ↦ elim (split digits) [
    | none ↦ none
    | some (radix, s) ↦ elim (from_str_radix 64 radix s) [
      | none ↦ none
      | some value ↦ some (negated value)
    ]
  ]
  | none ↦ elim (split input) [ none ↦ none | some (radix, s) ↦ from_str_radix 64 radix s ]
]

-- `0o` before the digits of a number asks for the radix 8.
unfoldable pub prefixed_digits : Text → Option (ℕ × Text)
unfolding radix_digits
prefixed_digits digits = elim (strip_prefix b'0' digits) [
  | some rest ↦ elim (strip_prefix b'o' rest) [
    | some octal ↦ some (8, octal)
    | none ↦ radix_digits digits
  ]
  | none ↦ radix_digits digits
]

-- `parse_number` of crates/agc-ir/src/lib.rs.
unfoldable pub parse_number : Text → Option ℤ
unfolding signed_number prefixed_digits
parse_number input = signed_number prefixed_digits input

-- The last sign of a text: what is before it, whether it is a minus, and what is after it.
unfoldable pub last_sign : Text → Option (Text × Bool × Text)
last_sign [] = none
last_sign (c ∷ s) = elim (last_sign s) [
  | some (name, minus, rest) ↦ some (c ∷ name, minus, rest)
  | none ↦ if c == b'+' || c == b'-' then some ([], c == b'-', s) else none
]

-- The sign of an offset is not the first character.
unfoldable pub split_symbol_offset : Text → Option (Text × ℤ)
unfolding last_sign negated from_str_radix
split_symbol_offset [] = none
split_symbol_offset (c ∷ s) = elim (last_sign s) [
  | none ↦ none
  | some (name, minus, rest) ↦ elim (from_str_radix 32 10 rest) [
    | none ↦ none
    | some offset ↦ some (c ∷ name, if minus then negated offset else offset)
  ]
]

unfoldable pub is_symbol_character : ℕ → Bool
is_symbol_character c =
    within b'0' b'9' c
    || within b'A' b'Z' c
    || within b'a' b'z' c
    || c == b'_'
    || c == b'.'
    || c == b'$'
    || c == b'/'
    || c == b'+'
    || c == b'?'
    || c == b'-'

-- An operand of some text without blanks around it.
unfoldable pub operand_of : Text → Text → Operand
unfolding parse_number is_symbol_character split_symbol_offset
operand_of input first = elim (parse_number first) [
  | some value ↦ literal value
  | none ↦
      if all is_symbol_character first
      then elim (split_symbol_offset first) [
        | some (name, offset) ↦ symbol name offset
        | none ↦ symbol first (pos 0)
      ]
      else expression input
]

abbrev first_or : Text → List Text → Text
first_or input [] = input
first_or input (field ∷ fields) = field

unfoldable pub parse_operand : Option Text → Operand
unfolding operand_of
parse_operand none = no_operand
parse_operand (some input) = elim (trim input) [
  | [] ↦ no_operand
  | c ∷ s ↦ operand_of (c ∷ s) (first_or (c ∷ s) (split_whitespace (c ∷ s)))
]

-- `is_equate`, `push_error` and `symbol_diagnostic` of crates/agc-assembler/src/lib.rs.
unfoldable pub is_equate : Text → Bool
is_equate operation = is operation "=" || is operation "EQUALS"

unfoldable pub push_error : List Diagnostic → Text → IrRecord → List Diagnostic
push_error diagnostics code r =
    diagnostics ++ record { severity = error; code = code; location = some r.location } ∷ []

abbrev error_location : SymbolError → SourceLocation
error_location (duplicate name first second) = second
error_location (unresolved name location) = location

unfoldable pub symbol_diagnostic : List Diagnostic → SymbolError → List Diagnostic
symbol_diagnostic diagnostics e =
    diagnostics
    ++ record { severity = error; code = codes "AGCA050"; location = some (error_location e) } ∷ []
