-- ===== src/Symbols/Table.antt =====
-- crates/agc-symbols/src/lib.rs. The `IndexMap` is the list of its symbols in the order of their
-- definition, each with its key as its name.
use apollo_rs.Prelude.{
  ℕ, bit_or, List, [], ◌∷◌, ◌++◌, Option, some, none, Result, ok, err, leb, ◌==◌, if◌then◌else◌,
}
use apollo_rs.Prelude.Int.{ℤ, pos, negsuc}
use apollo_rs.Bits.{shl, low_bits}
use apollo_rs.Text.{Text, text_eq}

-- crates/agc-ast/src/lib.rs, `Span`, and crates/agc-ir/src/lib.rs, `SourceLocation`.
pub record Span : Type 0 where
  pub start : ℕ
  pub end : ℕ

pub record SourceLocation : Type 0 where
  pub file : Text
  pub line : ℕ
  pub span : Span

pub data SymbolValue : Type 0 where
  fixed erasable : ℕ → ℕ → SymbolValue
  constant : ℕ → SymbolValue
  absolute : ℤ → SymbolValue

unfoldable pub logical_address : SymbolValue → Option ℕ
logical_address (fixed bank offset) =
    if bank == 2
    then some (bit_or 0o4000 offset)
    else if bank == 3
    then some (bit_or 0o6000 offset)
    else some (bit_or 0o2000 offset)
logical_address (erasable bank offset) =
    if leb bank 2 then some (bit_or (shl bank 8) offset) else some (bit_or 0o1400 offset)
logical_address (constant value) = some (low_bits value 12)
logical_address (absolute (pos value)) = if leb value 0o7777 then some value else none
logical_address (absolute (negsuc value)) = none

pub record Symbol : Type 0 where
  pub name : Text
  pub value : SymbolValue
  pub definition : SourceLocation
  pub references : List SourceLocation

pub record SymbolTable : Type 0 where
  pub symbols : List Symbol

pub data SymbolError : Type 0 where
  duplicate : Text → SourceLocation → SourceLocation → SymbolError
  unresolved : Text → SourceLocation → SymbolError

abbrev pub no_symbols : SymbolTable
no_symbols = record { symbols = [] }

-- `IndexMap::get`.
unfoldable pub find_symbol : Text → List Symbol → Option Symbol
find_symbol name [] = none
find_symbol name (s ∷ rest) = if text_eq s.name name then some s else find_symbol name rest

unfoldable pub get : SymbolTable → Text → Option Symbol
unfolding find_symbol
get table name = find_symbol name table.symbols

unfoldable pub define :
    SymbolTable → Text → SymbolValue → SourceLocation → Result SymbolError SymbolTable
unfolding get
define table name value definition = elim (get table name) [
  | some existing ↦ err (duplicate name existing.definition definition)
  | none ↦ ok (record {
    symbols =
        table.symbols
        ++ record { name = name; value = value; definition = definition; references = [] } ∷ [];
  })
]

-- `get_mut` and the push of a reference.
unfoldable pub note_reference : Text → SourceLocation → List Symbol → List Symbol
note_reference name location [] = []
note_reference name location (s ∷ rest) =
    if text_eq s.name name
    then record s { references = s.references ++ location ∷ [] } ∷ rest
    else s ∷ note_reference name location rest

-- A reference that fails leaves the table as it was.
unfoldable pub reference :
    SymbolTable → Text → SourceLocation → Result SymbolError (SymbolValue × SymbolTable)
unfolding get note_reference
reference table name location = elim (get table name) [
  | none ↦ err (unresolved name location)
  | some symbol ↦ ok (symbol.value, record { symbols = note_reference name location table.symbols })
]
