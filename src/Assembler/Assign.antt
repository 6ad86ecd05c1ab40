-- ===== src/Assembler/Assign.antt =====
-- crates/agc-assembler/src/lib.rs, `assemble`, the first pass: locations and symbols. A record stands
-- for its index in the list of equates.
use apollo_rs.Prelude.{ℕ, List, [], ◌∷◌, ◌++◌, Option, some, none, ok, err, ◌==◌, if◌then◌else◌}
use apollo_rs.Bits.{low_bits}
use apollo_rs.Text.{Text, codes}
use apollo_rs.Symbols.Table.{SymbolValue, SymbolTable, define, SourceLocation}
use apollo_rs.Assembler.Records.{IrRecord, Diagnostic, push_error, symbol_diagnostic, is_equate}
use apollo_rs.Assembler.Location.{LocationCounter, current_value, advance, apply_location_directive}
use apollo_rs.Assembler.Emission.{emitted_word_count}

-- A symbol is defined, or the conflict is put among the diagnostics.
unfoldable pub define_or_report :
    SymbolTable
    → Text
    → SymbolValue
    → SourceLocation
    → List Diagnostic
    → SymbolTable × List Diagnostic
define_or_report symbols name value definition diagnostics =
    elim (define symbols name value definition) [
      | ok defined ↦ (defined, diagnostics)
      | err e ↦ (symbols, symbol_diagnostic diagnostics e)
    ]

-- The same for a label, where there is one.
unfoldable pub define_label :
    Option Text
    → SymbolTable
    → SymbolValue
    → SourceLocation
    → List Diagnostic
    → SymbolTable × List Diagnostic
unfolding define_or_report
define_label none symbols value definition diagnostics = (symbols, diagnostics)
define_label (some label) symbols value definition diagnostics =
    define_or_report symbols label value definition diagnostics

pub record PassOne : Type 0 where
  pub location : LocationCounter
  pub symbols : SymbolTable
  pub equates : List (IrRecord × Text)
  pub diagnostics : List Diagnostic

-- A record that emits words gets the place of the first, and the location goes past the last.
unfoldable pub place_record : IrRecord → ℕ → List Diagnostic → PassOne → IrRecord × PassOne
unfolding define_label
place_record r emits diagnostics s =
    let (bank, offset, value) = current_value s.location in
    let defined = define_label r.label s.symbols value r.location diagnostics in
    let placed = record r { bank = bank; offset = some offset } in
    elim (advance s.location (low_bits emits 16)) [
      | ok next ↦
          (placed, record s { location = next; symbols = defined.0; diagnostics = defined.1 })
      | err overflow ↦ (
        placed,
        record s {
          symbols = defined.0;
          diagnostics = push_error defined.1 (codes "AGCA002") placed;
        },
      )
    ]

-- An equate waits for its symbols; one with no label is an error.
unfoldable pub note_equate : Option Text → IrRecord → PassOne → PassOne
note_equate (some label) r s = record s { equates = s.equates ++ (r, label) ∷ [] }
note_equate none r s = record s { diagnostics = push_error s.diagnostics (codes "AGCA001") r }

-- A directive moves the location, and any other operation may emit words.
unfoldable pub assign_operation : IrRecord → PassOne → IrRecord × PassOne
unfolding place_record
assign_operation r s = elim (apply_location_directive r s.location s.symbols s.diagnostics) [
  | some (location, diagnostics) ↦ (r, record s { location = location; diagnostics = diagnostics })
  | none ↦
      let (emits, reported) = emitted_word_count r s.diagnostics in
      if emits == 0
      then (r, record s { diagnostics = reported })
      else place_record r emits reported s
]

-- One record of the first pass.
unfoldable pub assign : IrRecord → PassOne → IrRecord × PassOne
unfolding define_label note_equate assign_operation
assign r s = elim (r.operation) [
  | [] ↦
      let defined =
        define_label r.label s.symbols ((current_value s.location).2) r.location s.diagnostics in
      (r, record s { symbols = defined.0; diagnostics = defined.1 })
  | c ∷ cs ↦ if is_equate r.operation then (r, note_equate r.label r s) else assign_operation r s
]

unfoldable pub pass_one : List IrRecord → PassOne → List IrRecord × PassOne
unfolding assign
pass_one [] s = ([], s)
pass_one (r ∷ rs) s =
    let (assigned, t) = assign r s in let (rest, u) = pass_one rs t in (assigned ∷ rest, u)
