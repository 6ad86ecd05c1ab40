-- ===== src/Assembler/Addressed.antt =====
-- crates/agc-assembler/src/lib.rs, `assemble`: the labels of an image. They are not changed by the
-- equates and the second pass.
use apollo_rs.Prelude.{ℕ, ◌≡◌, some, Result, ok, err, All}
use apollo_rs.Prelude.Int.{ℤ}
use apollo_rs.Text.{Text}
use apollo_rs.Symbols.Table.{SymbolTable, fixed}
use apollo_rs.Assembler.Records.{IrRecord}
use apollo_rs.Assembler.Assign.{define_or_report}
use apollo_rs.Assembler.Equates.{equate_value, Equating}
use apollo_rs.Assembler.Image.{ProgramImage, AssemblyError}
use apollo_rs.Assembler.Values.{value_of}
use apollo_rs.Assembler.Defined.{Keeps}

-- A state of the equates that comes later.
abbrev Follows : Equating → Equating → Type 0
Follows s t = Keeps s.symbols s.diagnostics (t.symbols, t.diagnostics)

abbrev define_equate : IrRecord → Text → Equating → ℤ → Equating
define_equate r label s value =
    let defined = define_or_report s.symbols label (equate_value value) r.location s.diagnostics in
    record { symbols = defined.0; diagnostics = defined.1 }

-- The label of a record that has a bank and an offset is a symbol that stands for that place.
abbrev pub IsAddressed : SymbolTable → IrRecord → Type 0
IsAddressed symbols r =
    (label : Text) (bank offset : ℕ)
    → r.label ≡ some label
    → r.bank ≡ some bank
    → r.offset ≡ some offset
    → value_of symbols label ≡ some (fixed bank offset)

-- The second pass changes the word of a record alone.
pub record SamePlace (r q : IrRecord) : Type 0 where
  pub same_label : q.label ≡ r.label
  pub same_bank : q.bank ≡ r.bank
  pub same_offset : q.offset ≡ r.offset

abbrev pub IfImage : Result AssemblyError ProgramImage → Type 0
IfImage (ok image) = All (IsAddressed image.symbols) image.records
IfImage (err e) = Unit
