-- ===== src/Assembler/Image.antt =====
-- crates/agc-assembler/src/lib.rs, `assemble` as a whole, and `ProgramImage`.
use apollo_rs.Prelude.{ℕ, Bool, false, List, [], Result, ok, err, length, ◌==◌, if◌then◌else◌}
use apollo_rs.Symbols.Table.{SymbolTable, no_symbols}
use apollo_rs.Assembler.Records.{IrRecord, Diagnostic}
use apollo_rs.Assembler.Location.{in_fixed}
use apollo_rs.Rope.Bytes.{bank_bytes}
use apollo_rs.Assembler.Diagnostics.{count_errors}
use apollo_rs.Assembler.Assign.{PassOne, pass_one}
use apollo_rs.Assembler.Equates.{resolve_equates, report_equates}
use apollo_rs.Assembler.Fill.{PassTwo, pass_two}

-- The records of `ProgramIr` and the diagnostics so far; `program`, `units` and `source_hashes`
-- are passed on as they are.
pub record ExpandedProgram : Type 0 where
  pub records : List IrRecord
  pub diagnostics : List Diagnostic

pub record ProgramImage : Type 0 where
  pub words : ℕ → ℕ
  pub occupied : ℕ → Bool
  pub symbols : SymbolTable
  pub records : List IrRecord
  pub diagnostics : List Diagnostic

-- `AssemblyError::Diagnostics`, the only error of `assemble`.
pub data AssemblyError : Type 0 where
  diagnostics_error : ℕ → List Diagnostic → AssemblyError

abbrev pub pass_one_start : ExpandedProgram → PassOne
pass_one_start e = record {
  location = in_fixed 2 0;
  symbols = no_symbols;
  equates = [];
  diagnostics = e.diagnostics;
}

-- The state between the passes: the equates are resolved, and the rope is empty.
unfoldable pub between : PassOne → PassTwo
unfolding resolve_equates report_equates
between s =
    let (pending, t) =
      resolve_equates (length s.equates) s.equates
        (record { symbols = s.symbols; diagnostics = s.diagnostics }) in
    record {
      words = λ _. 0;
      occupied = λ _. false;
      symbols = t.symbols;
      previous_extend = false;
      diagnostics = report_equates pending t.diagnostics;
    }

-- An image, if there is no error.
unfoldable pub finish : List IrRecord → PassTwo → Result AssemblyError ProgramImage
unfolding count_errors
finish records s =
    if count_errors s.diagnostics == 0
    then ok (record {
      words = s.words;
      occupied = s.occupied;
      symbols = s.symbols;
      records = records;
      diagnostics = s.diagnostics;
    })
    else err (diagnostics_error (count_errors s.diagnostics) s.diagnostics)

unfoldable pub assemble : ExpandedProgram → Result AssemblyError ProgramImage
unfolding pass_one between pass_two finish
assemble e =
    let (assigned, s) = pass_one e.records (pass_one_start e) in
    let (emitted, t) = pass_two assigned (between s) in finish emitted t

-- `ProgramImage::to_yayul_bytes`.
unfoldable pub to_yayul_bytes : ProgramImage → List ℕ
unfolding bank_bytes
to_yayul_bytes image = bank_bytes image.words 0 36
