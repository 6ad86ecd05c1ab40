-- ===== src/Assembler/Fill.antt =====
-- crates/agc-assembler/src/lib.rs, `assemble`, the second pass. The two arrays of the rope are
-- functions of the index, of which 36864 are in use.
use apollo_rs.Prelude.{
  ℕ, ◌+◌, ◌*◌, Bool, true, false, List, [], ◌∷◌, Option, some, none, update, leb, if◌then◌else◌,
}
use apollo_rs.Text.{codes, is}
use apollo_rs.Symbols.Table.{SymbolTable}
use apollo_rs.Assembler.Records.{IrRecord, Diagnostic, push_error}
use apollo_rs.Assembler.Emission.{emit_record}

abbrev pub rope_words : ℕ
rope_words = 36 * 1024

-- The rope and what else the second pass changes.
pub record PassTwo : Type 0 where
  pub words : ℕ → ℕ
  pub occupied : ℕ → Bool
  pub symbols : SymbolTable
  pub previous_extend : Bool
  pub diagnostics : List Diagnostic

-- A word goes to a free place of the rope.
unfoldable pub place_word : IrRecord → ℕ → ℕ → PassTwo → PassTwo
place_word r physical word s =
    if leb rope_words physical
    then record s { diagnostics = push_error s.diagnostics (codes "AGCA004") r }
    else if s.occupied physical
    then record s { diagnostics = push_error s.diagnostics (codes "AGCA005") r }
    else record s {
      words = update s.words physical word;
      occupied = update s.occupied physical true;
    }

unfoldable pub place_words : IrRecord → ℕ → List ℕ → PassTwo → PassTwo
unfolding place_word
place_words r physical [] s = s
place_words r physical (word ∷ words) s =
    place_words r (physical + 1) words (place_word r physical word s)

-- The word that a record notes, if its first word finds its place free.
unfoldable pub first_placed : ℕ → List ℕ → PassTwo → Option ℕ → Option ℕ
first_placed physical [] s noted = noted
first_placed physical (word ∷ words) s noted =
    if leb rope_words physical then noted else if s.occupied physical then noted else some word

-- One record of the second pass that has a place.
unfoldable pub emit_at : IrRecord → ℕ → ℕ → PassTwo → IrRecord × PassTwo
unfolding place_words first_placed
emit_at r bank offset s =
    let ((emitted, diagnostics), symbols) =
      emit_record r s.symbols s.previous_extend s.diagnostics in
    let t = record s {
      symbols = symbols;
      diagnostics = diagnostics;
      previous_extend = is r.operation "EXTEND";
    } in
    let physical = bank * 1024 + offset in
    (record r { word = first_placed physical emitted t r.word }, place_words r physical emitted t)

-- One record of the second pass.
unfoldable pub emit : IrRecord → PassTwo → IrRecord × PassTwo
unfolding emit_at
emit r s = elim (r.bank) [
  | none ↦ (r, record s { previous_extend = false })
  | some bank ↦ elim (r.offset) [
    | none ↦ (
      r,
      record s {
        previous_extend = false;
        diagnostics = push_error s.diagnostics (codes "AGCA051") r;
      },
    )
    | some offset ↦ emit_at r bank offset s
  ]
]

unfoldable pub pass_two : List IrRecord → PassTwo → List IrRecord × PassTwo
unfolding emit
pass_two [] s = ([], s)
pass_two (r ∷ rs) s =
    let (emitted, t) = emit r s in let (rest, u) = pass_two rs t in (emitted ∷ rest, u)
