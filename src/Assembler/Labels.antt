-- ===== src/Assembler/Labels.antt =====
-- crates/agc-assembler/src/lib.rs, the first pass: a label is the place of its record, or there is an
-- error.
use apollo_rs.Prelude.{
  ℕ, ◌≤◌, ◌≡◌, refl, arith, ap, sym, ◌∙◌, ◌==◌, if◌then◌else◌, if_cases, List, [], ◌∷◌, ◌++◌,
  Option, some, none, result_cases, All,
}
use apollo_rs.Bits.{low_bits}
use apollo_rs.Text.{Text, codes, is, is_any}
use apollo_rs.Symbols.Table.{Symbol, SymbolValue, SymbolTable, fixed, get}
use apollo_rs.Assembler.Records.{IrRecord, Diagnostic, push_error, is_equate}
use apollo_rs.Assembler.Diagnostics.{count_errors}
use apollo_rs.Assembler.Location.{
  LocationCounter, in_fixed, in_erasable, current_value, advance, move_location,
  apply_location_directive,
}
use apollo_rs.Assembler.Emission.{emitted_word_count}
use apollo_rs.Assembler.Words.{count_errors-push_error, emitted_word_count-grows}
use apollo_rs.Assembler.Assign.{
  define_label, PassOne, place_record, note_equate, assign_operation, assign, pass_one,
}
use apollo_rs.Assembler.Defined.{Keeps, new_symbol, define_label-Keeps, define_label-defines}

-- The label of a record that has a bank and an offset is a symbol, which has that place as its value,
-- the line of the record as its definition, and no references.
abbrev pub IsLabelled : SymbolTable → IrRecord → Type 0
IsLabelled symbols r =
    (label : Text) (bank offset : ℕ)
    → r.label ≡ some label
    → r.bank ≡ some bank
    → r.offset ≡ some offset
    → get symbols label
      ≡ some (record {
        name = label;
        value = fixed bank offset;
        definition = r.location;
        references = [];
      })

-- A record is passed: no symbol changes, no error is lost, and with no error more it is labelled.
record Passes (s : PassOne) (e : IrRecord × PassOne) : Type 0 where
  grows : count_errors s.diagnostics ≤ count_errors e.1.diagnostics
  keeps : (n : Text) (t : Symbol) → get s.symbols n ≡ some t → get e.1.symbols n ≡ some t
  labelled : count_errors e.1.diagnostics ≡ count_errors s.diagnostics → IsLabelled e.1.symbols e.0

unplaced-IsLabelled : (symbols : SymbolTable) (r : IrRecord) → r.bank ≡ none → IsLabelled symbols r
unplaced-IsLabelled symbols r free label bank offset hl hb ho =
    absurd (let clash : none ≡ some bank = sym free ∙ hb in ground arith)

current_value-fixed :
    (l : LocationCounter) (bank offset : ℕ)
    → (current_value l).0 ≡ some bank
    → some (current_value l).1 ≡ some offset
    → (current_value l).2 ≡ fixed bank offset
unfolding current_value
current_value-fixed (in_fixed b o) bank offset hb ho = ground (arith, hb, ho)
current_value-fixed (in_erasable b o) bank offset hb ho = absurd (ground (arith, hb))

module _ (r : IrRecord) (s : PassOne) where
  -- A record that has no place, and leaves the symbols with the diagnostics as they grow.
  unplaced-Passes :
      (t : PassOne)
      → r.bank ≡ none
      → t.symbols ≡ s.symbols
      → count_errors s.diagnostics ≤ count_errors t.diagnostics
      → Passes s (r, t)
  unplaced-Passes t free same grows = record {
    grows = grows;
    keeps = λ n u there. rw same there;
    labelled = λ _. unplaced-IsLabelled t.symbols r free;
  }

  module _ (n : ℕ) (ds : List Diagnostic)
      (more : count_errors s.diagnostics ≤ count_errors ds) where
    abbrev value_here : SymbolValue
    value_here = (current_value s.location).2

    abbrev labels : SymbolTable × List Diagnostic
    labels = define_label r.label s.symbols value_here r.location ds

    labels-Keeps : Keeps s.symbols ds labels
    labels-Keeps = define_label-Keeps r.label s.symbols value_here r.location ds

    abbrev placed : IrRecord
    placed = record r {
      bank = (current_value s.location).0;
      offset = some (current_value s.location).1;
    }

    placed-IsLabelled :
        count_errors labels.1 ≡ count_errors s.diagnostics → IsLabelled labels.0 placed
    placed-IsLabelled same label bank offset hl hb ho =
        let here = current_value-fixed s.location bank offset hb ho in
        let unchanged : count_errors labels.1 ≡ count_errors ds =
          omega (arith, same, more, labels-Keeps.grows) in
        define_label-defines r.label label s.symbols value_here r.location ds hl unchanged
        ∙ ap (λ v. some (new_symbol label v r.location)) here

    place_record-Passes : Passes s (place_record r n ds s)
    unfolding place_record
    place_record-Passes =
        let pushed = count_errors-push_error labels.1 (codes "AGCA002") placed in
        result_cases (Passes s) (advance s.location (low_bits n 16)) _ _
          (λ l e. record {
            grows = omega (arith, more, labels-Keeps.grows);
            keeps = labels-Keeps.keeps;
            labelled = placed-IsLabelled;
          })
          λ l e. record {
            grows = omega (arith, more, labels-Keeps.grows, pushed);
            keeps = labels-Keeps.keeps;
            labelled = λ same. absurd (omega (arith, same, more, labels-Keeps.grows, pushed));
          }

-- A directive loses no error.
abbrev Grown : List Diagnostic → Option (LocationCounter × List Diagnostic) → Type 0
Grown ds none = Unit
Grown ds (some (l, es)) = count_errors ds ≤ count_errors es

move_location-grows :
    (code : Text) (place : ℕ → LocationCounter) (v : Option ℕ) (r : IrRecord) (l : LocationCounter)
    (ds : List Diagnostic)
    → count_errors ds ≤ count_errors (move_location code place v r l ds).1
unfolding move_location
move_location-grows code place (some v) r l ds = omega arith
move_location-grows code place none r l ds = omega (arith, count_errors-push_error ds code r)

apply_location_directive-Grown :
    (r : IrRecord) (l : LocationCounter) (symbols : SymbolTable) (ds : List Diagnostic)
    → Grown ds (apply_location_directive r l symbols ds)
unfolding apply_location_directive
apply_location_directive-Grown r l symbols ds =
    if_cases (Grown ds) (is r.operation "BANK") _ _ (λ _. move_location-grows _ _ _ r l ds)
      λ _.
        if_cases (Grown ds) (is r.operation "BLOCK") _ _ (λ _. move_location-grows _ _ _ r l ds)
          λ _.
            if_cases (Grown ds) (is r.operation "SETLOC") _ _
              (λ _. move_location-grows _ _ _ r l ds)
              λ _.
                if_cases (Grown ds)
                  (is_any r.operation ("MEMORY" ∷ ("COUNT" ∷ ("SUBRO" ∷ ("CHECK=" ∷ []))))) _ _
                  (λ _. omega arith) λ _. tt

module _ (r : IrRecord) (s : PassOne) (free : r.bank ≡ none) where
  by_directive :
      (o : Option (LocationCounter × List Diagnostic))
      → Grown s.diagnostics o
      → Passes s (elim o as (λ _. IrRecord × PassOne) [
        | some (location, diagnostics) ↦
            (r, record s { location = location; diagnostics = diagnostics })
        | none ↦
            let (emits, reported) = emitted_word_count r s.diagnostics in
            if emits == 0
            then (r, record s { diagnostics = reported })
            else place_record r emits reported s
      ])
  by_directive (some (l, ds)) grows =
      unplaced-Passes r s (record s { location = l; diagnostics = ds }) free refl grows
  by_directive none grows =
      let (emits, reported) = emitted_word_count r s.diagnostics in
      let more = emitted_word_count-grows r s.diagnostics in
      if_cases (Passes s) (emits == 0) _ _
        (λ _. unplaced-Passes r s (record s { diagnostics = reported }) free refl more)
        λ _. place_record-Passes r s emits reported more

  assign_operation-Passes : Passes s (assign_operation r s)
  unfolding assign_operation
  assign_operation-Passes =
      by_directive _ (apply_location_directive-Grown r s.location s.symbols s.diagnostics)

  note_equate-Passes : (l : Option Text) → Passes s (r, note_equate l r s)
  unfolding note_equate
  note_equate-Passes (some l) =
      unplaced-Passes r s (record s { equates = s.equates ++ (r, l) ∷ [] }) free refl (omega arith)
  note_equate-Passes none =
      unplaced-Passes r s (record s { diagnostics = push_error s.diagnostics (codes "AGCA001") r })
        free refl (omega (arith, count_errors-push_error s.diagnostics (codes "AGCA001") r))

  by_operation :
      (t : Text)
      → Passes s (elim t as (λ _. IrRecord × PassOne) [
        | [] ↦
            let defined =
              define_label r.label s.symbols
                (current_value s.location).2
                r.location
                s.diagnostics in
            (r, record s { symbols = defined.0; diagnostics = defined.1 })
        | c ∷ cs ↦
            if is_equate r.operation then (r, note_equate r.label r s) else assign_operation r s
      ])
  by_operation [] =
      let kept =
        define_label-Keeps r.label s.symbols (current_value s.location).2 r.location
          s.diagnostics in
      record {
        grows = kept.grows;
        keeps = kept.keeps;
        labelled = λ _. unplaced-IsLabelled _ r free;
      }
  by_operation (c ∷ cs) =
      if_cases (Passes s) (is_equate r.operation) _ _ (λ _. note_equate-Passes r.label)
        λ _. assign_operation-Passes

  assign-Passes : Passes s (assign r s)
  unfolding assign
  assign-Passes = by_operation r.operation

-- The first pass: with no error more, every record is labelled.
pub pass_one-Passes :
    (rs : List IrRecord) (s : PassOne)
    → All (λ r. r.bank ≡ none) rs
    → (count_errors s.diagnostics ≤ count_errors (pass_one rs s).1.diagnostics)
      × ((n : Text) (t : Symbol)
          → get s.symbols n ≡ some t
          → get (pass_one rs s).1.symbols n ≡ some t)
      × (count_errors (pass_one rs s).1.diagnostics ≡ count_errors s.diagnostics
          → All (IsLabelled (pass_one rs s).1.symbols) (pass_one rs s).0)
unfolding pass_one
pass_one-Passes [] s free = (omega arith, λ n t there. there, λ _. tt)
pass_one-Passes (r ∷ rs) s free =
    let first = assign-Passes r s free.0 in
    let rest = pass_one-Passes rs (assign r s).1 free.1 in
    (
      omega (arith, first.grows, rest.0),
      λ n t there. rest.1 n t (first.keeps n t there),
      λ same. (
        λ label bank offset hl hb ho.
            rest.1 label _ (
              first.labelled (omega (arith, same, first.grows, rest.0)) label bank offset hl hb ho),
        rest.2 (omega (arith, same, first.grows, rest.0)),
      ),
    )
