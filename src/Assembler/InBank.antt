-- ===== src/Assembler/InBank.antt =====
-- crates/agc-assembler/src/lib.rs, the first pass: the location counter stays in a bank that exists.
use apollo_rs.Prelude.{
  ℕ, ◌+◌, ◌<◌, ◌≤◌, ◌≡◌, refl, arith, List, [], ◌∷◌, Option, some, none, Result, ok, err, ltb, leb,
  ◌==◌, if◌then◌else◌, All, sym, ◌∙◌, if_cases, result_cases,
}
use apollo_rs.Prelude.Int.{ℤ, pos, negsuc}
use apollo_rs.Bits.{low_bits}
use apollo_rs.Text.{Text, is, is_any}
use apollo_rs.Symbols.Table.{SymbolTable}
use apollo_rs.Assembler.Records.{IrRecord, Diagnostic, is_equate}
use apollo_rs.Assembler.Operands.{EvaluationError, evaluate_operand}
use apollo_rs.Assembler.Location.{
  LocationCounter, in_fixed, in_erasable, current_value, advance, value_below, set_location,
  move_location, apply_location_directive,
}
use apollo_rs.Assembler.Emission.{emitted_word_count}
use apollo_rs.Assembler.Assign.{
  PassOne, place_record, note_equate, assign_operation, assign, pass_one,
}

-- The bank exists, and the offset is in it or just past its end.
pub data IsLocation : LocationCounter → Type 0 where
  fixed_location : (bank offset : ℕ) → bank < 36 → offset ≤ 1024 → IsLocation (in_fixed bank offset)
  erasable_location :
      (bank offset : ℕ) → bank < 8 → offset ≤ 256 → IsLocation (in_erasable bank offset)

IfLocation : Result LocationCounter LocationCounter → Type 0
IfLocation (ok l) = IsLocation l
IfLocation (err l) = Unit

advance-IsLocation : (l : LocationCounter) (n : ℕ) → IsLocation l → IfLocation (advance l n)
unfolding advance IfLocation
advance-IsLocation _ n (fixed_location bank offset hb ho) =
    if_cases IfLocation (ltb 1024 (offset + n)) _ _ (λ _. tt)
      λ e. fixed_location bank (offset + n) hb (ground arith)
advance-IsLocation _ n (erasable_location bank offset hb ho) =
    if_cases IfLocation (ltb 256 (offset + n)) _ _ (λ _. tt)
      λ e. erasable_location bank (offset + n) hb (ground arith)

set_location-IsLocation : (logical : ℕ) → logical < 0o10000 → IsLocation (set_location logical)
unfolding set_location
set_location-IsLocation logical h =
    if_cases IsLocation (leb logical 0o1377) _ _
      (λ e. erasable_location _ _ (ground arith) (omega arith))
      λ _.
        if_cases IsLocation (leb logical 0o1777) _ _
          (λ _. erasable_location _ _ (omega arith) (omega arith))
          λ _.
            if_cases IsLocation (leb logical 0o3777) _ _
              (λ _. fixed_location _ _ (omega arith) (omega arith))
              λ _.
                if_cases IsLocation (leb logical 0o5777) _ _
                  (λ _. fixed_location _ _ (omega arith) (omega arith))
                  λ _. fixed_location _ _ (omega arith) (omega arith)

value_below-lt : (n : ℕ) (v : Result EvaluationError ℤ) {k : ℕ} → value_below n v ≡ some k → k < n
unfolding value_below
value_below-lt n (ok (pos m)) e = ground arith
value_below-lt n (ok (negsuc m)) e = absurd (ground arith)
value_below-lt n (err x) e = absurd (ground arith)

module _ (r : IrRecord) (l : LocationCounter) (ds : List Diagnostic) (v : Result EvaluationError ℤ)
    (at : IsLocation l) where
  move_location-IsLocation :
      (code : Text) (n : ℕ) (place : ℕ → LocationCounter) (o : Option ℕ)
      → value_below n v ≡ o
      → ((k : ℕ) → k < n → IsLocation (place k))
      → IsLocation (move_location code place o r l ds).0
  unfolding move_location
  move_location-IsLocation code n place none e f = at
  move_location-IsLocation code n place (some k) e f = f k (value_below-lt n v e)

data Moves : Option (LocationCounter × List Diagnostic) → Type 0 where
  moves : {l : LocationCounter} {ds : List Diagnostic} → IsLocation l → Moves (some (l, ds))
  no_directive : Moves none

apply_location_directive-Moves :
    (r : IrRecord) (l : LocationCounter) (symbols : SymbolTable) (ds : List Diagnostic)
    → IsLocation l
    → Moves (apply_location_directive r l symbols ds)
unfolding apply_location_directive
apply_location_directive-Moves r l symbols ds at =
    let v = evaluate_operand r.operand symbols in
    if_cases Moves (is r.operation "BANK") _ _
      (λ _. moves (
        move_location-IsLocation r l ds v at _ 36 _ _ refl
          λ k h. fixed_location k 0 h (omega arith)))
      λ _.
        if_cases Moves (is r.operation "BLOCK") _ _
          (λ _. moves (
            move_location-IsLocation r l ds v at _ 8 _ _ refl
              λ k h. erasable_location k 0 h (omega arith)))
          λ _.
            if_cases Moves (is r.operation "SETLOC") _ _
              (λ _.
                moves
                  (move_location-IsLocation r l ds v at _ 0o10000 _ _ refl set_location-IsLocation))
              λ _.
                if_cases Moves
                  (is_any r.operation ("MEMORY" ∷ ("COUNT" ∷ ("SUBRO" ∷ ("CHECK=" ∷ []))))) _ _
                  (λ _. moves at) λ _. no_directive

-- A record that has a bank has one that exists, and an offset.
abbrev pub InBank : IrRecord → Type 0
InBank r =
    (bank : ℕ)
    → r.bank ≡ some bank
    → (bank < 36) × (offset : ℕ) × (r.offset ≡ some offset) × (offset ≤ 1024)

record Assigns (e : IrRecord × PassOne) : Type 0 where
  in_bank : InBank e.0
  at : IsLocation e.1.location

unplaced-InBank : (r : IrRecord) → r.bank ≡ none → InBank r
unplaced-InBank r e bank h = absurd (let clash : none ≡ some bank = sym e ∙ h in ground arith)

placed-InBank :
    (l : LocationCounter) (r : IrRecord)
    → IsLocation l
    → InBank (record r { bank = (current_value l).0; offset = some (current_value l).1 })
unfolding current_value
placed-InBank _ r (fixed_location bank offset hb ho) b h =
    (let same : bank ≡ b = ground arith in rw (← same) hb, offset, refl, ho)
placed-InBank _ r (erasable_location bank offset hb ho) b h = absurd (ground arith)

place_record-Assigns :
    (r : IrRecord) (n : ℕ) (ds : List Diagnostic) (s : PassOne)
    → IsLocation s.location
    → Assigns (place_record r n ds s)
unfolding place_record IfLocation
place_record-Assigns r n ds s at =
    result_cases Assigns (advance s.location (low_bits n 16)) _ _
      (λ l e. record {
        in_bank = placed-InBank s.location r at;
        at = rw e at (advance-IsLocation s.location (low_bits n 16) at);
      })
      λ l e. record { in_bank = placed-InBank s.location r at; at = at }

module _ (r : IrRecord) (s : PassOne) (free : r.bank ≡ none) (at : IsLocation s.location) where
  by_directive :
      (o : Option (LocationCounter × List Diagnostic))
      → Moves o
      → Assigns (elim o as (λ _. IrRecord × PassOne) [
        | some (location, diagnostics) ↦
            (r, record s { location = location; diagnostics = diagnostics })
        | none ↦
            let (emits, reported) = emitted_word_count r s.diagnostics in
            if emits == 0
            then (r, record s { diagnostics = reported })
            else place_record r emits reported s
      ])
  by_directive _ (moves to) = record { in_bank = unplaced-InBank r free; at = to }
  by_directive _ no_directive =
      let (emits, reported) = emitted_word_count r s.diagnostics in
      if_cases Assigns (emits == 0) _ _ (λ _. record { in_bank = unplaced-InBank r free; at = at })
        λ _. place_record-Assigns r emits reported s at

  assign_operation-Assigns : Assigns (assign_operation r s)
  unfolding assign_operation
  assign_operation-Assigns =
      by_directive _ (apply_location_directive-Moves r s.location s.symbols s.diagnostics at)

  note_equate-location : (l : Option Text) → (note_equate l r s).location ≡ s.location
  unfolding note_equate
  note_equate-location none = refl
  note_equate-location (some l) = refl

  by_operation :
      (t : Text) (labelled : PassOne)
      → labelled.location ≡ s.location
      → Assigns (elim t as (λ _. IrRecord × PassOne) [
        | [] ↦ (r, labelled)
        | c ∷ cs ↦
            if is_equate r.operation then (r, note_equate r.label r s) else assign_operation r s
      ])
  by_operation [] labelled e = record { in_bank = unplaced-InBank r free; at = rw e at }
  by_operation (c ∷ cs) labelled e =
      if_cases Assigns (is_equate r.operation) _ _
        (λ _. record {
          in_bank = unplaced-InBank r free;
          at = rw (note_equate-location r.label) at;
        })
        λ _. assign_operation-Assigns

  assign-Assigns : Assigns (assign r s)
  unfolding assign
  assign-Assigns = by_operation r.operation _ refl

-- From records with no bank and a location counter inside a bank, every record to which the first
-- pass gives a bank gets one of the 36, with an offset of at most 1024, and the counter is inside a
-- bank again.
pub pass_one-InBank :
    (rs : List IrRecord) (s : PassOne)
    → All (λ r. r.bank ≡ none) rs
    → IsLocation s.location
    → All InBank (pass_one rs s).0 × IsLocation (pass_one rs s).1.location
unfolding pass_one
pass_one-InBank [] s free at = (tt, at)
pass_one-InBank (r ∷ rs) s free at =
    let first = assign-Assigns r s free.0 at in
    let rest = pass_one-InBank rs (assign r s).1 free.1 first.at in
    ((first.in_bank, rest.0), rest.1)
