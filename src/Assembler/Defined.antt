-- ===== src/Assembler/Defined.antt =====
-- crates/agc-assembler/src/lib.rs, the definition of a symbol, whose conflict is an error.
use apollo_rs.Prelude.{
  ◌≤◌, ◌≡◌, refl, arith, ◌+◌, sym, ◌∙◌, true, List, [], Option, some, none, inl, inr, Bool-cases,
  Option-cases,
}
use mathlib.Core.Path.{subst}
use apollo_rs.Text.{Text, text_eq, text_eq_iff}
use apollo_rs.Symbols.Table.{
  Symbol, SymbolValue, SymbolTable, duplicate, SourceLocation, get, define,
}
use apollo_rs.Symbols.Laws.{get-define}
use apollo_rs.Assembler.Records.{Diagnostic}
use apollo_rs.Assembler.Diagnostics.{count_errors}
use apollo_rs.Assembler.Words.{count_errors-symbol_diagnostic}
use apollo_rs.Assembler.Assign.{define_or_report, define_label}

-- No symbol changes and no error is lost.
pub record Keeps (symbols : SymbolTable) (ds : List Diagnostic) (e : SymbolTable × List Diagnostic)
    : Type 0 where
  pub grows : count_errors ds ≤ count_errors e.1
  pub keeps : (n : Text) (s : Symbol) → get symbols n ≡ some s → get e.0 n ≡ some s

abbrev pub new_symbol : Text → SymbolValue → SourceLocation → Symbol
new_symbol name value at = record { name = name; value = value; definition = at; references = [] }

module _ (symbols : SymbolTable) (name : Text) (value : SymbolValue) (at : SourceLocation)
    (ds : List Diagnostic) where
  defined-Keeps :
      get symbols name ≡ none → Keeps symbols ds (define_or_report symbols name value at ds)
  unfolding define_or_report
  defined-Keeps free = record {
    grows =
        (let (t, d, g) = get-define symbols name name value at free in
          rw (d, define_or_report) (omega arith));
    keeps = λ n s there.
        let (t, d, g) = get-define symbols name n value at free in
        rw (d, define_or_report)
          (elim (Bool-cases (text_eq name n)) [
            | inl same ↦ absurd (
                let same_name : name ≡ n = (text_eq_iff name n).0 same in
                let clash : none ≡ some s = rw same_name at (sym free) ∙ there in ground arith)
            | inr other ↦ g ∙ rw other there
          ]);
  }

  refused :
      (s : Symbol)
      → get symbols name ≡ some s
      → ((define_or_report symbols name value at ds).0 ≡ symbols)
        × (count_errors (define_or_report symbols name value at ds).1 ≡ count_errors ds + 1)
  unfolding define_or_report define
  refused s h = (
    ground (arith, h),
    ground (arith, h, count_errors-symbol_diagnostic ds (duplicate name s.definition at)),
  )

  pub define_or_report-Keeps : Keeps symbols ds (define_or_report symbols name value at ds)
  define_or_report-Keeps = elim (Option-cases (get symbols name)) [
    | inl free ↦ defined-Keeps free
    | inr (s, h) ↦
        let r = refused s h in
        record { grows = omega (arith, r.1); keeps = λ n t there. rw r.0 there }
  ]

  -- Where no error is added, the name has what it is defined as.
  define_or_report-defines :
      count_errors (define_or_report symbols name value at ds).1 ≡ count_errors ds
      → get (define_or_report symbols name value at ds).0 name ≡ some (new_symbol name value at)
  unfolding define_or_report
  define_or_report-defines same = elim (Option-cases (get symbols name)) [
    | inl free ↦
        let (t, d, g) = get-define symbols name name value at free in
        let self : text_eq name name ≡ true = (text_eq_iff name name).1 refl in
        rw (d, define_or_report) (g ∙ rw self refl)
    | inr (s, h) ↦ absurd (omega (arith, same, (refused s h).1))
  ]

pub define_label-Keeps :
    (label : Option Text) (symbols : SymbolTable) (value : SymbolValue) (at : SourceLocation)
    (ds : List Diagnostic)
    → Keeps symbols ds (define_label label symbols value at ds)
unfolding define_label
define_label-Keeps none symbols value at ds = record {
  grows = omega arith;
  keeps = λ n s there. there;
}
define_label-Keeps (some label) symbols value at ds =
    define_or_report-Keeps symbols label value at ds

pub define_label-defines :
    (l : Option Text) (label : Text) (symbols : SymbolTable) (value : SymbolValue)
    (at : SourceLocation) (ds : List Diagnostic)
    → l ≡ some label
    → count_errors (define_label l symbols value at ds).1 ≡ count_errors ds
    → get (define_label l symbols value at ds).0 label ≡ some (new_symbol label value at)
unfolding define_label
define_label-defines none label symbols value at ds e same = absurd (ground (arith, e))
define_label-defines (some l) label symbols value at ds e same =
    let same_label : l ≡ label = ground (arith, e) in
    subst (λ n. get (define_or_report symbols l value at ds).0 n ≡ some (new_symbol n value at))
      same_label (define_or_report-defines symbols l value at ds same)
