-- ===== src/Symbols/Laws.antt =====
-- crates/agc-symbols/src/lib.rs: what `define` and `reference` do to later lookups.
use apollo_rs.Prelude.{
  ◌≡◌, refl, arith, List, [], ◌∷◌, ◌++◌, some, none, ok, if◌then◌else◌, Bool-cases, inl, inr, ◌∙◌,
}
use apollo_rs.Text.{Text, text_eq, text_eq_iff}
use apollo_rs.Symbols.Table.{
  SymbolValue, Symbol, SymbolTable, SourceLocation, find_symbol, get, define, note_reference,
  reference,
}

find_symbol-append :
    (name : Text) (s : Symbol) (l : List Symbol)
    → find_symbol name (l ++ s ∷ []) ≡ elim (find_symbol name l) [
      | some t ↦ some t
      | none ↦ if text_eq s.name name then some s else none
    ]
unfolding find_symbol
find_symbol-append name s [] = refl
find_symbol-append name s (t ∷ l) = elim (Bool-cases (text_eq t.name name)) [
  | inl e ↦ rw e refl
  | inr e ↦ rw e (find_symbol-append name s l)
]

-- A name that is not in the table is defined, with no references, and every other name keeps its
-- symbol.
pub get-define :
    (table : SymbolTable) (name n : Text) (value : SymbolValue) (definition : SourceLocation)
    → get table name ≡ none
    → (t : SymbolTable) × (define table name value definition ≡ ok t)
      × (get t n ≡ (
          if text_eq name n
          then some
              (record { name = name; value = value; definition = definition; references = [] })
          else get table n))
unfolding get define
get-define table name n value definition h =
    let new : Symbol = record {
      name = name;
      value = value;
      definition = definition;
      references = [];
    } in
    (
      record { symbols = table.symbols ++ new ∷ [] },
      ground (arith, h),
      find_symbol-append n new table.symbols ∙ ground (arith, h, text_eq_iff name n),
    )

find_symbol-note_reference :
    (name n : Text) (location : SourceLocation) (l : List Symbol)
    → find_symbol n (note_reference name location l) ≡ (
        if text_eq name n
        then elim (find_symbol n l) [
          | none ↦ none
          | some s ↦ some (record s { references = s.references ++ location ∷ [] })
        ]
        else find_symbol n l)
unfolding find_symbol note_reference
find_symbol-note_reference name n location [] = ground arith
find_symbol-note_reference name n location (s ∷ l) = ground (
  arith,
  find_symbol-note_reference name n location l,
  text_eq_iff s.name name,
  text_eq_iff s.name n,
  text_eq_iff name n,
)

-- A reference to a defined name returns its value and notes its location, and no symbol is changed
-- otherwise.
pub get-reference :
    (table : SymbolTable) (name n : Text) (location : SourceLocation) (s : Symbol)
    → get table name ≡ some s
    → (t : SymbolTable) × (reference table name location ≡ ok (s.value, t))
      × (get t n ≡ (
          if text_eq name n
          then some (record s { references = s.references ++ location ∷ [] })
          else get table n))
unfolding get reference
get-reference table name n location s h = (
  record { symbols = note_reference name location table.symbols },
  ground (arith, h),
  find_symbol-note_reference name n location table.symbols ∙ ground (arith, h, text_eq_iff name n),
)
