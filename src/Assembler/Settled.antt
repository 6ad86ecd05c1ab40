-- ===== src/Assembler/Settled.antt =====
-- crates/agc-assembler/src/lib.rs, the fixed point of the equates.
use apollo_rs.Prelude.{
  ℕ, zero, suc, ◌<◌, ◌≤◌, ◌≡◌, refl, arith, Bool, true, false, List, [], ◌∷◌, some, none, err,
  length, All, ◌∙◌, sym, ◌⊎◌, inl, inr, Bool-cases, Option-cases, Result-cases,
}
use mathlib.Core.Path.{subst}
use apollo_rs.Text.{Text, text_eq, text_eq_iff}
use apollo_rs.Symbols.Table.{Symbol, SymbolValue, SymbolTable, SourceLocation, get, define}
use apollo_rs.Symbols.Laws.{get-define}
use apollo_rs.Assembler.Records.{IrRecord, Diagnostic}
use apollo_rs.Assembler.Operands.{EvaluationError, evaluate_operand}
use apollo_rs.Assembler.Assign.{define_or_report}
use apollo_rs.Assembler.Equates.{Equating, equate_value, sweep_equates, resolve_equates}

abbrev pub IsDefined : SymbolTable → Text → Type 0
IsDefined symbols name = (s : Symbol) × (get symbols name ≡ some s)

-- The operand of an equate has no value.
abbrev pub IsStuck : SymbolTable → IrRecord × Text → Type 0
IsStuck symbols q = (e : EvaluationError) × (evaluate_operand q.0.operand symbols ≡ err e)

module _ (symbols : SymbolTable) (name : Text) (value : SymbolValue) (at : SourceLocation)
    (ds : List Diagnostic) where
  IsDefined-now :
      get symbols name ≡ none → IsDefined (define_or_report symbols name value at ds).0 name
  unfolding define_or_report
  IsDefined-now h =
      let (t, d, g) = get-define symbols name name value at h in
      let new : Symbol = record { name = name; value = value; definition = at; references = [] } in
      let same : text_eq name name ≡ true = (text_eq_iff name name).1 refl in
      rw (d, define_or_report) (new, g ∙ rw same refl)

  unchanged :
      (s : Symbol)
      → get symbols name ≡ some s
      → (define_or_report symbols name value at ds).0 ≡ symbols
  unfolding define_or_report define
  unchanged s h = ground (arith, h)

  define_or_report-now : IsDefined (define_or_report symbols name value at ds).0 name
  define_or_report-now = elim (Option-cases (get symbols name)) [
    | inl h ↦ IsDefined-now h
    | inr (s, h) ↦ rw (unchanged s h) (s, h)
  ]

  kept_beside :
      (n : Text)
      → get symbols name ≡ none
      → IsDefined symbols n
      → IsDefined (define_or_report symbols name value at ds).0 n
  unfolding define_or_report
  kept_beside n h (s, there) =
      let (t, d, g) = get-define symbols name n value at h in
      let new : Symbol = record { name = name; value = value; definition = at; references = [] } in
      rw (d, define_or_report)
        (elim (Bool-cases (text_eq name n)) [
          | inl same ↦ (new, g ∙ rw same refl)
          | inr other ↦ (s, g ∙ rw other there)
        ])

  define_or_report-keeps :
      (n : Text) → IsDefined symbols n → IsDefined (define_or_report symbols name value at ds).0 n
  define_or_report-keeps n there = elim (Option-cases (get symbols name)) [
    | inl h ↦ kept_beside n h there
    | inr (s, h) ↦ rw (unchanged s h) there
  ]

-- The equates that a predicate holds of, if it holds of those left over and of those whose label is
-- defined in the end.
abbrev Covers : List (IrRecord × Text) → List (IrRecord × Text) → SymbolTable → Type 1
Covers pending left symbols =
    (P : IrRecord × Text → Type 0)
    → ((q : IrRecord × Text) → IsDefined symbols q.1 → P q)
    → All P left
    → All P pending

-- One round over the equates.
record Swept (pending : List (IrRecord × Text)) (s : Equating)
    (out : List (IrRecord × Text) × Bool × Equating) : Type 1 where
  shorter : length out.0 ≤ length pending
  fewer : out.1 ≡ true → length out.0 < length pending
  still : out.1 ≡ false → (out.2.symbols ≡ s.symbols) × All (IsStuck s.symbols) out.0
  keeps : (n : Text) → IsDefined s.symbols n → IsDefined out.2.symbols n
  covers : Covers pending out.0 out.2.symbols

module _ (q : IrRecord × Text) (pending : List (IrRecord × Text)) (s : Equating) where
  stuck-Swept :
      (out : List (IrRecord × Text) × Bool × Equating)
      → IsStuck s.symbols q
      → Swept pending s out
      → Swept (q ∷ pending) s (q ∷ out.0, out.1, out.2)
  stuck-Swept out stuck rest = record {
    shorter = omega (arith, rest.shorter);
    fewer = λ h. omega (arith, rest.fewer h);
    still = λ h. ((rest.still h).0, (stuck, (rest.still h).1));
    keeps = rest.keeps;
    covers = λ P d h. (h.0, rest.covers P d h.1);
  }

  defined-Swept :
      (t : Equating) (out : List (IrRecord × Text) × Bool × Equating)
      → IsDefined t.symbols q.1
      → ((n : Text) → IsDefined s.symbols n → IsDefined t.symbols n)
      → Swept pending t out
      → Swept (q ∷ pending) s (out.0, true, out.2)
  defined-Swept t out now kept rest = record {
    shorter = omega (arith, rest.shorter);
    fewer = λ _. omega (arith, rest.shorter);
    still = λ h. absurd (ground arith);
    keeps = λ n h. rest.keeps n (kept n h);
    covers = λ P d h. (d q (rest.keeps q.1 now), rest.covers P d h);
  }

sweep_equates-Swept :
    (pending : List (IrRecord × Text)) (s : Equating) → Swept pending s (sweep_equates pending s)
unfolding sweep_equates
sweep_equates-Swept [] s = record {
  shorter = omega arith;
  fewer = λ h. absurd (ground arith);
  still = λ _. (refl, tt);
  keeps = λ n h. h;
  covers = λ P d h. h;
}
sweep_equates-Swept ((r, label) ∷ pending) s =
    elim (Result-cases (evaluate_operand r.operand s.symbols)) [
      | inl (e, stuck) ↦
          let out = sweep_equates pending s in
          subst (Swept ((r, label) ∷ pending) s)
            (let now : ((r, label) ∷ out.0, out.1, out.2) ≡ sweep_equates ((r, label) ∷ pending) s =
                ground (arith, stuck) in
              now)
            (stuck-Swept (r, label) pending s out (e, stuck) (sweep_equates-Swept pending s))
      | inr (v, value) ↦
          let defined =
            define_or_report s.symbols label (equate_value v) r.location s.diagnostics in
          let t : Equating = record { symbols = defined.0; diagnostics = defined.1 } in
          let out = sweep_equates pending t in
          subst (Swept ((r, label) ∷ pending) s)
            (let now : (out.0, true, out.2) ≡ sweep_equates ((r, label) ∷ pending) s =
                ground (arith, value) in
              now)
            (defined-Swept (r, label) pending s t out
              (define_or_report-now s.symbols label (equate_value v) r.location s.diagnostics)
              (define_or_report-keeps s.symbols label (equate_value v) r.location s.diagnostics)
              (sweep_equates-Swept pending t))
    ]

record Resolved (pending : List (IrRecord × Text)) (s : Equating)
    (out : List (IrRecord × Text) × Equating) : Type 1 where
  all_stuck : All (IsStuck out.1.symbols) out.0
  covers_all : Covers pending out.0 out.1.symbols

after_sweep :
    (pending left : List (IrRecord × Text)) (s t : Equating)
    (out : List (IrRecord × Text) × Equating)
    → Swept pending s (left, true, t)
    → ((n : Text) → IsDefined t.symbols n → IsDefined out.1.symbols n)
    → Resolved left t out
    → Resolved pending s out
after_sweep pending left s t out swept kept rest = record {
  all_stuck = rest.all_stuck;
  covers_all = λ P d h. swept.covers P (λ q now. d q (kept q.1 now)) (rest.covers_all P d h);
}

resolve_equates-keeps :
    (fuel : ℕ) (pending : List (IrRecord × Text)) (s : Equating) (n : Text)
    → IsDefined s.symbols n
    → IsDefined (resolve_equates fuel pending s).1.symbols n
unfolding resolve_equates
resolve_equates-keeps zero pending s n h = h
resolve_equates-keeps (suc fuel) pending s n h =
    let (left, progress, t) = sweep_equates pending s in
    let here = (sweep_equates-Swept pending s).keeps n h in
    elim progress
      as (λ b.
        IsDefined
          (elim b as (λ _. List (IrRecord × Text) × Equating) [
            | true ↦ resolve_equates fuel left t
            | false ↦ (left, t)
          ]).1.symbols
          n) [ true ↦ resolve_equates-keeps fuel left t n here | false ↦ here ]

by_progress :
    (fuel : ℕ) (pending left : List (IrRecord × Text)) (progress : Bool) (s t : Equating)
    → Swept pending s (left, progress, t)
    → length pending ≤ suc fuel
    → (length left ≤ fuel → Resolved left t (resolve_equates fuel left t))
    → Resolved pending s (elim progress as (λ _. List (IrRecord × Text) × Equating) [
      | true ↦ resolve_equates fuel left t
      | false ↦ (left, t)
    ])
by_progress fuel pending left true s t swept h rest =
    after_sweep pending left s t _ swept (resolve_equates-keeps fuel left t)
      (rest (omega (arith, swept.fewer refl)))
by_progress fuel pending left false s t swept h rest = record {
  all_stuck =
      subst (λ symbols. All (IsStuck symbols) left) (sym (swept.still refl).0) (swept.still refl).1;
  covers_all = swept.covers;
}

resolve_equates-Resolved :
    (fuel : ℕ) (pending : List (IrRecord × Text)) (s : Equating)
    → length pending ≤ fuel
    → Resolved pending s (resolve_equates fuel pending s)
unfolding resolve_equates
resolve_equates-Resolved zero [] s h = record { all_stuck = tt; covers_all = λ P d k. k }
resolve_equates-Resolved zero (q ∷ pending) s h = absurd (omega arith)
resolve_equates-Resolved (suc fuel) pending s h =
    let (left, progress, t) = sweep_equates pending s in
    by_progress fuel pending left progress s t (sweep_equates-Swept pending s) h
      (resolve_equates-Resolved fuel left t)

All-map {ℓ κ μ} :
    {A : Type ℓ} (P : A → Type κ) (Q : A → Type μ) (xs : List A)
    → ((x : A) → P x → Q x)
    → All P xs
    → All Q xs
All-map P Q [] f h = tt
All-map P Q (x ∷ xs) f h = (f x h.0, All-map P Q xs f h.1)

-- As many rounds as there are equates reach the fixed point: each equate has its label defined in
-- the end, or has no value even with the final symbols, and those left over have none.
pub resolve_equates-settles :
    (pending : List (IrRecord × Text)) (s : Equating)
    → All
        (λ q.
          IsDefined (resolve_equates (length pending) pending s).1.symbols q.1
          ⊎ IsStuck (resolve_equates (length pending) pending s).1.symbols q)
        pending
      × All
          (IsStuck (resolve_equates (length pending) pending s).1.symbols)
          (resolve_equates (length pending) pending s).0
resolve_equates-settles pending s =
    let out = resolve_equates (length pending) pending s in
    let done = resolve_equates-Resolved (length pending) pending s (omega arith) in
    let Settled = λ (q : IrRecord × Text). IsDefined out.1.symbols q.1 ⊎ IsStuck out.1.symbols q in
    (
      done.covers_all Settled (λ q now. inl now)
          (All-map (IsStuck out.1.symbols) Settled out.0 (λ q stuck. inr stuck) done.all_stuck),
      done.all_stuck,
    )
