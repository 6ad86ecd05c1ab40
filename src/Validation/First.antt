-- ===== src/Validation/First.antt =====
-- crates/agc-validation/src/lib.rs, `compare_traces`: where the first divergence is.
use apollo_rs.Prelude.{
  ℕ, zero, suc, ◌+◌, ◌≡◌, refl, arith, sym, ◌∙◌, Bool, true, false, List, [], ◌∷◌, Option, some,
  none, Option-cases, inl, inr, length, ◌==◌, leb, if◌then◌else◌,
}
use mathlib.Core.Path.{subst}
use Prim.Native.String.{String}
use apollo_rs.Trace.{TraceEvent}
use apollo_rs.Trace.Equality.{
  RegisterSnapshot-discrete, MemoryEvent-discrete, IoEvent-discrete, InterruptEvent-discrete,
  Label-discrete, decided, same_all,
}
use apollo_rs.Validation.Compare.{
  DivergenceClass, Divergence, decode, arithmetic, addressing, banking, timing, interrupt_class,
  io_class, Bool-discrete, difference, compare_result, compare_effects, compare_before,
  compare_timing, compare_event, first_divergence, or_length, compare_traces,
}
use apollo_rs.Validation.Laws.{Alike, compare_event-Alike}

-- A divergence, if there is one, is at an event.
AtEvent : ℕ → Option Divergence → Type 0
AtEvent index o = (d : Divergence) → o ≡ some d → d.event ≡ index

difference-AtEvent :
    (index : ℕ) (field : String) (class : DivergenceClass) (same : Bool) (next : Option Divergence)
    → AtEvent index next
    → AtEvent index (difference index field class same next)
unfolding difference AtEvent
difference-AtEvent index field class true next h d e = h d e
difference-AtEvent index field class false next h d e = ground (arith, e)

module _ (index : ℕ) (l r : TraceEvent) where
  nowhere : AtEvent index none
  unfolding AtEvent
  nowhere d e = ground (arith, e)

  compare_result-AtEvent : AtEvent index (compare_result index l r)
  unfolding compare_result
  compare_result-AtEvent =
      difference-AtEvent index "after.eb" banking (l.after.eb == r.after.eb) _ (
        difference-AtEvent index "after.fb" banking (l.after.fb == r.after.fb) _ (
          difference-AtEvent index "after.bb" banking (l.after.bb == r.after.bb) _ (
            difference-AtEvent index "after" arithmetic
              (decided RegisterSnapshot-discrete l.after r.after) _ (nowhere))))

  compare_effects-AtEvent : AtEvent index (compare_effects index l r)
  unfolding compare_effects
  compare_effects-AtEvent =
      difference-AtEvent index "memory" addressing
        (same_all (decided MemoryEvent-discrete) l.memory r.memory) _
        (difference-AtEvent index "io" io_class (same_all (decided IoEvent-discrete) l.io r.io) _ (
          difference-AtEvent index "interrupts" interrupt_class
            (same_all (decided InterruptEvent-discrete) l.interrupts r.interrupts) _
            (compare_result-AtEvent)))

  compare_before-AtEvent : AtEvent index (compare_before index l r)
  unfolding compare_before
  compare_before-AtEvent =
      difference-AtEvent index "before.eb" banking (l.before.eb == r.before.eb) _ (
        difference-AtEvent index "before.fb" banking (l.before.fb == r.before.fb) _ (
          difference-AtEvent index "before.bb" banking (l.before.bb == r.before.bb) _ (
            difference-AtEvent index "before" arithmetic
              (decided RegisterSnapshot-discrete l.before r.before) _ (compare_effects-AtEvent))))

  compare_timing-AtEvent : AtEvent index (compare_timing index l r)
  unfolding compare_timing
  compare_timing-AtEvent =
      difference-AtEvent index "cycle-start" timing (l.cycle_start == r.cycle_start) _ (
        difference-AtEvent index "cycle-end" timing (l.cycle_end == r.cycle_end) _
          (compare_before-AtEvent))

  compare_event-AtEvent : AtEvent index (compare_event index l r)
  unfolding compare_event
  compare_event-AtEvent = difference-AtEvent index "sequence" timing (l.sequence == r.sequence) _ (
      difference-AtEvent index "pc" decode (l.pc == r.pc) _ (
        difference-AtEvent index "instruction" decode (l.instruction_word == r.instruction_word) _ (
          difference-AtEvent index "mnemonic" decode (decided Label-discrete l.mnemonic r.mnemonic)
            _
            (difference-AtEvent index "operand" decode (l.operand == r.operand) _ (
              difference-AtEvent index "extended" decode
                (decided Bool-discrete l.extended r.extended) _ (compare_timing-AtEvent))))))

-- The two traces agree up to an event, at which the events do not agree or one trace has ended.
abbrev pub FirstAt : ℕ → List TraceEvent → List TraceEvent → Type 0
FirstAt k [] [] = ⊥
FirstAt zero [] (r ∷ rs) = Unit
FirstAt (suc k) [] (r ∷ rs) = ⊥
FirstAt zero (l ∷ ls) [] = Unit
FirstAt (suc k) (l ∷ ls) [] = ⊥
FirstAt zero (l ∷ ls) (r ∷ rs) = ¬ Alike l r
FirstAt (suc k) (l ∷ ls) (r ∷ rs) = Alike l r × FirstAt k ls rs

first_divergence-FirstAt :
    (index : ℕ) (ls rs : List TraceEvent) (d : Divergence)
    → first_divergence index ls rs ≡ some d
    → (k : ℕ) × (d.event ≡ index + k) × FirstAt k ls rs
unfolding first_divergence AtEvent
first_divergence-FirstAt index [] rs d e = absurd (ground (arith, e))
first_divergence-FirstAt index (l ∷ ls) [] d e = absurd (ground (arith, e))
first_divergence-FirstAt index (l ∷ ls) (r ∷ rs) d e =
    elim (Option-cases (compare_event index l r)) [
      | inl f ↦
          let (k, at, first) =
            first_divergence-FirstAt (index + 1) ls rs d (ground (arith, e, f)) in
          (suc k, omega (arith, at), ((compare_event-Alike index l r).0 f, first))
      | inr (c, f) ↦
          let same : some c ≡ some d = ground (arith, e, f) in
          (
            zero,
            omega (arith, compare_event-AtEvent index l r d (f ∙ same)),
            λ alike. absurd (
                let clash : none ≡ some c = sym ((compare_event-Alike index l r).1 alike) ∙ f in
                ground arith),
          )
    ]

shared-FirstAt :
    (index : ℕ) (ls rs : List TraceEvent)
    → first_divergence index ls rs ≡ none
    → ¬ (length ls ≡ length rs)
    → (k : ℕ) × ((if leb (length ls) (length rs) then length ls else length rs) ≡ k)
      × FirstAt k ls rs
unfolding first_divergence
shared-FirstAt index [] [] e n = absurd (n refl)
shared-FirstAt index [] (r ∷ rs) e n = (zero, ground arith, tt)
shared-FirstAt index (l ∷ ls) [] e n = (zero, ground arith, tt)
shared-FirstAt index (l ∷ ls) (r ∷ rs) e n = elim (Option-cases (compare_event index l r)) [
  | inl f ↦
      let (k, at, first) =
        shared-FirstAt (index + 1) ls rs (ground (arith, e, f)) (λ same. n (omega (arith, same))) in
      (suc k, ground (arith, at), ((compare_event-Alike index l r).0 f, first))
  | inr (c, f) ↦ absurd (ground (arith, e, f))
]

by_length :
    (ls rs : List TraceEvent) (o : Option Divergence) (d : Divergence)
    → first_divergence 0 ls rs ≡ o
    → or_length o ls rs ≡ some d
    → FirstAt d.event ls rs
unfolding or_length
by_length ls rs (some c) d f e =
    let (k, at, first) = first_divergence-FirstAt 0 ls rs d (f ∙ e) in
    subst (λ i. FirstAt i ls rs) (let same : k ≡ d.event = omega (arith, at) in same) first
by_length ls rs none d f e =
    let (k, at, first) = shared-FirstAt 0 ls rs f (λ same. ground (arith, e, same)) in
    subst (λ i. FirstAt i ls rs) (let same : k ≡ d.event = ground (arith, at, e) in same) first

-- The first divergence of two traces is at an event before which the traces agree, and at which the
-- events do not agree or one of the traces has ended.
pub compare_traces-FirstAt :
    (ls rs : List TraceEvent) (d : Divergence)
    → (compare_traces ls rs).first ≡ some d
    → FirstAt d.event ls rs
unfolding compare_traces
compare_traces-FirstAt ls rs d e = by_length ls rs (first_divergence 0 ls rs) d refl e
