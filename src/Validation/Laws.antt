-- ===== src/Validation/Laws.antt =====
-- crates/agc-validation/src/lib.rs, `compare_traces`: what an equivalent report says.
use apollo_rs.Prelude.{
  ℕ, ◌+◌, ◌≡◌, refl, arith, ap, sym, ◌∙◌, ◌↔◌, Bool, true, false, List, [], ◌∷◌, Option, some, none,
  Option-cases, inl, inr, length, ==_iff,
}
use Prim.Native.String.{String}
use apollo_rs.Trace.{TraceEvent}
use apollo_rs.Trace.Equality.{
  RegisterSnapshot-discrete, MemoryEvent-discrete, IoEvent-discrete, InterruptEvent-discrete,
  Label-discrete, decided, decided_iff, same_all_iff,
}
use apollo_rs.Validation.Compare.{
  DivergenceClass, Divergence, Bool-discrete, difference, compare_result, compare_effects,
  compare_before, compare_timing, compare_event, first_divergence, or_length, compare_traces,
}

-- Two events agree, whatever their kind and schema.
pub record Alike (l r : TraceEvent) : Type 0 where
  pub same_sequence : l.sequence ≡ r.sequence
  pub same_pc : l.pc ≡ r.pc
  pub same_instruction_word : l.instruction_word ≡ r.instruction_word
  pub same_mnemonic : l.mnemonic ≡ r.mnemonic
  pub same_operand : l.operand ≡ r.operand
  pub same_extended : l.extended ≡ r.extended
  pub same_cycle_start : l.cycle_start ≡ r.cycle_start
  pub same_cycle_end : l.cycle_end ≡ r.cycle_end
  pub same_before : l.before ≡ r.before
  pub same_memory : l.memory ≡ r.memory
  pub same_io : l.io ≡ r.io
  pub same_interrupts : l.interrupts ≡ r.interrupts
  pub same_after : l.after ≡ r.after

pub difference_iff :
    {P Q : Type 0} (index : ℕ) (field : String) (class : DivergenceClass) (same : Bool)
    (next : Option Divergence)
    → (same ≡ true) ↔ P
    → (next ≡ none) ↔ Q
    → (difference index field class same next ≡ none) ↔ (P × Q)
unfolding difference
difference_iff index field class true next p q = (λ e. (p.0 refl, q.0 e), λ h. q.1 h.1)
difference_iff index field class false next p q =
    (λ e. ground (arith, e), λ h. absurd (let clash : false ≡ true = p.1 h.0 in ground arith))

module _ (index : ℕ) (l r : TraceEvent) where
  abbrev SameResult : Type 0
  SameResult =
      (l.after.eb ≡ r.after.eb)
      × ((l.after.fb ≡ r.after.fb) × ((l.after.bb ≡ r.after.bb) × ((l.after ≡ r.after) × Unit {0})))

  compare_result_iff : (compare_result index l r ≡ none) ↔ SameResult
  unfolding compare_result
  compare_result_iff = difference_iff index _ _ _ _ (==_iff l.after.eb r.after.eb) (
      difference_iff index _ _ _ _ (==_iff l.after.fb r.after.fb) (
        difference_iff index _ _ _ _ (==_iff l.after.bb r.after.bb) (
          difference_iff index _ _ _ _ (decided_iff RegisterSnapshot-discrete l.after r.after)
            ((λ _. tt, λ _. refl)))))

  abbrev SameEffects : Type 0
  SameEffects =
      (l.memory ≡ r.memory) × ((l.io ≡ r.io) × ((l.interrupts ≡ r.interrupts) × SameResult))

  compare_effects_iff : (compare_effects index l r ≡ none) ↔ SameEffects
  unfolding compare_effects
  compare_effects_iff =
      difference_iff index _ _ _ _
        (same_all_iff (decided MemoryEvent-discrete) (decided_iff MemoryEvent-discrete) l.memory
          r.memory)
        (difference_iff index _ _ _ _
          (same_all_iff (decided IoEvent-discrete) (decided_iff IoEvent-discrete) l.io r.io)
          (difference_iff index _ _ _ _
            (same_all_iff (decided InterruptEvent-discrete) (decided_iff InterruptEvent-discrete)
              l.interrupts r.interrupts)
            (compare_result_iff)))

  abbrev SameBefore : Type 0
  SameBefore =
      (l.before.eb ≡ r.before.eb)
      × ((l.before.fb ≡ r.before.fb)
          × ((l.before.bb ≡ r.before.bb) × ((l.before ≡ r.before) × SameEffects)))

  compare_before_iff : (compare_before index l r ≡ none) ↔ SameBefore
  unfolding compare_before
  compare_before_iff = difference_iff index _ _ _ _ (==_iff l.before.eb r.before.eb) (
      difference_iff index _ _ _ _ (==_iff l.before.fb r.before.fb) (
        difference_iff index _ _ _ _ (==_iff l.before.bb r.before.bb) (
          difference_iff index _ _ _ _ (decided_iff RegisterSnapshot-discrete l.before r.before)
            (compare_effects_iff))))

  abbrev SameTiming : Type 0
  SameTiming = (l.cycle_start ≡ r.cycle_start) × ((l.cycle_end ≡ r.cycle_end) × SameBefore)

  compare_timing_iff : (compare_timing index l r ≡ none) ↔ SameTiming
  unfolding compare_timing
  compare_timing_iff =
      difference_iff index _ _ _ _ (==_iff l.cycle_start r.cycle_start)
        (difference_iff index _ _ _ _ (==_iff l.cycle_end r.cycle_end) (compare_before_iff))

  abbrev SameEvent : Type 0
  SameEvent =
      (l.sequence ≡ r.sequence)
      × ((l.pc ≡ r.pc)
          × ((l.instruction_word ≡ r.instruction_word)
              × ((l.mnemonic ≡ r.mnemonic)
                  × ((l.operand ≡ r.operand) × ((l.extended ≡ r.extended) × SameTiming)))))

  compare_event_iff : (compare_event index l r ≡ none) ↔ SameEvent
  unfolding compare_event
  compare_event_iff = difference_iff index _ _ _ _ (==_iff l.sequence r.sequence) (
      difference_iff index _ _ _ _ (==_iff l.pc r.pc) (
        difference_iff index _ _ _ _ (==_iff l.instruction_word r.instruction_word) (
          difference_iff index _ _ _ _ (decided_iff Label-discrete l.mnemonic r.mnemonic) (
            difference_iff index _ _ _ _ (==_iff l.operand r.operand) (
              difference_iff index _ _ _ _ (decided_iff Bool-discrete l.extended r.extended)
                (compare_timing_iff))))))

  alike : SameEvent → Alike l r
  alike
        (
          s_sequence,
          (
            s_pc,
            (
              s_instruction_word,
              (
                s_mnemonic,
                (
                  s_operand,
                  (
                    s_extended,
                    (
                      s_cycle_start,
                      (
                        s_cycle_end,
                        (
                          s_before_eb,
                          (
                            s_before_fb,
                            (
                              s_before_bb,
                              (
                                s_before,
                                (
                                  s_memory,
                                  (
                                    s_io,
                                    (
                                      s_interrupts,
                                      (s_after_eb, (s_after_fb, (s_after_bb, (s_after, _)))),
                                    ),
                                  ),
                                ),
                              ),
                            ),
                          ),
                        ),
                      ),
                    ),
                  ),
                ),
              ),
            ),
          ),
        ) =
      record {
        same_sequence = s_sequence;
        same_pc = s_pc;
        same_instruction_word = s_instruction_word;
        same_mnemonic = s_mnemonic;
        same_operand = s_operand;
        same_extended = s_extended;
        same_cycle_start = s_cycle_start;
        same_cycle_end = s_cycle_end;
        same_before = s_before;
        same_memory = s_memory;
        same_io = s_io;
        same_interrupts = s_interrupts;
        same_after = s_after;
      }

  same_event : Alike l r → SameEvent
  same_event h = (
    h.same_sequence,
    (
      h.same_pc,
      (
        h.same_instruction_word,
        (
          h.same_mnemonic,
          (
            h.same_operand,
            (
              h.same_extended,
              (
                h.same_cycle_start,
                (
                  h.same_cycle_end,
                  (
                    ap (λ s. s.eb) h.same_before,
                    (
                      ap (λ s. s.fb) h.same_before,
                      (
                        ap (λ s. s.bb) h.same_before,
                        (
                          h.same_before,
                          (
                            h.same_memory,
                            (
                              h.same_io,
                              (
                                h.same_interrupts,
                                (
                                  ap (λ s. s.eb) h.same_after,
                                  (
                                    ap (λ s. s.fb) h.same_after,
                                    (ap (λ s. s.bb) h.same_after, (h.same_after, tt)),
                                  ),
                                ),
                              ),
                            ),
                          ),
                        ),
                      ),
                    ),
                  ),
                ),
              ),
            ),
          ),
        ),
      ),
    ),
  )

  pub compare_event-Alike : (compare_event index l r ≡ none) ↔ Alike l r
  compare_event-Alike =
      (λ e. alike (compare_event_iff.0 e), λ h. compare_event_iff.1 (same_event h))

-- Two traces of one length whose events agree one by one.
abbrev pub AllAlike : List TraceEvent → List TraceEvent → Type 0
AllAlike [] [] = Unit
AllAlike [] (r ∷ rs) = ⊥
AllAlike (l ∷ ls) [] = ⊥
AllAlike (l ∷ ls) (r ∷ rs) = Alike l r × AllAlike ls rs

or_length-none :
    (d : Option Divergence) (ls rs : List TraceEvent)
    → (or_length d ls rs ≡ none) ↔ ((d ≡ none) × (length ls ≡ length rs))
unfolding or_length
or_length-none none ls rs = ground arith
or_length-none (some d) ls rs = (λ e. ground (arith, e), λ h. ground (arith, h.0))

first_divergence-AllAlike :
    (index : ℕ) (ls rs : List TraceEvent)
    → ((first_divergence index ls rs ≡ none) × (length ls ≡ length rs)) ↔ AllAlike ls rs
unfolding first_divergence
first_divergence-AllAlike index [] [] = (λ h. tt, λ h. (refl, refl))
first_divergence-AllAlike index [] (r ∷ rs) = (λ h. omega (arith, h.1), λ h. absurd h)
first_divergence-AllAlike index (l ∷ ls) [] = (λ h. omega (arith, h.1), λ h. absurd h)
first_divergence-AllAlike index (l ∷ ls) (r ∷ rs) =
    let event = compare_event-Alike index l r in
    let rest = first_divergence-AllAlike (index + 1) ls rs in
    elim (Option-cases (compare_event index l r)) [
      | inl e ↦ (
        λ h. (event.0 e, rest.0 (ground (arith, e, h.0), omega (arith, h.1))),
        λ h. let k = rest.1 h.1 in (ground (arith, e, k.0), omega (arith, k.1)),
      )
      | inr (d, e) ↦ (
        λ h. absurd (ground (arith, e, h.0)),
        λ h. absurd (let clash : none ≡ some d = sym (event.1 h.0) ∙ e in ground arith),
      )
    ]

-- The report on two traces says that they are equivalent exactly when they have the same length and
-- each event of one agrees with that of the other in its sequence, address, word, mnemonic,
-- operand, context, cycles, registers before and after, accesses to memory and channels, and
-- interrupts.
pub compare_traces-AllAlike :
    (ls rs : List TraceEvent) → ((compare_traces ls rs).equivalent ≡ true) ↔ AllAlike ls rs
unfolding compare_traces
compare_traces-AllAlike ls rs =
    let all = first_divergence-AllAlike 0 ls rs in
    let both = or_length-none (first_divergence 0 ls rs) ls rs in
    elim (Option-cases (or_length (first_divergence 0 ls rs) ls rs)) [
      | inl e ↦ (λ h. all.0 (both.0 e), λ h. ground (arith, e))
      | inr (d, e) ↦ (
        λ h. absurd (ground (arith, e, h)),
        λ h. absurd (let clash : none ≡ some d = sym (both.1 (all.1 h)) ∙ e in ground arith),
      )
    ]
