-- ===== src/Validation/Rows.antt =====
-- crates/agc-validation/src/lib.rs, `compare_yaagc_event`: when an event agrees with a row.
use apollo_rs.Prelude.{
  ℕ, ◌+◌, ◌≡◌, refl, arith, ◌↔◌, Bool, true, List, [], ◌∷◌, Option, some, none, ==_iff,
}
use apollo_rs.Bits.{low_bits}
use apollo_rs.Trace.{
  TraceEvent, RegisterSnapshot, MachineEventKind, instruction, interrupt_entry, InterruptEvent,
  requested, entered, resumed,
}
use apollo_rs.Trace.Equality.{decided, decided_iff}
use apollo_rs.Validation.Laws.{difference_iff}
use apollo_rs.Validation.Reference.{
  YaAgcEventKind, instruction_row, interrupt_entry_row, YaAgcReferenceEvent,
  MachineEventKind-discrete, Entry-discrete, expected_kind, expected_cycle, logged_registers,
  entered_interrupt, zip, same_entry, compare_yaagc_registers, compare_yaagc_event,
}

-- The first interrupt that is entered has this number and this vector.
abbrev pub Enters : List InterruptEvent → ℕ → ℕ → Type 0
Enters [] number vector = ⊥
Enters (entered n v ∷ events) number vector = (n ≡ number) × (v ≡ vector)
Enters (requested n ∷ events) number vector = Enters events number vector
Enters (resumed ∷ events) number vector = Enters events number vector

-- No interrupt is entered.
abbrev pub NoEntry : List InterruptEvent → Type 0
NoEntry [] = Unit
NoEntry (entered n v ∷ events) = ⊥
NoEntry (requested n ∷ events) = NoEntry events
NoEntry (resumed ∷ events) = NoEntry events

-- The interrupt of a row is entered, or none where the row does not give both of its parts.
abbrev pub SameInterrupt : List InterruptEvent → Option ℕ → Option ℕ → Type 0
SameInterrupt events (some number) (some vector) = Enters events number vector
SameInterrupt events (some number) none = NoEntry events
SameInterrupt events none vector = NoEntry events

-- An event has this kind, this cycle at its end and, in these registers, what the row has.
pub record AgreesAs (l : TraceEvent) (r : YaAgcReferenceEvent) (kind : MachineEventKind) (cycle : ℕ)
    (registers : RegisterSnapshot) : Type 0 where
  pub same_kind : l.kind ≡ kind
  pub same_cycle : l.cycle_end ≡ cycle
  pub same_pc : l.pc ≡ r.pc
  pub same_word : l.instruction_word ≡ low_bits r.instruction_word 15
  pub same_a : registers.a ≡ r.a
  pub same_l : registers.l ≡ r.l
  pub same_q : registers.q ≡ r.q
  pub same_eb : registers.eb ≡ r.eb
  pub same_fb : registers.fb ≡ r.fb
  pub same_bb : registers.bb ≡ r.bb

-- A row of an instruction has its cycle and the registers before it. A row of an interrupt entry has
-- the first of its two cycles, so that the event ends one later, and the registers after it.
abbrev pub AgreesIn : YaAgcEventKind → TraceEvent → YaAgcReferenceEvent → Type 0
AgreesIn instruction_row l r = AgreesAs l r instruction r.cycle l.before
AgreesIn interrupt_entry_row l r =
    AgreesAs l r interrupt_entry (r.cycle + 1) l.after
    × SameInterrupt l.interrupts r.interrupt_number r.interrupt_vector

abbrev pub Agrees : TraceEvent → YaAgcReferenceEvent → Type 0
Agrees l r = AgreesIn r.kind l r

entered_interrupt-Enters :
    (events : List InterruptEvent) (number vector : ℕ)
    → (entered_interrupt events ≡ some (number, vector)) ↔ Enters events number vector
unfolding entered_interrupt
entered_interrupt-Enters [] number vector = (λ e. absurd (ground (arith, e)), λ h. absurd h)
entered_interrupt-Enters (entered n v ∷ events) number vector = ground arith
entered_interrupt-Enters (requested n ∷ events) number vector =
    entered_interrupt-Enters events number vector
entered_interrupt-Enters (resumed ∷ events) number vector =
    entered_interrupt-Enters events number vector

entered_interrupt-NoEntry :
    (events : List InterruptEvent) → (entered_interrupt events ≡ none) ↔ NoEntry events
unfolding entered_interrupt
entered_interrupt-NoEntry [] = (λ e. tt, λ h. refl)
entered_interrupt-NoEntry (entered n v ∷ events) = (λ e. absurd (ground (arith, e)), λ h. absurd h)
entered_interrupt-NoEntry (requested n ∷ events) = entered_interrupt-NoEntry events
entered_interrupt-NoEntry (resumed ∷ events) = entered_interrupt-NoEntry events

zip-SameInterrupt :
    (events : List InterruptEvent) (number vector : Option ℕ)
    → (entered_interrupt events ≡ zip number vector) ↔ SameInterrupt events number vector
unfolding zip
zip-SameInterrupt events (some n) (some v) = entered_interrupt-Enters events n v
zip-SameInterrupt events (some n) none = entered_interrupt-NoEntry events
zip-SameInterrupt events none vector = entered_interrupt-NoEntry events

-- The last comparison, by the kind of the row.
abbrev SameEntry : YaAgcEventKind → TraceEvent → YaAgcReferenceEvent → Type 0
SameEntry instruction_row l r = Unit
SameEntry interrupt_entry_row l r = SameInterrupt l.interrupts r.interrupt_number r.interrupt_vector

module _ (l : TraceEvent) (r : YaAgcReferenceEvent) where
  same_entry_iff : (same_entry l r ≡ true) ↔ SameEntry r.kind l r
  unfolding same_entry
  same_entry_iff = by_kind r.kind
    where
      by_kind :
          (k : YaAgcEventKind)
          → (◌≡◌ {A = Bool}
              (elim k [
                | instruction_row ↦ true
                | interrupt_entry_row ↦
                    decided Entry-discrete
                      (entered_interrupt l.interrupts)
                      (zip r.interrupt_number r.interrupt_vector)
              ])
              true)
            ↔ SameEntry k l r
      by_kind instruction_row = (λ _. tt, λ _. refl)
      by_kind interrupt_entry_row =
          let same =
            decided_iff Entry-discrete (entered_interrupt l.interrupts)
              (zip r.interrupt_number r.interrupt_vector) in
          let means = zip-SameInterrupt l.interrupts r.interrupt_number r.interrupt_vector in
          (λ e. means.0 (same.0 e), λ h. same.1 (means.1 h))

  -- The comparisons in their order, for a kind of row and the cycle that it stands for.
  abbrev SameRegisters : YaAgcEventKind → Type 0
  SameRegisters k =
      ((logged_registers l k).a ≡ r.a)
      × (((logged_registers l k).l ≡ r.l)
          × (((logged_registers l k).q ≡ r.q)
              × (((logged_registers l k).eb ≡ r.eb)
                  × (((logged_registers l k).fb ≡ r.fb)
                      × (((logged_registers l k).bb ≡ r.bb) × (SameEntry k l r × Unit {0}))))))

  abbrev SameRow : YaAgcEventKind → ℕ → Type 0
  SameRow k cycle =
      (l.kind ≡ expected_kind k)
      × ((l.cycle_end ≡ cycle)
          × ((l.pc ≡ r.pc)
              × ((l.instruction_word ≡ low_bits r.instruction_word 15) × SameRegisters k)))

  registers_iff : (index : ℕ) → (compare_yaagc_registers index l r ≡ none) ↔ SameRegisters r.kind
  unfolding compare_yaagc_registers
  registers_iff index = difference_iff index _ _ _ _ (==_iff (logged_registers l r.kind).a r.a) (
      difference_iff index _ _ _ _ (==_iff (logged_registers l r.kind).l r.l) (
        difference_iff index _ _ _ _ (==_iff (logged_registers l r.kind).q r.q) (
          difference_iff index _ _ _ _ (==_iff (logged_registers l r.kind).eb r.eb) (
            difference_iff index _ _ _ _ (==_iff (logged_registers l r.kind).fb r.fb) (
              difference_iff index _ _ _ _ (==_iff (logged_registers l r.kind).bb r.bb)
                (difference_iff index _ _ _ _ (same_entry_iff) ((λ _. tt, λ _. refl))))))))

  row_iff : (index : ℕ) → (compare_yaagc_event index l r ≡ none) ↔ SameRow r.kind (expected_cycle r)
  unfolding compare_yaagc_event
  row_iff index =
      difference_iff index _ _ _ _
        (decided_iff MachineEventKind-discrete l.kind (expected_kind r.kind))
        (difference_iff index _ _ _ _ (==_iff l.cycle_end (expected_cycle r)) (
          difference_iff index _ _ _ _ (==_iff l.pc r.pc) (
            difference_iff index _ _ _ _
              (==_iff l.instruction_word (low_bits r.instruction_word 15)) (registers_iff index))))

  same_row :
      (k : YaAgcEventKind)
      → SameRow k (elim k [ instruction_row ↦ r.cycle | interrupt_entry_row ↦ r.cycle + 1 ])
      → AgreesIn k l r
  unfolding expected_kind logged_registers
  same_row instruction_row
        (s_kind, (s_cycle, (s_pc, (s_word, (s_a, (s_l, (s_q, (s_eb, (s_fb, (s_bb, (_, _))))))))))) =
      record {
        same_kind = s_kind;
        same_cycle = s_cycle;
        same_pc = s_pc;
        same_word = s_word;
        same_a = s_a;
        same_l = s_l;
        same_q = s_q;
        same_eb = s_eb;
        same_fb = s_fb;
        same_bb = s_bb;
      }
  same_row interrupt_entry_row
        (
          s_kind,
          (
            s_cycle,
            (s_pc, (s_word, (s_a, (s_l, (s_q, (s_eb, (s_fb, (s_bb, (s_interrupt, _))))))))),
          ),
        ) =
      (
        record {
          same_kind = s_kind;
          same_cycle = s_cycle;
          same_pc = s_pc;
          same_word = s_word;
          same_a = s_a;
          same_l = s_l;
          same_q = s_q;
          same_eb = s_eb;
          same_fb = s_fb;
          same_bb = s_bb;
        },
        s_interrupt,
      )

  agreeing_row :
      (k : YaAgcEventKind)
      → AgreesIn k l r
      → SameRow k (elim k [ instruction_row ↦ r.cycle | interrupt_entry_row ↦ r.cycle + 1 ])
  unfolding expected_kind logged_registers
  agreeing_row instruction_row h = (
    h.same_kind,
    (
      h.same_cycle,
      (
        h.same_pc,
        (
          h.same_word,
          (h.same_a, (h.same_l, (h.same_q, (h.same_eb, (h.same_fb, (h.same_bb, (tt, tt))))))),
        ),
      ),
    ),
  )
  agreeing_row interrupt_entry_row (h, interrupt) = (
    h.same_kind,
    (
      h.same_cycle,
      (
        h.same_pc,
        (
          h.same_word,
          (
            h.same_a,
            (h.same_l, (h.same_q, (h.same_eb, (h.same_fb, (h.same_bb, (interrupt, tt)))))),
          ),
        ),
      ),
    ),
  )

  pub compare_yaagc_event-Agrees : (index : ℕ) → (compare_yaagc_event index l r ≡ none) ↔ Agrees l r
  unfolding expected_cycle
  compare_yaagc_event-Agrees index =
      (λ e. same_row r.kind ((row_iff index).0 e), λ h. (row_iff index).1 (agreeing_row r.kind h))
