-- ===== src/Cpu/Safe/Finish.antt =====
-- crates/agc-cpu/src/lib.rs, `finish_interrupt` and `finish_instruction`, the ends of `step`.
use apollo_rs.Prelude.{
  ℕ, ◌+◌, ◌-◌, ◌*◌, ◌^◌, ◌<◌, ◌≤◌, ◌≡◌, refl, ◌∙◌, arith, Bool, false, if_cases, Option, none, some,
  [], ◌∷◌, ◌++◌, ltb,
}
use apollo_rs.Bits.{low_bits}
use apollo_rs.Word.{sign_extend}
use apollo_rs.Register.{overflow_correct}
use apollo_rs.Isa.Mnemonics.{DecodedInstruction}
use apollo_rs.Isa.RoundTrip.{bits}
use apollo_rs.Memory.Invariant.{IsValid}
use apollo_rs.Trace.{interrupt_entry, interrupt_label, entered, named}
use apollo_rs.Cpu.State.{Machine, M, pure, ◌>>=◌, ◌>>◌, get, modify, Interrupt, number}
use apollo_rs.Cpu.Registers.{l_register, set_l_register, set_z}
use apollo_rs.Cpu.Clock.{
  advance_to_ready_mct, clock_deferred_mct, clock_deferred_mcts, schedule_completed_downrupt,
}
use apollo_rs.Cpu.Execute.{execute}
use apollo_rs.Cpu.Step.{
  StepOutcome, instruction_step, commit_event, finish_interrupt, finish_instruction,
  wait_for_operands, is_edrupt,
}
use apollo_rs.Cpu.Clock.Timers.{View, view, Calm, kept}
use apollo_rs.Cpu.Clock.Total.{
  Ready, clock_deferred_mct-Ends, clock_deferred_mcts-Ends, advance_to_ready_mct-Ends,
}
use apollo_rs.Cpu.Safe.{Safe, Safe-modify, Anything, Holds, Holds-bind, Holds-weaken, Ends-Holds}
use apollo_rs.Cpu.Safe.Operands.{set_l_register-Safe, set_z-Safe}
use apollo_rs.Cpu.Safe.Instructions.{corrected-IsRegister}
use apollo_rs.Cpu.Safe.Execute.{execute-Safe}
use apollo_rs.Cpu.Safe.Commit.{IsWell, Open, Logged, commit_event-Holds, counted-IsWell}

abbrev pub Well : StepOutcome → Machine → Type 0
Well o t = IsWell t.cpu

module _ (v : View) (open_v : Open v) where
  clock-Holds :
      (n : ℕ) (s : Machine) → Calm v n s → Holds (λ _ t. Calm v (n + 3) t) (clock_deferred_mct s)
  clock-Holds n s c =
      Ends-Holds (λ _ t. Calm v (n + 3) t) (clock_deferred_mct s) (clock_deferred_mct-Ends v n s c)

  clocks-Holds :
      (k n : ℕ) (s : Machine)
      → Calm v n s
      → Holds (λ _ t. Calm v (n + 3 * k) t) (clock_deferred_mcts k s)
  clocks-Holds k n s c =
      Ends-Holds (λ _ t. Calm v (n + 3 * k) t) (clock_deferred_mcts k s)
        (clock_deferred_mcts-Ends v k n s c)

  abbrev pub Waited : Unit {0} → Machine → Type 0
  Waited _ t = (m : ℕ) × (m < 80) × Calm v m t

  -- The clock is ready, with the view that the state had.
  pub advance-Holds :
      (s : Machine)
      → IsValid s.cpu.memory
      → s.cpu.scaler_mcts ≤ 100
      → view s ≡ v
      → Holds Waited (advance_to_ready_mct s)
  advance-Holds s m h e =
      Holds-weaken (λ _ t. Ready (view s) t) Waited (advance_to_ready_mct s)
        (Ends-Holds (λ _ t. Ready (view s) t) (advance_to_ready_mct s)
          (advance_to_ready_mct-Ends s m h))
        λ _ t r. (
          t.cpu.scaler_mcts,
          r.1,
          record { memory_IsValid = r.0; debt_is = refl; view_is = r.2 ∙ e },
        )

  pub finish_interrupt-Holds :
      (n : ℕ) (x : Bool) (i : Option Interrupt) (target : ℕ) (s : Machine)
      → n < 80
      → Calm v n s
      → Holds Well (finish_interrupt x i target s)
  unfolding finish_interrupt
  finish_interrupt-Holds n x i target s h c =
      let started : Machine = record s {
        event = record s.event {
          kind = interrupt_entry;
          mnemonic = interrupt_label;
          operand = target;
          extended = x;
          interrupts =
              s.event.interrupts ++ entered (elim i [ none ↦ 0 | some j ↦ number j ]) target ∷ [];
        };
      } in
      Holds-bind (λ _ t. Calm v (n + 3) t) Well clock_deferred_mct _ started
        (clock-Holds n started (kept v n s started refl refl refl c))
        λ _ t d.
          Holds-bind (λ _ u. Logged u) Well commit_event _ t
            (commit_event-Holds v (n + 3) t open_v (omega arith) d)
            λ e u l. counted-IsWell u l _ refl refl refl refl refl

  -- The wait before an instruction's result.
  wait_for_operands-Holds :
      (n cycles : ℕ) (s : Machine)
      → n < 80
      → cycles ≤ 6
      → Calm v n s
      → Holds Waited (wait_for_operands cycles s)
  unfolding wait_for_operands
  wait_for_operands-Holds n cycles s h k c =
      if_cases {A = M (Unit {0})} (λ m. Holds Waited (m s)) (ltb 1 cycles) _ _
        (λ _.
          Holds-bind (λ _ t. Calm v (n + 3 * (cycles - 2)) t) Waited
            (clock_deferred_mcts (cycles - 2)) (λ _. advance_to_ready_mct) s
            (clocks-Holds (cycles - 2) n s c)
            λ _ t d. advance-Holds t d.memory_IsValid (omega (arith, d.debt_is)) d.view_is)
        λ _. (n, h, c)

  schedule-Safe : (n : ℕ) → Safe v n Anything schedule_completed_downrupt
  unfolding schedule_completed_downrupt
  schedule-Safe n = Safe-modify v n _ λ t d.
      if_cases (λ e. Calm v n (record t { cpu = e })) t.cpu.schedule_downrupt _ _
        (λ _. kept v n t _ refl refl refl d) λ _. d

  committed-Holds :
      (d : DecodedInstruction) (n : ℕ) (s : Machine)
      → n < 80
      → Calm v n s
      → Holds Well (
          (do
            event ← commit_event
            modify
                λ e. record e { sequence = e.sequence + 1; trace_sequence = e.trace_sequence + 1 }
            λ s.
                pure
                  (record { kind = instruction_step d; event = event; watched = s.watchpoint })
                  s)
            s)
  committed-Holds d n s h c =
      Holds-bind (λ _ u. Logged u) Well commit_event _ s
        (commit_event-Holds v n s open_v (omega arith) c)
        λ e u l. counted-IsWell u l _ refl refl refl refl refl

  -- The processor after the instruction: L is corrected, and a completed downlink scheduled.
  settled-Holds :
      (d : DecodedInstruction) (n : ℕ) (s : Machine)
      → n < 80
      → Calm v n s
      → Holds Well (
          (do
            c ← get
            set_l_register (sign_extend (overflow_correct (l_register c)))
            schedule_completed_downrupt
            event ← commit_event
            modify
                λ e. record e { sequence = e.sequence + 1; trace_sequence = e.trace_sequence + 1 }
            λ s.
                pure
                  (record { kind = instruction_step d; event = event; watched = s.watchpoint })
                  s)
            s)
  settled-Holds d n s h c =
      Holds-bind (λ a t. Anything a × Calm v n t) Well
        (set_l_register (sign_extend (overflow_correct (l_register s.cpu)))) _ s
        ((set_l_register-Safe v n _ (corrected-IsRegister (l_register s.cpu))).runs s c)
        λ _ t q.
          Holds-bind (λ a u. Anything a × Calm v n u) Well schedule_completed_downrupt _ t
            ((schedule-Safe n).runs t q.1) λ _ u r. committed-Holds d n u h r.1

  pub finish_instruction-Holds :
      (d : DecodedInstruction) (pc n : ℕ) (s : Machine)
      → n < 80
      → d.cycles ≤ 6
      → is_edrupt d.mnemonic ≡ false
      → d.operand < 2 ^ bits d.mnemonic d.extended
      → Calm v n s
      → Holds Well (finish_instruction d pc s)
  unfolding finish_instruction
  finish_instruction-Holds d pc n s h k e f c =
      Holds-bind Waited Well (wait_for_operands d.cycles) _ s
        (wait_for_operands-Holds n d.cycles s h k c)
        λ _ t (m, lo, q).
          let ready : Machine = record t {
            cpu = record t.cpu { substitute_instruction = false; indexed = none; extended = false };
          } in
          Holds-bind (λ a u. Anything a × Calm v m u) Well
            (set_z (low_bits (low_bits (pc + 1) 16) 12)) _ ready
            ((set_z-Safe v m _).runs ready (kept v m t ready refl refl refl q))
            λ _ u r.
              let named : Machine = record u {
                event = record u.event {
                  mnemonic = named d.mnemonic;
                  operand = d.operand;
                  extended = d.extended;
                };
              } in
              Holds-bind (λ a w. Anything a × Calm v m w) Well
                (execute d.mnemonic d.operand d.extended) _ named
                ((execute-Safe v m d.mnemonic d.operand d.extended e f).runs named
                  (kept v m u named refl refl refl r.1))
                λ _ w p. settled-Holds d m w lo p.1
