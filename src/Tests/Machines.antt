-- ===== src/Tests/Machines.antt =====
-- The processor at concrete states.
use apollo_rs.Prelude.{ℕ, ◌≤◌, ◌≡◌, refl, arith, false, [], ◌∷◌, Option, some, none}
use apollo_rs.Prelude.{ok}
use apollo_rs.Isa.Mnemonics.{DecodedInstruction, ca}
use apollo_rs.Word.{to_i32_lossy_zero}
use apollo_rs.Double
use apollo_rs.Memory.Invariant.{IsValid, write_central_raw-IsValid}
use apollo_rs.Memory.Total.{blank-IsValid}
use apollo_rs.Memory.Bounds.{place}
use apollo_rs.Cpu.Product.{in_registers, times, multiply-value}
use apollo_rs.Memory.Store.{
  read_physical, write_central_raw, reset_volatile, blank, set_central_register, read_special,
}
use apollo_rs.Trace.{new_event}
use apollo_rs.Cpu.State.{
  Outcome, failed, Machine, done, Interrupt, number, key1, downrupt, insert, contains, vector,
}
use apollo_rs.Register.{has_overflow}
use apollo_rs.Cpu.Registers.{a_word, a_register, with_z, with_register, set_z, program_counter}
use apollo_rs.Cpu.Operations.{multiply, resume}
use apollo_rs.Prelude.{◌<◌}
use apollo_rs.Cpu.Clock.{advance_to_ready_mct}
use apollo_rs.Cpu.Clock.Total.{advance_to_ready_mct_total}
use apollo_rs.Cpu.Step.{
  is_maskable, restarted, new, request_interrupt, accept_interrupt, enter_interrupt, fetch_address,
}
use apollo_rs.Cpu.Interrupts.{Entered, enter_interrupt_total, resume-enter_interrupt}
use apollo_rs.Cpu.Safe.{Holds}
use apollo_rs.Cpu.Safe.Commit.{IsWell}
use apollo_rs.Cpu.Safe.Transition.{step-IsWell}
use apollo_rs.Cpu.Safe.Run.{RunEnds, new-IsWell, run_from_start}
use apollo_rs.Cpu.Step.{step, run, reset}
use apollo_rs.Cpu.Accept.{Accepted, accept_interrupt_total, accept_interrupt-least}

-- A processor after power-up with a key pending, about to execute CA 100 at 04000.
abbrev ready : Machine
ready = record {
  cpu = request_interrupt (new blank) key1;
  event = new_event 0 0 0o4000 0o30144;
  watchpoint = none;
}

abbrev load : DecodedInstruction
load = record { mnemonic = ca; operand = 100; raw = 0o30144; extended = false; cycles = 2 }

enter_interrupt_total_example :
    (t : Machine) × (enter_interrupt load 0o4000 (some key1) ready ≡ done (some key1, 0o4024) t)
    × Entered load 0o4000 (some key1) t
    × (t.cpu.pending_interrupts ≡ ready.cpu.pending_interrupts)
unfolding vector
enter_interrupt_total_example = enter_interrupt_total load 0o4000 (some key1) ready (omega arith)

abbrev inside : Machine
inside = (enter_interrupt_total load 0o4000 (some key1) ready (omega arith)).0

resume-enter_interrupt_example :
    (v : Machine) × (resume inside ≡ done tt v)
    × (program_counter v.cpu ≡ 0o4000)
    × (v.cpu.in_interrupt ≡ false)
    × (fetch_address v.cpu ≡ 15)
    × (read_special v.cpu.memory 15 ≡ 0o30144)
resume-enter_interrupt_example =
    resume-enter_interrupt load 0o4000 (some key1) inside inside (omega arith) (omega arith)
      ((enter_interrupt_total load 0o4000 (some key1) ready (omega arith)).2) refl refl

accept_interrupt_total_example :
    (r : Option (Option Interrupt × ℕ)) × (t : Machine) × (accept_interrupt load 0o4000 ready
      ≡ done r t)
    × Accepted load 0o4000 ready r t
accept_interrupt_total_example = accept_interrupt_total load 0o4000 ready (omega arith)

abbrev state_of : {A : Type 0} → Outcome A → Machine
state_of (done a t) = t
state_of (failed e t) = t

-- The key taken out of the pending requests and served.
abbrev served : Machine
served = record ready { cpu = record ready.cpu { pending_interrupts = downrupt ∷ [] } }

abbrev serving : Machine
serving = state_of (enter_interrupt load 0o4000 (some key1) served)

accept_interrupt-least_example : number key1 ≤ number downrupt
unfolding accept_interrupt is_maskable insert new restarted request_interrupt with_z with_register
    write_central_raw reset_volatile blank has_overflow enter_interrupt set_central_register set_z
    vector a_register contains
accept_interrupt-least_example =
    accept_interrupt-least load 0o4000 0o4024 ready serving key1 downrupt (omega arith)
      (omega arith, (omega arith, tt)) refl refl

-- 3 in A, to be multiplied by the word at 0100.
abbrev factors : Machine
factors = record ready { cpu = with_register 0 3 ready.cpu }

factors-IsValid : IsValid factors.cpu.memory
unfolding request_interrupt new restarted with_z with_register reset_volatile blank
factors-IsValid =
    write_central_raw-IsValid (write_central_raw (reset_volatile blank) 5 0o4000) 0 3
      (write_central_raw-IsValid (reset_volatile blank) 5 0o4000 blank-IsValid (omega arith))
      (omega arith)

multiply-value_example :
    (w : ℕ) × (t : Machine) × (read_physical factors.cpu.memory (place factors.cpu.memory 0o100)
      ≡ ok w)
    × (multiply 0o100 factors ≡ done tt t)
    × (Double.to_i64_lossy_zero (in_registers t.cpu)
        ≡ times (to_i32_lossy_zero (a_word factors.cpu)) (to_i32_lossy_zero w))
multiply-value_example = multiply-value factors 0o100 factors-IsValid (omega arith)

-- Two cycles before a tick.
abbrev owing : Machine
owing = record ready { cpu = record ready.cpu { scaler_mcts = 78 } }

owing-IsValid : IsValid owing.cpu.memory
unfolding request_interrupt new restarted with_z with_register reset_volatile blank
owing-IsValid =
    write_central_raw-IsValid (reset_volatile blank) 5 0o4000 blank-IsValid (omega arith)

advance_to_ready_mct_total_example :
    (t : Machine) × (advance_to_ready_mct owing ≡ done tt t)
    × IsValid t.cpu.memory
    × (t.cpu.scaler_mcts < 80)
advance_to_ready_mct_total_example = advance_to_ready_mct_total owing owing-IsValid (omega arith)

step-IsWell_example : Holds (λ o t. IsWell t.cpu) (step (new blank))
step-IsWell_example = step-IsWell (new blank) (new-IsWell blank blank-IsValid)

run_from_start_example : RunEnds (run 9 (new blank) 4) × RunEnds (run 9 (reset (new blank)) 4)
run_from_start_example =
    run_from_start 9 4 blank (new blank) blank-IsValid
      (new-IsWell blank blank-IsValid).memory_IsValid
