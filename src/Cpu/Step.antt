-- ===== src/Cpu/Step.antt =====
-- crates/agc-cpu/src/lib.rs: interrupt entry, `step`, `run`, and the operations of the debugger.
use apollo_rs.Prelude.{ℕ, zero, suc, ◌+◌, ◌-◌, Bool, true, false, ◌||◌, ◌&&◌, not}
use apollo_rs.Prelude.{Option, some, none, List, [], ◌∷◌, ltb, ◌==◌, if◌then◌else◌, Result, ok, err}
use apollo_rs.Bits.{low_bits}
use apollo_rs.Word
use apollo_rs.Word.{sign_extend}
use apollo_rs.Register.{overflow_correct, has_overflow}
use apollo_rs.Isa.Mnemonics.{Mnemonic, DecodedInstruction}
use apollo_rs.Isa.Decode.{decode}
use apollo_rs.Memory.Central
use apollo_rs.Memory.Store
use apollo_rs.Memory.Store.{
  Memory, fetch, reset_volatile, address_out_of_range, set_central_register,
}
use apollo_rs.Trace.{TraceEvent, new_event, push, interrupt_entry, interrupt_label, named, entered}
use apollo_rs.Cpu.State.{
  Cpu, Machine, Outcome, done, failed, M, pure, ◌>>=◌, ◌>>◌, get, modify, set_memory,
}
use apollo_rs.Cpu.State.{
  modify_event, push_interrupt, push_memory, lift_memory, Interrupt, number, vector,
}
use apollo_rs.Cpu.State.{
  contains, insert, remove, downrupt, CpuError, memory_error, trace_error, out_of_fuel,
}
use apollo_rs.Cpu.Registers.{
  a_register, l_register, program_counter, snapshot, set_z, with_z, set_l_register,
}
use apollo_rs.Cpu.Clock.{
  advance_to_ready_mct, clock_deferred_mct, clock_deferred_mcts, schedule_completed_downrupt,
}
use apollo_rs.Cpu.Execute.{execute}

-- The state after power-up or a restart: `new` and `reset` differ in the debugger's sets alone.
unfoldable pub restarted : Memory → List ℕ → List ℕ → Cpu
unfolding reset_volatile with_z
restarted m breakpoints watchpoints = with_z 0o4000 (record {
  memory = reset_volatile m;
  extended = false;
  indexed = none;
  substitute_instruction = false;
  interrupt_enabled = true;
  in_interrupt = false;
  pending_interrupts = downrupt ∷ [];
  cycles = 0;
  sequence = 0;
  breakpoints = breakpoints;
  watchpoints = watchpoints;
  trace = [];
  scaler_mcts = 0;
  scaler = 0;
  downlink_words = 0;
  schedule_downrupt = false;
  downrupt_due = none;
  trace_sequence = 0;
  trap_31a = false;
  trap_31b = false;
  trap_32 = false;
})

unfoldable pub new : Memory → Cpu
unfolding restarted
new m = restarted m [] []

unfoldable pub reset : Cpu → Cpu
unfolding restarted
reset c = restarted c.memory c.breakpoints c.watchpoints

unfoldable pub add_breakpoint : Cpu → ℕ → Result CpuError Cpu
add_breakpoint c address =
    if ltb 0o7777 address
    then err (memory_error (address_out_of_range address))
    else ok (record c { breakpoints = insert (λ x. x) c.breakpoints address })

unfoldable pub remove_breakpoint : Cpu → ℕ → Cpu
remove_breakpoint c address = record c { breakpoints = remove (λ x. x) c.breakpoints address }

unfoldable pub add_watchpoint : Cpu → ℕ → Result CpuError Cpu
add_watchpoint c address =
    if ltb 0o7777 address
    then err (memory_error (address_out_of_range address))
    else ok (record c { watchpoints = insert (λ x. x) c.watchpoints address })

unfoldable pub request_interrupt : Cpu → Interrupt → Cpu
request_interrupt c i = record c { pending_interrupts = insert number c.pending_interrupts i }

unfoldable pub cancel_interrupt : Cpu → Interrupt → Cpu × Bool
cancel_interrupt c i = (
  record c { pending_interrupts = remove number c.pending_interrupts i },
  contains number c.pending_interrupts i,
)

unfoldable pub take_trace : Cpu → List TraceEvent × Cpu
take_trace c = (c.trace, record c { trace = [] })

abbrev pub is_edrupt : Mnemonic → Bool
is_edrupt Mnemonic.edrupt = true
is_edrupt _ = false

-- No entry inside an interrupt, under INHINT, before an extracode, with A in overflow, or in front
-- of RELINT, INHINT and EXTEND.
unfoldable pub is_maskable : Cpu → DecodedInstruction → Bool
is_maskable c d =
    c.interrupt_enabled
    && not c.in_interrupt
    && not c.extended
    && not (has_overflow (a_register c))
    && not (d.raw == 3 || d.raw == 4 || d.raw == 6)

-- `map_or(0, Interrupt::vector)`.
abbrev pub vector_of : Option Interrupt → ℕ
vector_of none = 0
vector_of (some i) = vector i

-- `pop_first`.
abbrev pub first : List Interrupt → Option Interrupt
first [] = none
first (i ∷ is) = some i

abbrev pub rest : List Interrupt → List Interrupt
rest [] = []
rest (i ∷ is) = is

-- The entry itself: the return address and the instruction are saved, and Z takes the vector.
unfoldable pub enter_interrupt :
    DecodedInstruction → ℕ → Option Interrupt → M (Option Interrupt × ℕ)
enter_interrupt d pc i = do
  c ← get
  m ← lift_memory (set_central_register c.memory Central.zrupt (low_bits (low_bits (pc + 1) 16) 12))
  set_memory m
  m' ← lift_memory (set_central_register m Central.brupt (sign_extend d.raw))
  set_memory m'
  set_z (vector_of i)
  modify λ e. record e {
    in_interrupt = true;
    indexed = none;
    substitute_instruction = false;
    extended = false;
  }
  pure (i, vector_of i)

unfoldable pub accept_interrupt : DecodedInstruction → ℕ → M (Option (Option Interrupt × ℕ))
accept_interrupt d pc =
    let edrupt = is_edrupt d.mnemonic in
    let pop_and_enter = (do
      c ← get
      modify λ e. record e { pending_interrupts = rest e.pending_interrupts }
      entry ← enter_interrupt d pc (first c.pending_interrupts)
      pure (some entry)) in
    do
      c ← get
      if not edrupt && not (is_maskable c d) then pure none else elim c.pending_interrupts [
        | [] ↦ (if edrupt then pop_and_enter else pure none)
        | i ∷ is ↦ pop_and_enter
      ]

pub data StepKind : Type 0 where
  instruction_step : DecodedInstruction → StepKind
  interrupt_step : Option Interrupt → ℕ → StepKind

pub record StepOutcome : Type 0 where
  pub kind : StepKind
  pub event : TraceEvent
  pub watched : Option ℕ

-- `self.trace.push(event.clone())?`, with the event closed.
unfoldable pub commit_event : M TraceEvent
commit_event s =
    let closed = record s.event { cycle_end = s.cpu.cycles; after = snapshot s.cpu } in
    let t : Machine = record s { event = closed } in
    elim (push s.cpu.trace closed) [
      | ok log ↦ done closed (record t { cpu = record s.cpu { trace = log } })
      | err e ↦ failed (trace_error e) t
    ]

unfoldable pub finish_interrupt : Bool → Option Interrupt → ℕ → M StepOutcome
finish_interrupt extended i target = do
  modify_event λ e. record e {
    kind = interrupt_entry;
    mnemonic = interrupt_label;
    operand = target;
    extended = extended;
  }
  push_interrupt (entered (elim i [ none ↦ 0 | some j ↦ number j ]) target)
  clock_deferred_mct
  event ← commit_event
  modify λ c. record c { trace_sequence = c.trace_sequence + 1 }
  pure (record { kind = interrupt_step i target; event = event; watched = none })

-- The cycles before the one in which the instruction's result is ready.
unfoldable pub wait_for_operands : ℕ → M (Unit {0})
wait_for_operands cycles =
    if ltb 1 cycles then clock_deferred_mcts (cycles - 2) >> advance_to_ready_mct else pure tt

unfoldable pub finish_instruction : DecodedInstruction → ℕ → M StepOutcome
finish_instruction d pc = do
  wait_for_operands d.cycles
  modify λ c. record c { substitute_instruction = false; indexed = none; extended = false }
  set_z (low_bits (low_bits (pc + 1) 16) 12)
  modify_event
      λ e. record e { mnemonic = named d.mnemonic; operand = d.operand; extended = d.extended }
  execute d.mnemonic d.operand d.extended
  c ← get
  set_l_register (sign_extend (overflow_correct (l_register c)))
  schedule_completed_downrupt
  event ← commit_event
  modify λ e. record e { sequence = e.sequence + 1; trace_sequence = e.trace_sequence + 1 }
  λ s. pure (record { kind = instruction_step d; event = event; watched = s.watchpoint }) s

-- The body of `step`, from the fetched word on.
unfoldable pub step_fetched : ℕ → DecodedInstruction → M StepOutcome
unfolding finish_interrupt finish_instruction
step_fetched pc d = do
  c ← get
  advance_to_ready_mct
  entry ← accept_interrupt d pc
  elim entry [
    | some (i, target) ↦ finish_interrupt c.extended i target
    | none ↦ finish_instruction d pc
  ]

-- `map_or(fetched_word, |index| fetched_word.wrapping_add(*index))`.
unfoldable pub indexed_word : Option ℕ → ℕ → ℕ
indexed_word none word = word
indexed_word (some i) word = Word.wrapping_add word i

unfoldable pub fetch_address : Cpu → ℕ
fetch_address c = if c.substitute_instruction then Central.brupt else program_counter c

unfoldable pub step : Cpu → Outcome StepOutcome
unfolding step_fetched
step c =
    let pc = program_counter c in
    let blank : ℕ → Machine = λ word. record {
      cpu = c;
      event = record (new_event c.trace_sequence c.cycles pc word) { before = snapshot c };
      watchpoint = none;
    } in
    elim (Store.read c.memory (fetch_address c) fetch) [
      | err e ↦ failed (memory_error e) (blank 0)
      | ok access ↦
          let word = indexed_word c.indexed access.value in
          (push_memory access >> step_fetched pc (decode word c.extended)) (blank word)
    ]

pub data StopReason : Type 0 where
  instruction_limit : StopReason
  at_breakpoint at_watchpoint : ℕ → StopReason

pub record RunOutcome : Type 0 where
  pub reason : StopReason
  pub instructions : ℕ
  pub run_cycles : ℕ

abbrev pub stopped : StopReason → ℕ → Cpu → RunOutcome × Cpu
stopped reason start c =
    (record { reason = reason; instructions = c.sequence - start; run_cycles = c.cycles }, c)

-- The loop of `run`. An interrupt entry commits no instruction, so the fuel counts transitions. The
-- result is the outcome and the last state of the processor.
unfoldable pub run_loop : ℕ → ℕ → ℕ → Cpu → Result CpuError (RunOutcome × Cpu)
run_loop zero start limit c = err out_of_fuel
run_loop (suc fuel) start limit c =
    let pc = program_counter c in
    let next : Result CpuError (RunOutcome × Cpu) = elim (step c) [
      | failed e s ↦ err e
      | done o s ↦ elim o.watched [
        | some address ↦ ok (stopped (at_watchpoint address) start s.cpu)
        | none ↦ run_loop fuel start limit s.cpu
      ]
    ] in
    if ltb (c.sequence - start) limit
    then if contains (λ x. x) c.breakpoints pc
      then ok (stopped (at_breakpoint pc) start c)
      else next
    else ok (stopped instruction_limit start c)

unfoldable pub run : ℕ → Cpu → ℕ → Result CpuError (RunOutcome × Cpu)
unfolding run_loop
run fuel c limit = run_loop fuel c.sequence limit c
