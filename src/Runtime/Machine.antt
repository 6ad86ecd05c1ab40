-- ===== src/Runtime/Machine.antt =====
-- crates/agc-runtime/src/lib.rs, `step`, `run` and `capture_output`.
use apollo_rs.Prelude.{
  ℕ, zero, suc, ◌-◌, ltb, ◌==◌, if◌then◌else◌, none, some, List, [], ◌∷◌, ◌++◌, Result, ok, err,
}
use apollo_rs.Trace.{IoEvent}
use apollo_rs.Cpu.State.{done, failed, out_of_fuel}
use apollo_rs.Cpu.Step
use apollo_rs.Cpu.Step.{StepOutcome, RunOutcome, instruction_limit}
use apollo_rs.Runtime.Events.{HardwareState, Runtime, RuntimeError, cpu_error, apply_due_events}

-- The `match` on the channel.
unfoldable pub note_word : HardwareState → IoEvent → HardwareState
note_word h io =
    if io.channel == 0o34
    then record h { pending_downlink_1 = some io.value }
    else if io.channel == 0o35
    then record h { pending_downlink_2 = some io.value }
    else h

-- Both pending words are taken, and make a frame if both are there.
unfoldable pub take_frame : ℕ → HardwareState → HardwareState
take_frame cycle h =
    let taken = record h { pending_downlink_1 = none; pending_downlink_2 = none } in
    elim h.pending_downlink_1 [
      | none ↦ taken
      | some word1 ↦ elim h.pending_downlink_2 [
        | none ↦ taken
        | some word2 ↦ record taken {
          downlink = h.downlink ++ record { cycle = cycle; word1 = word1; word2 = word2 } ∷ [];
        }
      ]
    ]

unfoldable pub capture : ℕ → List IoEvent → HardwareState → HardwareState
unfolding note_word take_frame
capture cycle [] h = h
capture cycle (io ∷ ios) h =
    let t = if io.write then take_frame cycle (note_word h io) else h in capture cycle ios t

unfoldable pub capture_output : StepOutcome → HardwareState → HardwareState
unfolding capture
capture_output o h = capture o.event.cycle_end o.event.io h

-- `step` after the events: the processor's step and the capture of its output.
unfoldable pub step_cpu : Runtime → Result RuntimeError StepOutcome × Runtime
unfolding capture_output
step_cpu s = elim (Step.step s.cpu) [
  | failed e m ↦ (err (cpu_error e), record s { cpu = m.cpu })
  | done o m ↦ (ok o, record s { cpu = m.cpu; hardware = capture_output o s.hardware })
]

-- The result of a step, with the state that it leaves.
unfoldable pub step : Runtime → Result RuntimeError StepOutcome × Runtime
unfolding step_cpu
step r =
    let (applied, s) = apply_due_events r in elim applied [ err e ↦ (err e, s) | ok a ↦ step_cpu s ]

-- The loop of `run`; the fuel counts transitions.
unfoldable pub run_loop : ℕ → ℕ → ℕ → Runtime → Result RuntimeError RunOutcome × Runtime
unfolding step
run_loop zero start limit r = (err (cpu_error out_of_fuel), r)
run_loop (suc fuel) start limit r =
    let next : Result RuntimeError RunOutcome × Runtime =
      (let (stepped, s) = step r in
        elim stepped [ err e ↦ (err e, s) | ok o ↦ run_loop fuel start limit s ]) in
    if ltb (r.cpu.sequence - start) limit then next else (
      ok (record {
        reason = instruction_limit;
        instructions = r.cpu.sequence - start;
        run_cycles = r.cpu.cycles;
      }),
      r,
    )

unfoldable pub run : ℕ → Runtime → ℕ → Result RuntimeError RunOutcome × Runtime
unfolding run_loop
run fuel r limit = run_loop fuel r.cpu.sequence limit r
