-- ===== src/Faults/Engine.antt =====
-- crates/agc-faults/src/lib.rs, `FaultEngine`: the faults that are due, stuck channels, `step` and `run`.
use apollo_rs.Prelude.{
  ℕ, zero, suc, ◌-◌, List, [], ◌∷◌, Result, ok, err, ltb, leb, ◌==◌, if◌then◌else◌,
}
use apollo_rs.Memory.Store
use apollo_rs.Memory.Store.{
  MemoryError, read_access, read_erasable_physical, write_erasable_physical, inject_fixed_bit_flip,
  central_register, set_central_register,
}
use apollo_rs.Cpu.State.{out_of_fuel}
use apollo_rs.Cpu.Step.{StepOutcome}
use apollo_rs.Runtime.Events.{Runtime, with_memory, cpu_error}
use apollo_rs.Runtime.Machine as Machine
use apollo_rs.Faults.Effects.{
  ScheduledFault, FaultError, runtime_error, channel_fault, ActiveChannelFault, FaultEngine, apply,
}

-- The result of a method, with the state that it leaves.
abbrev pub Ran : Type 0 → Type 0
Ran A = Result FaultError A × FaultEngine × Runtime

-- The loop of `apply_due` over the faults that are due, which are in front.
unfoldable pub apply_each : ℕ → List ScheduledFault → FaultEngine → Runtime → Ran (Unit {0})
unfolding apply
apply_each now [] e r = (ok tt, e, r)
apply_each now (f ∷ fs) e r =
    if leb f.instruction now
    then elim (apply f.fault (record e { scheduled = fs }) r) [
      | ok (g, s) ↦ apply_each now fs g s
      | err x ↦ (err x, record e { scheduled = fs }, r)
    ]
    else (ok tt, e, r)

unfoldable pub apply_due : FaultEngine → Runtime → Ran (Unit {0})
unfolding apply_each
apply_due e r = apply_each r.cpu.sequence e.scheduled e r

-- The loop of `enforce_channels`.
unfoldable pub enforce : List ActiveChannelFault → Runtime → Result FaultError (Unit {0}) × Runtime
enforce [] r = (ok tt, r)
enforce (f ∷ fs) r =
    if ltb 0o777 f.channel
    then (err (channel_fault f.channel), r)
    else enforce fs (with_memory r (Store.write_channel r.cpu.memory f.channel f.value))

-- `retain_mut`, with one boundary less for each channel.
unfoldable pub retain_active : List ActiveChannelFault → List ActiveChannelFault
retain_active [] = []
retain_active (f ∷ fs) =
    let rest = retain_active fs in
    if f.remaining - 1 == 0 then rest else record f { remaining = f.remaining - 1 } ∷ rest

-- The step of the machine, after the faults.
unfoldable pub step_runtime : FaultEngine → Runtime → Ran StepOutcome
unfolding retain_active
step_runtime e r =
    let (stepped, s) = Machine.step r in
    elim stepped [
      | ok outcome ↦ (ok outcome, record e { active_channels = retain_active e.active_channels }, s)
      | err x ↦ (err (runtime_error x), e, s)
    ]

-- Stuck channels are forced, and the machine steps.
unfoldable pub step_forced : FaultEngine → Runtime → Ran StepOutcome
unfolding enforce step_runtime
step_forced e r =
    let (forced, s) = enforce e.active_channels r in
    elim forced [ ok done ↦ step_runtime e s | err x ↦ (err x, e, s) ]

unfoldable pub step : FaultEngine → Runtime → Ran StepOutcome
unfolding apply_due step_forced
step e r =
    let (applied, f, s) = apply_due e r in
    elim applied [ ok done ↦ step_forced f s | err x ↦ (err x, f, s) ]

-- The loop of `run`; the fuel counts transitions.
unfoldable pub run_loop : ℕ → ℕ → ℕ → FaultEngine → Runtime → Ran (Unit {0})
unfolding step
run_loop zero start limit e r = (err (runtime_error (cpu_error out_of_fuel)), e, r)
run_loop (suc fuel) start limit e r =
    let next : Ran (Unit {0}) =
      (let (stepped, f, s) = step e r in
        elim stepped [ ok outcome ↦ run_loop fuel start limit f s | err x ↦ (err x, f, s) ]) in
    if ltb (r.cpu.sequence - start) limit then next else (ok tt, e, r)

unfoldable pub run : ℕ → FaultEngine → Runtime → ℕ → Ran (Unit {0})
unfolding run_loop
run fuel e r instructions = run_loop fuel r.cpu.sequence instructions e r
