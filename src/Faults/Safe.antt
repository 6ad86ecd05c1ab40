-- ===== src/Faults/Safe.antt =====
-- crates/agc-faults/src/lib.rs, `step`: a campaign of faults keeps the machine well-formed.
use apollo_rs.Prelude.{
  ℕ, ◌≡◌, ltb, leb, ◌-◌, ◌==◌, if_cases, List, [], ◌∷◌, Result, ok, err, result_cases, IfOk,
  IfOk-bind, ◌⊎◌, inl, inr, All, ap,
}
use apollo_rs.Word.{IsWord}
use apollo_rs.Memory.Store
use apollo_rs.Memory.Invariant.{IsValid}
use apollo_rs.Memory.Keeps.{write_channel-IsValid}
use apollo_rs.Cpu.State.{CpuError}
use apollo_rs.Cpu.Step.{StepOutcome}
use apollo_rs.Cpu.Safe.{Expected}
use apollo_rs.Runtime.Events.{Runtime, RuntimeError, cpu_error, with_memory}
use apollo_rs.Runtime.Machine as Machine
use apollo_rs.Runtime.Safe.{IsReady, StepEnds, step-IsReady}
use apollo_rs.Faults.Effects.{
  Fault, ScheduledFault, FaultError, runtime_error, ActiveChannelFault, FaultEngine, take_effect,
  apply,
}
use apollo_rs.Faults.Engine.{
  Ran, apply_each, apply_due, enforce, retain_active, step_runtime, step_forced, step,
}
use apollo_rs.Faults.Keeps.{IsFit, IsArmed, Armed, take_effect-Taken, ready_with}

apply-Armed :
    (f : Fault) (e : FaultEngine) (r : Runtime)
    → IsFit f
    → Armed e r
    → IfOk (λ x. Armed x.0 x.1) (apply f e r)
unfolding apply
apply-Armed f e r q h =
    IfOk-bind (λ x. Armed x.1 x.2) (λ x. Armed x.0 x.1) (take_effect f e r) _
      (take_effect-Taken f e r q h.0 h.1)
      λ x k. (record { faults = k.0.faults; stuck = k.0.stuck }, k.1)

abbrev RanArmed {ℓ} : {A : Type ℓ} → Result FaultError A × FaultEngine × Runtime → Type 0
RanArmed m = Armed m.1 m.2

apply_each-Armed :
    (now : ℕ) (fs : List ScheduledFault) (e : FaultEngine) (r : Runtime)
    → All (λ f. IsFit f.fault) fs
    → Armed e r
    → RanArmed (apply_each now fs e r)
unfolding apply_each
apply_each-Armed now [] e r q h = h
apply_each-Armed now (f ∷ fs) e r q h =
    let rest = record e { scheduled = fs } in
    let armed : IsArmed rest = record { faults = q.1; stuck = h.0.stuck } in
    if_cases {A = Ran (Unit {0})} RanArmed (leb f.instruction now) _ _
      (λ _.
        result_cases {B = Ran (Unit {0})} RanArmed (apply f.fault rest r) _ _
          (λ x k.
            apply_each-Armed now fs x.0 x.1 q.1
              (rw k at (apply-Armed f.fault rest r q.0 (armed, h.1))))
          λ _ _. (armed, h.1))
      λ _. h

enforce-IsReady :
    (fs : List ActiveChannelFault) (r : Runtime)
    → All (λ f. IsWord f.value) fs
    → IsReady r
    → IsReady (enforce fs r).1
unfolding enforce
enforce-IsReady [] r q h = h
enforce-IsReady (f ∷ fs) r q h =
    let m = Store.write_channel r.cpu.memory f.channel f.value in
    if_cases {A = Result FaultError (Unit {0}) × Runtime} (λ m. IsReady m.1) (ltb 0o777 f.channel) _
      _ (λ _. h)
      λ _. enforce-IsReady fs (with_memory r m) q.1 (
        ready_with r m h
          (write_channel-IsValid r.cpu.memory f.channel f.value h.cpu_IsWell.memory_IsValid q.0))

retain_active-words :
    (fs : List ActiveChannelFault)
    → All (λ f. IsWord f.value) fs
    → All (λ f. IsWord f.value) (retain_active fs)
unfolding retain_active
retain_active-words [] q = tt
retain_active-words (f ∷ fs) q =
    if_cases (All (λ f. IsWord f.value)) (f.remaining - 1 == 0) _ _
      (λ _. retain_active-words fs q.1) λ _. (q.0, retain_active-words fs q.1)

-- The campaign goes on, or the step of the processor met an expected error.
abbrev pub CampaignEnds : Ran StepOutcome → Type 0
CampaignEnds (ok o, e, r) = Armed e r
CampaignEnds (err x, e, r) =
    Armed e r
    ⊎ (y : CpuError) × (x ≡ runtime_error (cpu_error y)) × Expected y × IsValid r.cpu.memory

step_runtime-CampaignEnds :
    (e : FaultEngine) (r : Runtime) → Armed e r → CampaignEnds (step_runtime e r)
unfolding step_runtime
step_runtime-CampaignEnds e r h = by_step (Machine.step r) (step-IsReady r h.1)
  where
    by_step :
        (x : Result RuntimeError StepOutcome × Runtime)
        → StepEnds x
        → CampaignEnds (elim (x.0) as (λ _. Ran StepOutcome) [
          | ok outcome ↦
              (ok outcome, record e { active_channels = retain_active e.active_channels }, x.1)
          | err y ↦ (err (runtime_error y), e, x.1)
        ])
    by_step (ok o, s) q =
        (record { faults = h.0.faults; stuck = retain_active-words e.active_channels h.0.stuck }, q)
    by_step (err y, s) (inl q) = inl (h.0, q)
    by_step (err y, s) (inr (x, same, expected, valid)) =
        inr (x, ap runtime_error same, expected, valid)

step_forced-CampaignEnds :
    (e : FaultEngine) (r : Runtime) → Armed e r → CampaignEnds (step_forced e r)
unfolding step_forced
step_forced-CampaignEnds e r h =
    let s = (enforce e.active_channels r).1 in
    let forced : IsReady s = enforce-IsReady e.active_channels r h.0.stuck h.1 in
    result_cases {B = Ran StepOutcome} CampaignEnds (enforce e.active_channels r).0
      (λ _. step_runtime e s) (λ x. (err x, e, s))
      (λ _ _. step_runtime-CampaignEnds e s (h.0, forced)) λ _ _. inl (h.0, forced)

-- A step of a campaign whose faults are fit, around a machine that is well-formed, leaves such a
-- campaign and such a machine, whether it succeeds, a fault fails or an event is refused, unless
-- the processor writes to fixed memory: then the step fails with that error, and the memory is
-- still valid.
pub step-CampaignEnds :
    (e : FaultEngine) (r : Runtime) → IsArmed e → IsReady r → CampaignEnds (step e r)
unfolding step apply_due
step-CampaignEnds e r h k =
    let due = apply_each r.cpu.sequence e.scheduled e r in
    let after : Armed due.1 due.2 =
      apply_each-Armed r.cpu.sequence e.scheduled e r h.faults (h, k) in
    result_cases {B = Ran StepOutcome} CampaignEnds due.0 (λ _. step_forced due.1 due.2)
      (λ x. (err x, due.1, due.2)) (λ _ _. step_forced-CampaignEnds due.1 due.2 after)
      λ _ _. inl after
