-- ===== src/Runtime/Safe.antt =====
-- crates/agc-runtime/src/lib.rs: events and steps keep the processor well-formed.
use apollo_rs.Prelude.{
  ℕ, ◌≡◌, refl, sym, if_cases, ltb, leb, ◌==◌, ◌&&◌, ◌||◌, ◌⊎◌, inl, inr, List, [], ◌∷◌, Result, ok,
  err, result_cases, IfOk,
}
use apollo_rs.Prelude.Int.{ℤ}
use mathlib.Core.Path.{subst}
use apollo_rs.Word.{IsWord}
use apollo_rs.Word.Sum.{wrapping_add-IsWord}
use apollo_rs.Memory.Store
use apollo_rs.Memory.Store.{
  MemoryError, MemoryAccess, Memory, read_access, write_erasable_physical, write_special,
}
use apollo_rs.Memory.Invariant.{IsValid}
use apollo_rs.Memory.Keeps.{
  write-IsValid, write_special-IsValid, write_channel-IsValid, update_erasable-IsValid,
}
use apollo_rs.Cpu.State.{Cpu, CpuError, Interrupt, Outcome, done, failed}
use apollo_rs.Cpu.Step
use apollo_rs.Cpu.Step.{StepOutcome, request_interrupt}
use apollo_rs.Cpu.Clock.Timers.{from_raw_truncate-IsWord}
use apollo_rs.Cpu.Safe.{Expected, Holds}
use apollo_rs.Cpu.Safe.Commit.{IsWell}
use apollo_rs.Cpu.Safe.Transition.{step-IsWell}
use apollo_rs.Runtime.Events.{
  Runtime, RuntimeError, RuntimeEvent, ScheduledEvent, cpu_error, Ran, and_then, write_word,
  count_pulses, count_axes, summed, store_sample, sampled, apply_event, apply_due, apply_due_events,
  channel_event, interrupt_event, erasable_event, imu_pulses, radar_event, dsky_key,
}
use apollo_rs.Runtime.Machine.{capture_output, step_cpu, step}

-- The values of an event are words.
abbrev pub HasWords : RuntimeEvent → Type 0
HasWords (channel_event k w) = IsWord w
HasWords (erasable_event b o w) = IsWord w
HasWords (radar_event range rate) = IsWord range × IsWord rate
HasWords _ = Unit

abbrev pub AllHaveWords : List ScheduledEvent → Type 0
AllHaveWords [] = Unit
AllHaveWords (e ∷ es) = HasWords e.event × AllHaveWords es

-- A well-formed processor, and words in the events of the queue.
pub record IsReady (r : Runtime) : Type 0 where
  pub cpu_IsWell : IsWell r.cpu
  pub queue : AllHaveWords r.events

pub with_memory-IsWell :
    (c : Cpu) (m : Memory) → IsWell c → IsValid m → IsWell (record c { memory = m })
with_memory-IsWell c m h v = record {
  memory_IsValid = v;
  owes = h.owes;
  ordered = h.ordered;
  complete = h.complete;
  past = h.past;
}

request_interrupt-IsWell : (c : Cpu) (i : Interrupt) → IsWell c → IsWell (request_interrupt c i)
unfolding request_interrupt
request_interrupt-IsWell c i h = record {
  memory_IsValid = h.memory_IsValid;
  owes = h.owes;
  ordered = h.ordered;
  complete = h.complete;
  past = h.past;
}

pub write_erasable_physical-IsValid :
    (m : Memory) (b o w : ℕ) → IsValid m → IsWord w → IfOk IsValid (write_erasable_physical m b o w)
unfolding write_erasable_physical
write_erasable_physical-IsValid m b o w v h =
    if_cases (IfOk IsValid) (leb 8 b || leb 256 o) _ _ (λ _. tt)
      λ _.
        if_cases (IfOk IsValid) (b == 0 && leb o 0o60) _ _ (λ _. write_special-IsValid m o w v h)
          λ _. update_erasable-IsValid m _ w v h

module _ (es : List ScheduledEvent) where
  -- The processor is well-formed, and the given events wait.
  abbrev pub Kept : Runtime → Type 0
  Kept r = IsWell r.cpu × (r.events ≡ es)

  abbrev pub KeptRan : Ran → Type 0
  KeptRan m = Kept m.1

  and_then-Kept :
      (m : Ran) (f : Runtime → Ran)
      → KeptRan m
      → ((r : Runtime) → Kept r → KeptRan (f r))
      → KeptRan (and_then m f)
  and_then-Kept (ok a, r) f h k = k r h
  and_then-Kept (err e, r) f h k = h

  write_word-Kept : (k w : ℕ) (r : Runtime) → IsWord w → Kept r → KeptRan (write_word k w r)
  unfolding write_word
  write_word-Kept k w r q h =
      result_cases KeptRan (Store.write r.cpu.memory k w) _ _
        (λ a e.
          let valid = rw e at (write-IsValid r.cpu.memory k w h.0.memory_IsValid q) in
          (with_memory-IsWell r.cpu a.1 h.0 valid, h.1))
        λ _ _. h

  count_pulses-Kept : (k : ℕ) (x : ℤ) (r : Runtime) → Kept r → KeptRan (count_pulses k x r)
  unfolding count_pulses
  count_pulses-Kept k x r h =
      result_cases KeptRan (Store.read r.cpu.memory k read_access) _ _
        (λ a _. write_word-Kept k _ r (wrapping_add-IsWord a.value _) h) λ _ _. h

  count_axes-Kept : (x y z : ℤ) (r : Runtime) → Kept r → KeptRan (count_axes x y z r)
  unfolding count_axes
  count_axes-Kept x y z r h =
      and_then-Kept (count_pulses 0o32 x r)
        (λ s. and_then (count_pulses 0o33 y s) (count_pulses 0o34 z)) (count_pulses-Kept 0o32 x r h)
        λ s q.
          and_then-Kept (count_pulses 0o33 y s) (count_pulses 0o34 z) (count_pulses-Kept 0o33 y s q)
            (count_pulses-Kept 0o34 z)

  store_sample-Kept :
      (range rate : ℕ) (r : Runtime)
      → IsWord range
      → IsWord rate
      → Kept r
      → KeptRan (store_sample range rate r)
  unfolding store_sample
  store_sample-Kept range rate r p q h =
      and_then-Kept (write_word 0o46 range r) _ (write_word-Kept 0o46 range r p h) λ s g.
        and_then-Kept (write_word 0o45 rate s) _ (write_word-Kept 0o45 rate s q g)
          λ t f. (request_interrupt-IsWell t.cpu _ f.0, f.1)

  pub apply_event-Kept :
      (e : RuntimeEvent) (r : Runtime) → HasWords e → Kept r → KeptRan (apply_event e r)
  unfolding apply_event
  apply_event-Kept (channel_event k w) r q h =
      if_cases {A = Ran} KeptRan (ltb 0o777 k) _ _ (λ _. h)
        λ _. (
          with_memory-IsWell r.cpu _ h.0
              (write_channel-IsValid r.cpu.memory k w h.0.memory_IsValid q),
          h.1,
        )
  apply_event-Kept (interrupt_event i) r q h = (request_interrupt-IsWell r.cpu i h.0, h.1)
  apply_event-Kept (erasable_event b o w) r q h =
      result_cases KeptRan (write_erasable_physical r.cpu.memory b o w) _ _
        (λ m e. (
          with_memory-IsWell r.cpu m h.0
              (rw e at (write_erasable_physical-IsValid r.cpu.memory b o w h.0.memory_IsValid q)),
          h.1,
        ))
        λ _ _. h
  apply_event-Kept (imu_pulses x y z) r q h = count_axes-Kept x y z (summed x y z r) h
  apply_event-Kept (radar_event range rate) r q h =
      store_sample-Kept range rate (sampled range rate r) q.0 q.1 h
  apply_event-Kept (dsky_key c) r q h = (
    request_interrupt-IsWell _ _ (
        with_memory-IsWell r.cpu _ h.0 (
          write_channel-IsValid r.cpu.memory 0o15 _ h.0.memory_IsValid
            (from_raw_truncate-IsWord _))),
    h.1,
  )

ready : (es : List ScheduledEvent) (r : Runtime) → AllHaveWords es → Kept es r → IsReady r
ready es r q h = record { cpu_IsWell = h.0; queue = subst AllHaveWords (sym h.1) q }

-- The rest of the loop runs, or does not after an error.
and_then-IsReady :
    (es : List ScheduledEvent) (m : Ran) (f : Runtime → Ran)
    → AllHaveWords es
    → KeptRan es m
    → ((r : Runtime) → Kept es r → IsReady (f r).1)
    → IsReady (and_then m f).1
and_then-IsReady es (ok a, r) f q h k = k r h
and_then-IsReady es (err e, r) f q h k = ready es r q h

apply_due-IsReady :
    (cycle : ℕ) (es : List ScheduledEvent) (r : Runtime)
    → AllHaveWords es
    → Kept es r
    → IsReady (apply_due cycle es r).1
unfolding apply_due
apply_due-IsReady cycle [] r q h = ready [] r q h
apply_due-IsReady cycle (e ∷ es) r q h =
    if_cases {A = Ran} (λ m. IsReady m.1) (leb e.cycle cycle) _ _
      (λ _.
        and_then-IsReady es (apply_event e.event (record r { events = es })) (apply_due cycle es)
          q.1 (apply_event-Kept es e.event (record r { events = es }) q.0 (h.0, refl))
          λ s k. apply_due-IsReady cycle es s q.1 k)
      λ _. ready (e ∷ es) r q h

-- The runtime is ready again, or the processor's step met an expected error.
abbrev pub StepEnds : Result RuntimeError StepOutcome × Runtime → Type 0
StepEnds (ok o, s) = IsReady s
StepEnds (err e, s) =
    IsReady s ⊎ (x : CpuError) × (e ≡ cpu_error x) × Expected x × IsValid s.cpu.memory

step_cpu-StepEnds : (r : Runtime) → IsReady r → StepEnds (step_cpu r)
unfolding step_cpu
step_cpu-StepEnds r h = by_outcome (Step.step r.cpu) (step-IsWell r.cpu h.cpu_IsWell)
  where
    by_outcome :
        (x : Outcome StepOutcome)
        → Holds (λ o t. IsWell t.cpu) x
        → StepEnds (elim x as (λ _. Result RuntimeError StepOutcome × Runtime) [
          | failed e m ↦ (err (cpu_error e), record r { cpu = m.cpu })
          | done o m ↦ (ok o, record r { cpu = m.cpu; hardware = capture_output o r.hardware })
        ])
    by_outcome (failed e m) q = inr (e, refl, q.0, q.1)
    by_outcome (done o m) q = record { cpu_IsWell = q; queue = h.queue }

-- A step of a runtime whose processor is well-formed and whose queued events carry words leaves such a
-- runtime, whether it succeeds or an event is refused, unless the processor writes to fixed memory:
-- then the step fails with that error, and the memory is still valid.
pub step-IsReady : (r : Runtime) → IsReady r → StepEnds (step r)
unfolding step apply_due_events
step-IsReady r h =
    let due = apply_due r.cpu.cycles r.events r in
    let after : IsReady due.1 =
      apply_due-IsReady r.cpu.cycles r.events r h.queue (h.cpu_IsWell, refl) in
    result_cases {B = Result RuntimeError StepOutcome × Runtime} StepEnds due.0
      (λ _. step_cpu due.1) (λ e. (err e, due.1)) (λ _ _. step_cpu-StepEnds due.1 after)
      λ _ _. inl after
