-- ===== src/Runtime/Downlink.antt =====
-- crates/agc-runtime/src/lib.rs, `capture_output`: what becomes of the downlink words.
use apollo_rs.Prelude.{
  ℕ, zero, suc, ◌-◌, ◌≡◌, refl, if_cases, ltb, leb, result_cases, ◌==◌, none, List, [], ◌∷◌, Result,
  ok, err,
}
use apollo_rs.Prelude.Int.{ℤ}
use apollo_rs.Trace.{IoEvent}
use apollo_rs.Memory.Store
use apollo_rs.Memory.Store.{MemoryError, MemoryAccess, Memory, read_access, write_erasable_physical}
use apollo_rs.Cpu.State.{Outcome, done, failed}
use apollo_rs.Cpu.Step
use apollo_rs.Cpu.Step.{StepOutcome, RunOutcome}
use apollo_rs.Runtime.Events.{
  HardwareState, DownlinkFrame, Runtime, RuntimeError, RuntimeEvent, ScheduledEvent, Ran, and_then,
  write_word, count_pulses, count_axes, summed, store_sample, sampled, apply_event, apply_due,
  apply_due_events, cpu_error, channel_event, interrupt_event, erasable_event, imu_pulses,
  radar_event, dsky_key,
}
use apollo_rs.Runtime.Machine.{
  note_word, take_frame, capture, capture_output, step_cpu, step, run, run_loop,
}

-- The given frames are recorded, and no word is pending.
pub record Quiet (frames : List DownlinkFrame) (h : HardwareState) : Type 0 where
  pub frames_are : h.downlink ≡ frames
  pub no_word1 : h.pending_downlink_1 ≡ none
  pub no_word2 : h.pending_downlink_2 ≡ none

module _ (frames : List DownlinkFrame) where
  -- A frame wants both words, and a channel write brings one.
  note_then_take :
      (cycle : ℕ) (io : IoEvent) (h : HardwareState)
      → Quiet frames h
      → Quiet frames (take_frame cycle (note_word h io))
  unfolding take_frame note_word
  note_then_take cycle io h q =
      if_cases (λ t. Quiet frames (take_frame cycle t)) (io.channel == 0o34) _ _
        (λ _.
          rw q.no_word2 (record { frames_are = q.frames_are; no_word1 = refl; no_word2 = refl }))
        λ _.
          if_cases (λ t. Quiet frames (take_frame cycle t)) (io.channel == 0o35) _ _
            (λ _.
              rw q.no_word1
                (record { frames_are = q.frames_are; no_word1 = refl; no_word2 = refl }))
            (λ _.
              rw q.no_word1
                (record { frames_are = q.frames_are; no_word1 = refl; no_word2 = refl }))

  capture-Quiet :
      (cycle : ℕ) (ios : List IoEvent) (h : HardwareState)
      → Quiet frames h
      → Quiet frames (capture cycle ios h)
  unfolding capture
  capture-Quiet cycle [] h q = q
  capture-Quiet cycle (io ∷ ios) h q =
      if_cases (λ t. Quiet frames (capture cycle ios t)) io.write _ _
        (λ _. capture-Quiet cycle ios _ (note_then_take cycle io h q))
        λ _. capture-Quiet cycle ios h q

  abbrev QuietRan : Ran → Type 0
  QuietRan r = Quiet frames r.1.hardware

  and_then-Quiet :
      (m : Ran) (f : Runtime → Ran)
      → QuietRan m
      → ((r : Runtime) → Quiet frames r.hardware → QuietRan (f r))
      → QuietRan (and_then m f)
  and_then-Quiet (ok a, r) f h k = k r h
  and_then-Quiet (err e, r) f h k = h

  write_word-Quiet :
      (address w : ℕ) (r : Runtime) → Quiet frames r.hardware → QuietRan (write_word address w r)
  unfolding write_word
  write_word-Quiet address w r h =
      result_cases QuietRan (Store.write r.cpu.memory address w) _ _ (λ _ _. h) λ _ _. h

  count_pulses-Quiet :
      (address : ℕ) (n : ℤ) (r : Runtime)
      → Quiet frames r.hardware
      → QuietRan (count_pulses address n r)
  unfolding count_pulses
  count_pulses-Quiet address n r h =
      result_cases QuietRan (Store.read r.cpu.memory address read_access) _ _
        (λ a _. write_word-Quiet address _ r h) λ _ _. h

  count_axes-Quiet :
      (x y z : ℤ) (r : Runtime) → Quiet frames r.hardware → QuietRan (count_axes x y z r)
  unfolding count_axes
  count_axes-Quiet x y z r h =
      and_then-Quiet (count_pulses 0o32 x r)
        (λ s. and_then (count_pulses 0o33 y s) (count_pulses 0o34 z))
        (count_pulses-Quiet 0o32 x r h)
        λ s q.
          and_then-Quiet (count_pulses 0o33 y s) (count_pulses 0o34 z)
            (count_pulses-Quiet 0o33 y s q) (count_pulses-Quiet 0o34 z)

  store_sample-Quiet :
      (range rate : ℕ) (r : Runtime)
      → Quiet frames r.hardware
      → QuietRan (store_sample range rate r)
  unfolding store_sample
  store_sample-Quiet range rate r h =
      and_then-Quiet (write_word 0o46 range r) _ (write_word-Quiet 0o46 range r h)
        λ s q. and_then-Quiet (write_word 0o45 rate s) _ (write_word-Quiet 0o45 rate s q) λ t p. p

  apply_event-Quiet :
      (e : RuntimeEvent) (r : Runtime) → Quiet frames r.hardware → QuietRan (apply_event e r)
  unfolding apply_event
  apply_event-Quiet (channel_event k w) r h =
      if_cases {A = Ran} QuietRan (ltb 0o777 k) _ _ (λ _. h) λ _. h
  apply_event-Quiet (interrupt_event i) r h = h
  apply_event-Quiet (erasable_event b o w) r h =
      result_cases QuietRan (write_erasable_physical r.cpu.memory b o w) _ _ (λ _ _. h) λ _ _. h
  apply_event-Quiet (imu_pulses x y z) r h =
      count_axes-Quiet x y z (summed x y z r)
        (record { frames_are = h.frames_are; no_word1 = h.no_word1; no_word2 = h.no_word2 })
  apply_event-Quiet (radar_event range rate) r h =
      store_sample-Quiet range rate (sampled range rate r)
        (record { frames_are = h.frames_are; no_word1 = h.no_word1; no_word2 = h.no_word2 })
  apply_event-Quiet (dsky_key c) r h = h

  apply_due-Quiet :
      (cycle : ℕ) (es : List ScheduledEvent) (r : Runtime)
      → Quiet frames r.hardware
      → QuietRan (apply_due cycle es r)
  unfolding apply_due
  apply_due-Quiet cycle [] r h = h
  apply_due-Quiet cycle (e ∷ es) r h =
      if_cases {A = Ran} QuietRan (leb e.cycle cycle) _ _
        (λ _.
          and_then-Quiet _ _ (apply_event-Quiet e.event (record r { events = es }) h)
            (apply_due-Quiet cycle es))
        λ _. h

  step_cpu-Quiet : (r : Runtime) → Quiet frames r.hardware → Quiet frames (step_cpu r).1.hardware
  unfolding step_cpu capture_output
  step_cpu-Quiet r h = by_outcome (Step.step r.cpu)
    where
      by_outcome :
          (x : Outcome StepOutcome)
          → Quiet frames
              (elim x as (λ _. Result RuntimeError StepOutcome × Runtime) [
                | failed e m ↦ (err (cpu_error e), record r { cpu = m.cpu })
                | done o m ↦
                    (ok o, record r { cpu = m.cpu; hardware = capture_output o r.hardware })
              ]).1.hardware
      by_outcome (failed e m) = h
      by_outcome (done o m) = capture-Quiet o.event.cycle_end o.event.io r.hardware h

  step-Quiet : (r : Runtime) → Quiet frames r.hardware → Quiet frames (step r).1.hardware
  unfolding step apply_due_events
  step-Quiet r h =
      let (applied, s) = apply_due_events r in
      result_cases {B = Result RuntimeError StepOutcome × Runtime} (λ m. Quiet frames m.1.hardware)
        (apply_due_events r).0 (λ _. step_cpu (apply_due_events r).1)
        (λ e. (err e, (apply_due_events r).1))
        (λ _ _. step_cpu-Quiet (apply_due_events r).1 (apply_due-Quiet r.cpu.cycles r.events r h))
        λ _ _. apply_due-Quiet r.cpu.cycles r.events r h

  run_loop-Quiet :
      (fuel start limit : ℕ) (r : Runtime)
      → Quiet frames r.hardware
      → Quiet frames (run_loop fuel start limit r).1.hardware
  unfolding run_loop
  run_loop-Quiet zero start limit r h = h
  run_loop-Quiet (suc fuel) start limit r h =
      if_cases {A = Result RuntimeError RunOutcome × Runtime} (λ m. Quiet frames m.1.hardware)
        (ltb (r.cpu.sequence - start) limit) _ _
        (λ _.
          result_cases {B = Result RuntimeError RunOutcome × Runtime}
            (λ m. Quiet frames m.1.hardware) (step r).0 (λ _. run_loop fuel start limit (step r).1)
            (λ e. (err e, (step r).1))
            (λ _ _. run_loop-Quiet fuel start limit (step r).1 (step-Quiet r h))
            λ _ _. step-Quiet r h)
        λ _. h

-- Whatever is executed, no downlink frame is ever recorded from a fresh runtime.
pub run-no_downlink :
    (fuel limit : ℕ) (r : Runtime)
    → r.hardware.pending_downlink_1 ≡ none
    → r.hardware.pending_downlink_2 ≡ none
    → (run fuel r limit).1.hardware.downlink ≡ r.hardware.downlink
unfolding run
run-no_downlink fuel limit r e f =
    (run_loop-Quiet r.hardware.downlink fuel r.cpu.sequence limit r
      (record { frames_are = refl; no_word1 = e; no_word2 = f })).frames_are
