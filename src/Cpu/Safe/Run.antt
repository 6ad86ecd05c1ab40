-- ===== src/Cpu/Safe/Run.antt =====
-- crates/agc-cpu/src/lib.rs, `new`, `reset` and `run`: well-formed from power-up on.
use apollo_rs.Prelude.{
  ℕ, zero, suc, ◌-◌, refl, arith, Option, none, some, List, [], if_cases, Result, ok, err, ltb,
}
use apollo_rs.Memory.Store.{Memory, reset_volatile, input_channels}
use apollo_rs.Memory.Invariant.{IsValid, write_central_raw-IsValid}
use apollo_rs.Cpu.State.{
  Cpu, CpuError, memory_error, trace_error, arithmetic, edrupt_executed, out_of_fuel, Outcome, done,
  failed, contains,
}
use apollo_rs.Cpu.Registers.{program_counter, with_z, with_register}
use apollo_rs.Cpu.Step.{
  StepOutcome, RunOutcome, restarted, new, reset, step, run, run_loop, stopped, at_watchpoint,
}
use apollo_rs.Cpu.Safe.{Expected, Holds}
use apollo_rs.Cpu.Safe.Commit.{IsWell}
use apollo_rs.Cpu.Safe.Transition.{step-IsWell}

-- The end of a run: a well-formed processor, an expected error, or no fuel.
abbrev pub RunEnds : Result CpuError (RunOutcome × Cpu) → Type 0
RunEnds (ok (o, c)) = IsWell c
RunEnds (err out_of_fuel) = Unit
RunEnds (err e) = Expected e

failed_run : (e : CpuError) → Expected e → RunEnds (err e)
failed_run (memory_error e) h = h
failed_run (trace_error e) h = absurd h
failed_run (arithmetic e) h = absurd h
failed_run edrupt_executed h = absurd h
failed_run out_of_fuel h = absurd h

-- What `run` does with the outcome of a step.
abbrev resumes :
    (Cpu → Result CpuError (RunOutcome × Cpu))
    → ℕ
    → Outcome StepOutcome
    → Result CpuError (RunOutcome × Cpu)
resumes again start r = elim r [
  | failed e s ↦ err e
  | done o s ↦ elim o.watched [
    | some address ↦ ok (stopped (at_watchpoint address) start s.cpu)
    | none ↦ again s.cpu
  ]
]

resumes-IsWell :
    (again : Cpu → Result CpuError (RunOutcome × Cpu)) (start : ℕ) (r : Outcome StepOutcome)
    → ((c : Cpu) → IsWell c → RunEnds (again c))
    → Holds (λ o t. IsWell t.cpu) r
    → RunEnds (resumes again start r)
resumes-IsWell again start (failed e s) h q = failed_run e q.0
resumes-IsWell again start (done o s) h q = by_watch o.watched
  where
    by_watch :
        (w : Option ℕ)
        → RunEnds (elim w [
          | some address ↦ ok (stopped (at_watchpoint address) start s.cpu)
          | none ↦ again s.cpu
        ])
    by_watch (some address) = q
    by_watch none = h s.cpu q

run_loop-IsWell :
    (fuel start limit : ℕ) (c : Cpu) → IsWell c → RunEnds (run_loop fuel start limit c)
unfolding run_loop
run_loop-IsWell zero start limit c h = tt
run_loop-IsWell (suc fuel) start limit c h =
    if_cases RunEnds (ltb (c.sequence - start) limit) _ _
      (λ _.
        if_cases RunEnds (contains (λ x. x) c.breakpoints (program_counter c)) _ _ (λ _. h)
          λ _.
            resumes-IsWell (run_loop fuel start limit) start (step c)
              (run_loop-IsWell fuel start limit) (step-IsWell c h))
      λ _. h

reset_volatile-IsValid : (m : Memory) → IsValid m → IsValid (reset_volatile m)
unfolding reset_volatile input_channels
reset_volatile-IsValid m h = record {
  accumulators = λ i. omega arith;
  edits = λ i lo. omega arith;
  program_counter = omega arith;
  hard_zero = refl;
  banks = record { eb_field = omega arith; fb_field = omega arith; combined = omega arith };
  erasable_IsWord = λ i. omega arith;
  fixed_IsWord = h.fixed_IsWord;
  channels_IsWord = λ i. ground arith;
}

restarted-IsWell :
    (m : Memory) (breakpoints watchpoints : List ℕ)
    → IsValid m
    → IsWell (restarted m breakpoints watchpoints)
unfolding restarted with_z with_register
restarted-IsWell m breakpoints watchpoints h = record {
  memory_IsValid =
      write_central_raw-IsValid (reset_volatile m) 5 _ (reset_volatile-IsValid m h) (omega arith);
  owes = omega arith;
  ordered = tt;
  complete = refl;
  past = omega arith;
}

-- A processor after power-up is well-formed.
pub new-IsWell : (m : Memory) → IsValid m → IsWell (new m)
unfolding new
new-IsWell m h = restarted-IsWell m [] [] h

-- From power-up, or from a restart, with a valid memory, a run ends in a well-formed processor, or in a
-- write to fixed memory, or without fuel.
pub run_from_start :
    (fuel limit : ℕ) (m : Memory) (c : Cpu)
    → IsValid m
    → IsValid c.memory
    → RunEnds (run fuel (new m) limit) × RunEnds (run fuel (reset c) limit)
unfolding run new reset
run_from_start fuel limit m c h k = (
  run_loop-IsWell fuel _ limit _ (restarted-IsWell m [] [] h),
  run_loop-IsWell fuel _ limit _ (restarted-IsWell c.memory c.breakpoints c.watchpoints k),
)
