-- ===== src/Runtime/Observer.antt =====
-- crates/agc-runtime/src/lib.rs, `FlightSoftwareObserver`: the jobs and tasks read from memory.
use apollo_rs.Prelude.{
  ℕ, ◌≤◌, ◌≡◌, refl, arith, if◌then◌else◌, List, [], ◌∷◌, length, Result, ok, bind_ok, map_err,
}
use apollo_rs.Bits.{low_bits}
use apollo_rs.Word.{is_zero}
use apollo_rs.Memory.Store
use apollo_rs.Memory.Store.{Memory, read_access}
use apollo_rs.Memory.Bounds.{read_total}
use apollo_rs.Runtime.Events.{
  ExecutiveSlot, WaitlistSlot, Runtime, FlightSoftwareObserver, RuntimeError, memory_error,
}

pub record ExecutiveJob : Type 0 where
  pub job_slot : ℕ
  pub entry : ℕ
  pub priority : ℕ

-- `read(..).map(|access| access.value)`, with the error of the runtime.
unfoldable pub observe : Memory → ℕ → Result RuntimeError ℕ
observe m logical =
    bind_ok (map_err memory_error (Store.read m logical read_access)) λ access. ok access.value

-- The jobs of the slots whose entry is not zero. The first error is the result.
unfoldable pub executive_jobs :
    List ExecutiveSlot → Memory → Result RuntimeError (List ExecutiveJob)
unfolding observe
executive_jobs [] m = ok []
executive_jobs (s ∷ ss) m = bind_ok (observe m s.address_word) λ entry.
    bind_ok (observe m s.priority_word) λ priority. bind_ok (executive_jobs ss m) λ jobs. ok (
      if is_zero entry
      then jobs
      else record { job_slot = s.slot; entry = low_bits entry 12; priority = priority } ∷ jobs)

pub record WaitlistTask : Type 0 where
  pub task_slot : ℕ
  pub delay : ℕ
  pub entry : ℕ

-- The tasks of the slots whose entry is not zero.
unfoldable pub waitlist_tasks : List WaitlistSlot → Memory → Result RuntimeError (List WaitlistTask)
unfolding observe
waitlist_tasks [] m = ok []
waitlist_tasks (s ∷ ss) m = bind_ok (observe m s.delay_word) λ delay.
    bind_ok (observe m s.task_word) λ entry. bind_ok (waitlist_tasks ss m) λ tasks. ok (
      if is_zero entry
      then tasks
      else record { task_slot = s.slot; delay = delay; entry = low_bits entry 12 } ∷ tasks)

-- The slots name twelve-bit addresses.
abbrev pub AllInRange : List ExecutiveSlot → Type 0
AllInRange [] = Unit
AllInRange (s ∷ ss) = (s.address_word ≤ 0o7777) × (s.priority_word ≤ 0o7777) × AllInRange ss

observe_total : (m : Memory) (k : ℕ) → k ≤ 0o7777 → (w : ℕ) × (observe m k ≡ ok w)
unfolding observe
observe_total m k h = let (w, there, reads) = read_total m k read_access h in (w, rw reads refl)

-- With twelve-bit addresses in the slots the jobs are always read, and there are no more of them than
-- slots.
pub executive_jobs_total :
    (ss : List ExecutiveSlot) (m : Memory)
    → AllInRange ss
    → (jobs : List ExecutiveJob) × (executive_jobs ss m ≡ ok jobs) × (length jobs ≤ length ss)
unfolding executive_jobs
executive_jobs_total [] m h = ([], refl, omega arith)
executive_jobs_total (s ∷ ss) m h =
    let (entry, reads) = observe_total m s.address_word h.0 in
    let (priority, reads') = observe_total m s.priority_word h.1 in
    let (jobs, run, fits) = executive_jobs_total ss m h.2 in
    (
      (if is_zero entry
          then jobs
          else record { job_slot = s.slot; entry = low_bits entry 12; priority = priority } ∷ jobs),
      rw (reads, reads', run) refl,
      ground (arith, fits),
    )

-- `set_observer`.
unfoldable pub set_observer : Runtime → FlightSoftwareObserver → Runtime
set_observer r o = record r { observer = o }
