-- ===== src/Faults/Keeps.antt =====
-- crates/agc-faults/src/lib.rs, `apply`: every fault keeps the machine well-formed.
use apollo_rs.Prelude.{
  ℕ, ◌^◌, ◌<◌, ◌≡◌, arith, ltb, leb, within, if_cases, List, [], ◌∷◌, ◌++◌, Option, some, none,
  Result, ok, err, result_cases, IfOk, bit_xor, update, All,
}
use apollo_rs.Prelude.Int.{ℤ}
use apollo_rs.Bits.{bit_xor-lt}
use apollo_rs.Word.{IsWord, from_raw_truncate, from_i32}
use apollo_rs.Word.Sum.{wrapping_add-IsWord}
use apollo_rs.Memory.Store
use apollo_rs.Memory.Store.{
  Memory, MemoryError, MemoryAccess, read_access, read_erasable_physical, write_erasable_physical,
  inject_fixed_bit_flip, central_register, set_central_register, write_central_raw,
}
use apollo_rs.Memory.Invariant.{IsValid, write_central_raw-IsValid}
use apollo_rs.Memory.Keeps.{write-IsValid}
use apollo_rs.Cpu.State.{Cpu, Interrupt}
use apollo_rs.Cpu.Step.{cancel_interrupt}
use apollo_rs.Cpu.Clock.Timers.{from_raw_truncate-IsWord}
use apollo_rs.Cpu.Safe.Commit.{IsWell}
use apollo_rs.Runtime.Events.{
  Runtime, RuntimeError, RuntimeEvent, ScheduledEvent, cpu_error, with_memory, insert_event,
  imu_pulses, radar_event,
}
use apollo_rs.Runtime.Events as Events
use apollo_rs.Runtime.Safe.{
  HasWords, AllHaveWords, IsReady, with_memory-IsWell, write_erasable_physical-IsValid,
}
use apollo_rs.Faults.Effects.{
  Fault, erasable_bit_flip, physical_erasable_bit_flip, rope_bit_flip, register_fault,
  stuck_channel, drop_interrupt, timer_jump, imu_bias, radar_sample, FaultError, physical_erasable,
  with_engine, FaultEngine, write_result, flip_erasable, flip_physical, flip_rope, flip_register,
  jump_timer, take_effect,
}

-- The parts of a fault that go to the machine as they are have their width.
abbrev pub IsFit : Fault → Type 0
IsFit (register_fault index mask) = mask < 2 ^ 16
IsFit (stuck_channel channel value instructions) = IsWord value
IsFit (radar_sample range rate) = IsWord range × IsWord rate
IsFit _ = Unit

-- All faults of an engine are fit, and stuck channels have words.
pub record IsArmed (e : FaultEngine) : Type 0 where
  pub faults : All (λ f. IsFit f.fault) e.scheduled
  pub stuck : All (λ f. IsWord f.value) e.active_channels

pub ready_with : (r : Runtime) (m : Memory) → IsReady r → IsValid m → IsReady (with_memory r m)
ready_with r m h v = record {
  cpu_IsWell = with_memory-IsWell r.cpu m h.cpu_IsWell v;
  queue = h.queue;
}

insert_event-AllHaveWords :
    (e : ScheduledEvent) (es : List ScheduledEvent)
    → HasWords e.event
    → AllHaveWords es
    → AllHaveWords (insert_event e es)
unfolding insert_event
insert_event-AllHaveWords e [] h k = (h, tt)
insert_event-AllHaveWords e (f ∷ fs) h k =
    if_cases AllHaveWords (Events.before e f) _ _ (λ _. (h, k))
      λ _.
        if_cases AllHaveWords (Events.before f e) _ _
          (λ _. (k.0, insert_event-AllHaveWords e fs h k.1)) λ _. (h, k.1)

schedule-IsReady :
    (r : Runtime) (cycle : ℕ) (event : RuntimeEvent)
    → IsReady r
    → HasWords event
    → IsReady (Events.schedule r cycle event).1
unfolding Events.schedule
schedule-IsReady r cycle event h k = record {
  cpu_IsWell = h.cpu_IsWell;
  queue = insert_event-AllHaveWords _ r.events k h.queue;
}

cancel_interrupt-IsWell : (c : Cpu) (i : Interrupt) → IsWell c → IsWell (cancel_interrupt c i).0
unfolding cancel_interrupt
cancel_interrupt-IsWell c i h = record {
  memory_IsValid = h.memory_IsValid;
  owes = h.owes;
  ordered = h.ordered;
  complete = h.complete;
  past = h.past;
}

update_fixed-IsValid :
    (m : Memory) (i w : ℕ)
    → IsValid m
    → IsWord w
    → IsValid (record m { fixed_words = update m.fixed_words i w })
update_fixed-IsValid m i w v h = record {
  accumulators = v.accumulators;
  edits = v.edits;
  program_counter = v.program_counter;
  hard_zero = v.hard_zero;
  banks = v.banks;
  erasable_IsWord = v.erasable_IsWord;
  fixed_IsWord = λ j. ground (arith, v.fixed_IsWord j);
  channels_IsWord = v.channels_IsWord;
}

inject_fixed_bit_flip-IsValid :
    (m : Memory) (b o mask : ℕ)
    → IsValid m
    → IfOk (λ x. IsValid x.1) (inject_fixed_bit_flip m b o mask)
unfolding inject_fixed_bit_flip
inject_fixed_bit_flip-IsValid m b o mask v =
    if_cases (IfOk (λ x. IsValid x.1)) (leb 36 b) _ _ (λ _. tt)
      λ _.
        if_cases (IfOk (λ x. IsValid x.1)) (leb 1024 o) _ _ (λ _. tt)
          λ _. update_fixed-IsValid m _ _ v (from_raw_truncate-IsWord _)

set_central_register-IsValid :
    (m : Memory) (i w : ℕ) → IsValid m → w < 2 ^ 16 → IfOk IsValid (set_central_register m i w)
unfolding set_central_register
set_central_register-IsValid m i w v h =
    if_cases (IfOk IsValid) (leb 16 i) _ _ (λ _. tt) λ _. write_central_raw-IsValid m i w v h

central_register-lt : (m : Memory) (i : ℕ) {w : ℕ} → central_register m i ≡ ok w → w < 2 ^ 16
unfolding central_register
central_register-lt m i e = ground arith

-- What a fault leaves, if it does not fail.
abbrev Written : Result FaultError (Option ℕ × Runtime) → Type 0
Written = IfOk (λ x. IsReady x.1)

module _ (r : Runtime) (h : IsReady r) where
  valid : IsValid r.cpu.memory
  valid = h.cpu_IsWell.memory_IsValid

  write_result-Written : (k w : ℕ) → IsWord w → Written (write_result k w r)
  unfolding write_result
  write_result-Written k w q =
      result_cases Written (Store.write r.cpu.memory k w) _ _
        (λ a e. ready_with r a.1 h (rw e at (write-IsValid r.cpu.memory k w valid q))) λ _ _. tt

  flip_erasable-Written : (k mask : ℕ) → Written (flip_erasable k mask r)
  unfolding flip_erasable
  flip_erasable-Written k mask =
      result_cases Written (Store.read r.cpu.memory k read_access) _ _
        (λ a _. write_result-Written k _ (from_raw_truncate-IsWord (bit_xor a.value mask)))
        λ _ _. tt

  flip_rope-Written : (b o mask : ℕ) → Written (flip_rope b o mask r)
  unfolding flip_rope
  flip_rope-Written b o mask =
      result_cases Written (inject_fixed_bit_flip r.cpu.memory b o mask) _ _
        (λ x e.
          ready_with r x.1 h (rw e at (inject_fixed_bit_flip-IsValid r.cpu.memory b o mask valid)))
        λ _ _. tt

  flip_register-Written : (i mask : ℕ) → mask < 2 ^ 16 → Written (flip_register i mask r)
  unfolding flip_register
  flip_register-Written i mask q =
      result_cases Written (central_register r.cpu.memory i) _ _
        (λ w e.
          let next = bit_xor-lt 16 w mask (central_register-lt r.cpu.memory i e) q in
          result_cases Written (set_central_register r.cpu.memory i (bit_xor w mask)) _ _
            (λ m f.
              ready_with r m h
                (rw f at (set_central_register-IsValid r.cpu.memory i (bit_xor w mask) valid next)))
            λ _ _. tt)
        λ _ _. tt

  flip_physical-Written : (b o mask : ℕ) → Written (flip_physical b o mask r)
  unfolding flip_physical
  flip_physical-Written b o mask = by_word (read_erasable_physical r.cpu.memory b o)
    where
      by_word :
          (x : Option ℕ)
          → Written (elim x as (λ _. Result FaultError (Option ℕ × Runtime)) [
            | none ↦ err (physical_erasable b o)
            | some current ↦
                let next = from_raw_truncate (bit_xor current mask) in
                elim (write_erasable_physical r.cpu.memory b o next) [
                  | ok m ↦ ok (some next, with_memory r m)
                  | err e ↦ err (physical_erasable b o)
                ]
          ])
      by_word none = tt
      by_word (some w) =
          let next = from_raw_truncate (bit_xor w mask) in
          result_cases Written (write_erasable_physical r.cpu.memory b o next) _ _
            (λ m e. ready_with r m h (
              rw e at (
                write_erasable_physical-IsValid r.cpu.memory b o next valid
                  (from_raw_truncate-IsWord (bit_xor w mask)))))
            λ _ _. tt

  jump_timer-Written : (k : ℕ) (d : ℤ) → Written (jump_timer k d r)
  unfolding jump_timer
  jump_timer-Written k d =
      if_cases Written (within 0o24 0o31 k) _ _
        (λ _.
          result_cases Written (from_i32 d) _ _
            (λ w _.
              result_cases Written (Store.read r.cpu.memory k read_access) _ _
                (λ a _. write_result-Written k _ (wrapping_add-IsWord a.value w)) λ _ _. tt)
            λ _ _. tt)
        λ _. tt

-- Faults, channels and machine after a fault or after several.
abbrev pub Armed : FaultEngine → Runtime → Type 0
Armed e r = IsArmed e × IsReady r

abbrev pub Taken : Result FaultError (Option ℕ × FaultEngine × Runtime) → Type 0
Taken = IfOk (λ x. Armed x.1 x.2)

with_engine-Taken :
    (e : FaultEngine) (x : Result FaultError (Option ℕ × Runtime))
    → IsArmed e
    → Written x
    → Taken (with_engine e x)
with_engine-Taken e (ok (w, r)) h k = (h, k)
with_engine-Taken e (err x) h k = tt

All-snoc {ℓ κ} :
    {A : Type ℓ} (P : A → Type κ) (xs : List A) (x : A) → All P xs → P x → All P (xs ++ x ∷ [])
All-snoc P [] x h k = (k, tt)
All-snoc P (y ∷ ys) x h k = (h.0, All-snoc P ys x h.1 k)

pub take_effect-Taken :
    (f : Fault) (e : FaultEngine) (r : Runtime)
    → IsFit f
    → IsArmed e
    → IsReady r
    → Taken (take_effect f e r)
unfolding take_effect
take_effect-Taken (erasable_bit_flip k mask) e r q a h =
    with_engine-Taken e _ a (flip_erasable-Written r h k mask)
take_effect-Taken (physical_erasable_bit_flip b o mask) e r q a h =
    with_engine-Taken e _ a (flip_physical-Written r h b o mask)
take_effect-Taken (rope_bit_flip b o mask) e r q a h =
    with_engine-Taken e _ a (flip_rope-Written r h b o mask)
take_effect-Taken (register_fault i mask) e r q a h =
    with_engine-Taken e _ a (flip_register-Written r h i mask q)
take_effect-Taken (stuck_channel c w n) e r q a h =
    if_cases Taken (ltb 0o777 c) _ _ (λ _. tt)
      λ _. (
        record {
          faults = a.faults;
          stuck = All-snoc (λ f. IsWord f.value) e.active_channels _ a.stuck q;
        },
        h,
      )
take_effect-Taken (drop_interrupt i) e r q a h =
    (a, record { cpu_IsWell = cancel_interrupt-IsWell r.cpu i h.cpu_IsWell; queue = h.queue })
take_effect-Taken (timer_jump k d) e r q a h = with_engine-Taken e _ a (jump_timer-Written r h k d)
take_effect-Taken (imu_bias x y z) e r q a h =
    (a, schedule-IsReady r r.cpu.cycles (imu_pulses x y z) h tt)
take_effect-Taken (radar_sample range rate) e r q a h =
    (a, schedule-IsReady r r.cpu.cycles (radar_event range rate) h q)
