-- ===== src/Faults/Effects.antt =====
-- crates/agc-faults/src/lib.rs: the faults, `schedule` and `apply`. The `BTreeMap` of the scheduled faults
-- is the list of its entries in rising order of their keys.
use apollo_rs.Prelude.{
  ℕ, ◌+◌, Bool, ◌&&◌, ◌||◌, List, [], ◌∷◌, ◌++◌, Option, some, none, Result, ok, err, bind_ok,
  bit_xor, ltb, within, ◌==◌, if◌then◌else◌,
}
use apollo_rs.Prelude.Int.{ℤ}
use apollo_rs.Word.{from_raw_truncate, from_i32, wrapping_add}
use apollo_rs.Memory.Store
use apollo_rs.Memory.Store.{
  MemoryError, read_access, read_erasable_physical, write_erasable_physical, inject_fixed_bit_flip,
  central_register, set_central_register,
}
use apollo_rs.Cpu.State.{Interrupt, memory_error}
use apollo_rs.Cpu.Step.{StepOutcome}
use apollo_rs.Cpu.Step as Step
use apollo_rs.Runtime.Events.{
  Runtime, RuntimeError, with_memory, imu_pulses, radar_event, cpu_error,
}
use apollo_rs.Runtime.Events as Events

pub data Fault : Type 0 where
  erasable_bit_flip : ℕ → ℕ → Fault
  physical_erasable_bit_flip rope_bit_flip : ℕ → ℕ → ℕ → Fault
  register_fault : ℕ → ℕ → Fault
  stuck_channel : ℕ → ℕ → ℕ → Fault
  drop_interrupt : Interrupt → Fault
  timer_jump : ℕ → ℤ → Fault
  imu_bias : ℤ → ℤ → ℤ → Fault
  radar_sample : ℕ → ℕ → Fault

pub record ScheduledFault : Type 0 where
  pub instruction : ℕ
  pub sequence : ℕ
  pub fault : Fault

pub record AppliedFault : Type 0 where
  pub instruction : ℕ
  pub cycle : ℕ
  pub fault : Fault
  pub resulting_word : Option ℕ

pub data FaultError : Type 0 where
  runtime_error : RuntimeError → FaultError
  memory_fault : MemoryError → FaultError
  timer_address channel_fault : ℕ → FaultError
  delta_fault : ℤ → FaultError
  physical_erasable : ℕ → ℕ → FaultError

pub record ActiveChannelFault : Type 0 where
  pub channel : ℕ
  pub value : ℕ
  pub remaining : ℕ

pub record FaultEngine : Type 0 where
  pub scheduled : List ScheduledFault
  pub active_channels : List ActiveChannelFault
  pub next_sequence : ℕ
  pub applied : List AppliedFault

-- The order of the keys.
abbrev pub before : ScheduledFault → ScheduledFault → Bool
before f g =
    ltb f.instruction g.instruction || f.instruction == g.instruction && ltb f.sequence g.sequence

-- `BTreeMap::insert`.
unfoldable pub insert_fault : ScheduledFault → List ScheduledFault → List ScheduledFault
insert_fault f [] = f ∷ []
insert_fault f (g ∷ gs) =
    if before f g then f ∷ g ∷ gs else if before g f then g ∷ insert_fault f gs else f ∷ gs

unfoldable pub schedule : FaultEngine → ℕ → Fault → ScheduledFault × FaultEngine
unfolding insert_fault
schedule e instruction fault =
    let scheduled : ScheduledFault = record {
      instruction = instruction;
      sequence = e.next_sequence;
      fault = fault;
    } in
    (
      scheduled,
      record e {
        scheduled = insert_fault scheduled e.scheduled;
        next_sequence = e.next_sequence + 1;
      },
    )

-- The resulting word and the machine of a fault that writes a word at a logical address.
unfoldable pub write_result : ℕ → ℕ → Runtime → Result FaultError (Option ℕ × Runtime)
write_result address next r = elim (Store.write r.cpu.memory address next) [
  | ok written ↦ ok (some written.0.value, with_memory r written.1)
  | err e ↦ err (memory_fault e)
]

unfoldable pub flip_erasable : ℕ → ℕ → Runtime → Result FaultError (Option ℕ × Runtime)
unfolding write_result from_raw_truncate
flip_erasable address mask r = elim (Store.read r.cpu.memory address read_access) [
  | ok access ↦ write_result address (from_raw_truncate (bit_xor access.value mask)) r
  | err e ↦ err (memory_fault e)
]

unfoldable pub flip_physical : ℕ → ℕ → ℕ → Runtime → Result FaultError (Option ℕ × Runtime)
unfolding from_raw_truncate
flip_physical bank offset mask r = elim (read_erasable_physical r.cpu.memory bank offset) [
  | none ↦ err (physical_erasable bank offset)
  | some current ↦
      let next = from_raw_truncate (bit_xor current mask) in
      elim (write_erasable_physical r.cpu.memory bank offset next) [
        | ok m ↦ ok (some next, with_memory r m)
        | err e ↦ err (physical_erasable bank offset)
      ]
]

unfoldable pub flip_rope : ℕ → ℕ → ℕ → Runtime → Result FaultError (Option ℕ × Runtime)
flip_rope bank offset mask r = elim (inject_fixed_bit_flip r.cpu.memory bank offset mask) [
  | ok flipped ↦ ok (some flipped.0, with_memory r flipped.1)
  | err e ↦ err (memory_fault e)
]

unfoldable pub flip_register : ℕ → ℕ → Runtime → Result FaultError (Option ℕ × Runtime)
flip_register index mask r = elim (central_register r.cpu.memory index) [
  | ok current ↦
      let next = bit_xor current mask in
      elim (set_central_register r.cpu.memory index next) [
        | ok m ↦ ok (some next, with_memory r m)
        | err e ↦ err (memory_fault e)
      ]
  | err e ↦ err (runtime_error (cpu_error (memory_error e)))
]

unfoldable pub jump_timer : ℕ → ℤ → Runtime → Result FaultError (Option ℕ × Runtime)
unfolding write_result
jump_timer address delta r =
    if within 0o24 0o31 address
    then elim (from_i32 delta) [
      | err e ↦ err (delta_fault delta)
      | ok word ↦ elim (Store.read r.cpu.memory address read_access) [
        | ok access ↦ write_result address (wrapping_add access.value word) r
        | err e ↦ err (memory_fault e)
      ]
    ]
    else err (timer_address address)

abbrev pub with_engine :
    FaultEngine
    → Result FaultError (Option ℕ × Runtime)
    → Result FaultError (Option ℕ × FaultEngine × Runtime)
with_engine e (ok (word, r)) = ok (word, e, r)
with_engine e (err x) = err x

-- The match of `apply`: the resulting word, the channels that stay stuck and the machine. A fault
-- that fails leaves both as they were.
unfoldable pub take_effect :
    Fault → FaultEngine → Runtime → Result FaultError (Option ℕ × FaultEngine × Runtime)
unfolding flip_erasable flip_physical flip_rope flip_register jump_timer
take_effect (erasable_bit_flip address mask) e r = with_engine e (flip_erasable address mask r)
take_effect (physical_erasable_bit_flip bank offset mask) e r =
    with_engine e (flip_physical bank offset mask r)
take_effect (rope_bit_flip bank offset mask) e r = with_engine e (flip_rope bank offset mask r)
take_effect (register_fault index mask) e r = with_engine e (flip_register index mask r)
take_effect (stuck_channel channel value instructions) e r =
    if ltb 0o777 channel
    then err (channel_fault channel)
    else ok (
      some value,
      record e {
        active_channels =
            e.active_channels
            ++ record { channel = channel; value = value; remaining = instructions } ∷ [];
      },
      r,
    )
take_effect (drop_interrupt interrupt) e r =
    let (cpu, pending) = Step.cancel_interrupt r.cpu interrupt in
    ok (some (if pending then 1 else 0), e, record r { cpu = cpu })
take_effect (timer_jump address delta) e r = with_engine e (jump_timer address delta r)
take_effect (imu_bias x y z) e r =
    ok (none, e, (Events.schedule r r.cpu.cycles (imu_pulses x y z)).1)
take_effect (radar_sample range rate) e r =
    ok (none, e, (Events.schedule r r.cpu.cycles (radar_event range rate)).1)

-- `apply`, with the record of the fault.
unfoldable pub apply : Fault → FaultEngine → Runtime → Result FaultError (FaultEngine × Runtime)
unfolding take_effect
apply fault e r = bind_ok (take_effect fault e r) λ taken.
    let (word, f, s) = taken in
    ok (
      record f {
        applied =
            f.applied
            ++ record {
              instruction = s.cpu.sequence;
              cycle = s.cpu.cycles;
              fault = fault;
              resulting_word = word;
            }
              ∷ [];
      },
      s,
    )
