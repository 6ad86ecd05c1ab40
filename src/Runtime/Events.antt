-- ===== src/Runtime/Events.antt =====
-- crates/agc-runtime/src/lib.rs: the events, the state of the peripherals and the delivery of events.
use apollo_rs.Prelude.{
  ℕ, ◌+◌, ◌-◌, Bool, ◌&&◌, ◌||◌, ltb, leb, ◌==◌, if◌then◌else◌, Option, none, List, [], ◌∷◌, Result,
  ok, err,
}
use apollo_rs.Prelude.Int.{ℤ, pos, negsuc, ◌+ℤ◌}
use apollo_rs.Bits.{low_bits}
use apollo_rs.Word.{from_raw_truncate, from_i32, wrapping_add}
use apollo_rs.Memory.Store
use apollo_rs.Memory.Store.{Memory, MemoryError, read_access, write_erasable_physical}
use apollo_rs.Cpu.State.{Cpu, CpuError, Interrupt, radar, key1}
use apollo_rs.Cpu.Step.{request_interrupt}

pub data RuntimeEvent : Type 0 where
  channel_event : ℕ → ℕ → RuntimeEvent
  interrupt_event : Interrupt → RuntimeEvent
  erasable_event : ℕ → ℕ → ℕ → RuntimeEvent
  imu_pulses : ℤ → ℤ → ℤ → RuntimeEvent
  radar_event : ℕ → ℕ → RuntimeEvent
  dsky_key : ℕ → RuntimeEvent

-- The sums of the pulses are integers: the code adds them as `i32`.
pub record ImuState : Type 0 where
  pub x : ℤ
  pub y : ℤ
  pub z : ℤ

pub record RadarState : Type 0 where
  pub range : ℕ
  pub rate : ℕ
  pub samples : ℕ

pub record DownlinkFrame : Type 0 where
  pub cycle : ℕ
  pub word1 : ℕ
  pub word2 : ℕ

pub record HardwareState : Type 0 where
  pub imu : ImuState
  pub radar : RadarState
  pub downlink : List DownlinkFrame
  pub pending_downlink_1 : Option ℕ
  pub pending_downlink_2 : Option ℕ

-- `HardwareState::default`.
abbrev pub idle_hardware : HardwareState
idle_hardware = record {
  imu = record { x = pos 0; y = pos 0; z = pos 0 };
  radar = record { range = 0; rate = 0; samples = 0 };
  downlink = [];
  pending_downlink_1 = none;
  pending_downlink_2 = none;
}

pub data RuntimeError : Type 0 where
  cpu_error : CpuError → RuntimeError
  memory_error : MemoryError → RuntimeError
  channel_error : ℕ → RuntimeError

-- An event with its key in the queue, the cycle and the number of the insertion.
pub record ScheduledEvent : Type 0 where
  pub cycle : ℕ
  pub sequence : ℕ
  pub event : RuntimeEvent

pub record ExecutiveSlot : Type 0 where
  pub slot : ℕ
  pub address_word : ℕ
  pub priority_word : ℕ

pub record WaitlistSlot : Type 0 where
  pub slot : ℕ
  pub delay_word : ℕ
  pub task_word : ℕ

pub record FlightSoftwareObserver : Type 0 where
  pub executive_slots : List ExecutiveSlot
  pub waitlist_slots : List WaitlistSlot

-- The `BTreeMap` of the events is the list of its entries in rising order of the keys.
pub record Runtime : Type 0 where
  pub cpu : Cpu
  pub events : List ScheduledEvent
  pub next_event_sequence : ℕ
  pub hardware : HardwareState
  pub observer : FlightSoftwareObserver

-- `Runtime::new`.
unfoldable pub new_runtime : Cpu → Runtime
new_runtime c = record {
  cpu = c;
  events = [];
  next_event_sequence = 0;
  hardware = idle_hardware;
  observer = record { executive_slots = []; waitlist_slots = [] };
}

-- The order of the keys.
abbrev pub before : ScheduledEvent → ScheduledEvent → Bool
before e f = ltb e.cycle f.cycle || e.cycle == f.cycle && ltb e.sequence f.sequence

-- `BTreeMap::insert`, which replaces the value of a key that is there.
unfoldable pub insert_event : ScheduledEvent → List ScheduledEvent → List ScheduledEvent
insert_event e [] = e ∷ []
insert_event e (f ∷ fs) =
    if before e f then e ∷ f ∷ fs else if before f e then f ∷ insert_event e fs else e ∷ fs

unfoldable pub schedule : Runtime → ℕ → RuntimeEvent → ScheduledEvent × Runtime
unfolding insert_event
schedule r cycle event =
    let scheduled : ScheduledEvent = record {
      cycle = cycle;
      sequence = r.next_event_sequence;
      event = event;
    } in
    (
      scheduled,
      record r {
        events = insert_event scheduled r.events;
        next_event_sequence = r.next_event_sequence + 1;
      },
    )

-- A method that may fail, with the state that it leaves.
abbrev pub Ran : Type 0
Ran = Result RuntimeError (Unit {0}) × Runtime

-- `?` between two methods.
abbrev pub and_then : Ran → (Runtime → Ran) → Ran
and_then (ok a, r) f = f r
and_then (err e, r) f = (err e, r)

abbrev pub with_memory : Runtime → Memory → Runtime
with_memory r m = record r { cpu = record r.cpu { memory = m } }

-- `self.cpu.memory_mut().write(address, value)?`.
unfoldable pub write_word : ℕ → ℕ → Runtime → Ran
write_word address value r = elim (Store.write r.cpu.memory address value) [
  | ok written ↦ (ok tt, with_memory r written.1)
  | err e ↦ (err (memory_error e), r)
]

-- `pulses as u16`, of an `i16`.
abbrev pub as_u16 : ℤ → ℕ
as_u16 (pos n) = low_bits n 16
as_u16 (negsuc n) = 65535 - low_bits n 16

-- The word of a count of pulses.
unfoldable pub pulse_word : ℤ → ℕ
pulse_word pulses = elim (from_i32 pulses) [ ok w ↦ w | err e ↦ from_raw_truncate (as_u16 pulses) ]

-- One counter of the IMU.
unfoldable pub count_pulses : ℕ → ℤ → Runtime → Ran
unfolding write_word pulse_word
count_pulses address pulses r = elim (Store.read r.cpu.memory address read_access) [
  | ok access ↦ write_word address (wrapping_add access.value (pulse_word pulses)) r
  | err e ↦ (err (memory_error e), r)
]

-- The three counters, and the sums of the pulses.
unfoldable pub count_axes : ℤ → ℤ → ℤ → Runtime → Ran
unfolding count_pulses
count_axes x y z r =
    and_then (count_pulses 0o32 x r) λ s. and_then (count_pulses 0o33 y s) (count_pulses 0o34 z)

abbrev pub summed : ℤ → ℤ → ℤ → Runtime → Runtime
summed x y z r =
    let imu = r.hardware.imu in
    record r {
      hardware = record r.hardware {
        imu = record { x = imu.x +ℤ x; y = imu.y +ℤ y; z = imu.z +ℤ z };
      };
    }

-- The two words of a radar sample, and the request.
unfoldable pub store_sample : ℕ → ℕ → Runtime → Ran
unfolding write_word
store_sample range rate r = and_then (write_word 0o46 range r) λ s.
    and_then (write_word 0o45 rate s) λ t. (ok tt, record t { cpu = request_interrupt t.cpu radar })

abbrev pub sampled : ℕ → ℕ → Runtime → Runtime
sampled range rate r = record r {
  hardware = record r.hardware {
    radar = record { range = range; rate = rate; samples = r.hardware.radar.samples + 1 };
  };
}

unfoldable pub apply_event : RuntimeEvent → Runtime → Ran
unfolding count_axes store_sample
apply_event (channel_event channel value) r =
    if ltb 0o777 channel
    then (err (channel_error channel), r)
    else (ok tt, with_memory r (Store.write_channel r.cpu.memory channel value))
apply_event (interrupt_event i) r = (ok tt, record r { cpu = request_interrupt r.cpu i })
apply_event (erasable_event bank offset value) r =
    elim (write_erasable_physical r.cpu.memory bank offset value) [
      | ok m ↦ (ok tt, with_memory r m)
      | err e ↦ (err (memory_error e), r)
    ]
apply_event (imu_pulses x y z) r = count_axes x y z (summed x y z r)
apply_event (radar_event range rate) r = store_sample range rate (sampled range rate r)
apply_event (dsky_key code) r =
    let m = Store.write_channel r.cpu.memory 0o15 (from_raw_truncate (low_bits code 5)) in
    (ok tt, record r { cpu = request_interrupt (record r.cpu { memory = m }) key1 })

-- The loop of `apply_due_events`: the due events are those at the front of the queue.
unfoldable pub apply_due : ℕ → List ScheduledEvent → Runtime → Ran
apply_due cycle [] r = (ok tt, r)
apply_due cycle (e ∷ es) r =
    if leb e.cycle cycle
    then and_then (apply_event e.event (record r { events = es })) (apply_due cycle es)
    else (ok tt, r)

unfoldable pub apply_due_events : Runtime → Ran
unfolding apply_due
apply_due_events r = apply_due r.cpu.cycles r.events r
