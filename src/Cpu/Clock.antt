-- ===== src/Cpu/Clock.antt =====
-- crates/agc-cpu/src/lib.rs: memory-cycle time, the scaler, the timers that it counts, and the
-- interrupts that they and the hand controllers request.
pub mod Ends
pub mod Timers
pub mod Total
use apollo_rs.Prelude.{
  ℕ, zero, suc, ◌+◌, ◌-◌, ◌*◌, ◌/◌, ◌%◌, ◌^◌, Bool, true, false, ◌||◌, ◌&&◌, not,
}
use apollo_rs.Prelude.{Option, some, none, ltb, leb, ◌==◌, ◌=/=◌, if◌then◌else◌}
use apollo_rs.Bits.{bit_is_set, low_bits, field, shr}
use apollo_rs.Word.{from_raw_truncate, is_zero, is_negative}
use apollo_rs.Word
use apollo_rs.Memory.Store
use apollo_rs.Trace.{requested}
use apollo_rs.Cpu.Arithmetic.{counter_pinc}
use apollo_rs.Cpu.State.{Cpu, M, pure, ◌>>=◌, ◌>>◌, get, modify, set_memory, push_memory, push_io}
use apollo_rs.Cpu.State.{push_interrupt, throw, out_of_fuel, Interrupt, number, contains, insert}
use apollo_rs.Cpu.State.{time6, time5, time3, time4, downrupt, handrupt}
use apollo_rs.Cpu.Access.{memory_read, memory_write}

-- The event is recorded only when the request is new.
unfoldable pub request_interrupt_event : Interrupt → M (Unit {0})
request_interrupt_event i = do
  c ← get
  modify λ d. record d { pending_interrupts = insert number d.pending_interrupts i }
  if contains number c.pending_interrupts i then pure tt else push_interrupt (requested (number i))

-- `is_some_and(|due| cycles >= due)`.
unfoldable pub is_due : Option ℕ → ℕ → Bool
is_due none cycles = false
is_due (some due) cycles = leb due cycles

unfoldable pub service_downrupt_due : M (Unit {0})
unfolding request_interrupt_event is_due
service_downrupt_due =
    let serve = (do
      modify λ c. record c { downrupt_due = none }
      request_interrupt_event downrupt) in
    do c ← get; if is_due c.downrupt_due c.cycles then serve else pure tt

unfoldable pub clock_deferred_mct : M (Unit {0})
unfolding service_downrupt_due
clock_deferred_mct = do
  service_downrupt_due
  modify λ c. record c { cycles = c.cycles + 1; scaler_mcts = c.scaler_mcts + 3 }

unfoldable pub clock_deferred_mcts : ℕ → M (Unit {0})
clock_deferred_mcts zero = pure tt
clock_deferred_mcts (suc n) = clock_deferred_mct >> clock_deferred_mcts n

unfoldable pub increment_timer : ℕ → Interrupt → M (Unit {0})
increment_timer address i = do
  current ← memory_read address
  let (next, overflow) = counter_pinc current.value
  if overflow then request_interrupt_event i else pure tt
  access ← memory_write address next
  push_memory access

-- The machine cycles that TIME1, and TIME2 on its overflow, take.
unfoldable pub increment_time1 : M ℕ
increment_time1 =
    let carry = (do
      time2 ← memory_read 0o24
      access ← memory_write 0o24 ((counter_pinc time2.value).0)
      push_memory access
      pure 2) in
    do
      time1 ← memory_read 0o25
      let (incremented, overflow) = counter_pinc time1.value
      access ← memory_write 0o25 incremented
      push_memory access
      if overflow then carry else pure 1

-- The scaler channels 4 and 3 after a tick.
unfoldable pub publish_scaler : M (Unit {0})
publish_scaler = do
  c ← get
  let m = Store.write_channel c.memory 0o4 (from_raw_truncate c.scaler)
  set_memory (
      if c.scaler == 0
      then Store.write_channel m 0o3
          (from_raw_truncate (low_bits (Store.read_channel m 0o3 + 1) 16))
      else m)

-- The timers that a tick counts, by the scaler's five low bits.
unfoldable pub service_timers : M ℕ
service_timers =
    let five = increment_timer 0o30 time5 >> pure 1 in
    let four = increment_timer 0o27 time4 >> pure 1 in
    let one_and_three = (do
      cycles ← increment_time1
      increment_timer 0o26 time3
      pure (cycles + 1)) in
    do
      c ← get
      let phase = low_bits c.scaler 5
      if phase == 0
          then five
          else if phase == 8
          then four
          else if phase == 16
          then one_and_three
          else pure 0

-- TIME6 counts towards zero; at zero it stops itself and requests its interrupt.
unfoldable pub count_time6 : ℕ → M (Unit {0})
count_time6 channel13 =
    let cleared = from_raw_truncate (channel13 - field channel13 14 1) in
    let stop = (do
      request_interrupt_event time6
      c ← get
      set_memory (Store.write_channel c.memory 0o13 cleared)
      push_io (record { write = true; channel = 0o13; value = cleared })) in
    do
      access ← memory_read 0o31
      let time6_word = access.value
      let count = (do
        access ← memory_write 0o31 (
            Word.wrapping_add time6_word
              (from_raw_truncate (if is_negative time6_word then 1 else 0o77776)))
        push_memory access)
      if is_zero time6_word then stop else count

unfoldable pub service_time6 : M ℕ
unfolding count_time6
service_time6 = do
  c ← get
  let channel13 = Store.read_channel c.memory 0o13
  let count = count_time6 channel13 >> pure 1
  if bit_is_set c.scaler 0 && bit_is_set channel13 14 then count else pure 0

-- An armed trap springs when one of its inputs is off.
unfoldable pub service_handrupt_traps : M (Unit {0})
service_handrupt_traps = do
  c ← get
  let channel31 = Store.read_channel c.memory 0o31
  let channel32 = Store.read_channel c.memory 0o32
  let springs_31a = c.trap_31a && low_bits channel31 6 =/= 0o77
  let springs_31b = c.trap_31b && field channel31 6 6 =/= 0o7700
  let springs_32 = c.trap_32 && low_bits channel32 10 =/= 0o1777
  modify λ d. record d {
    trap_31a = c.trap_31a && not springs_31a;
    trap_31b = c.trap_31b && not springs_31b;
    trap_32 = c.trap_32 && not springs_32;
  }
  if springs_31a || springs_31b || springs_32 then request_interrupt_event handrupt else pure tt

-- One round of the loop of `service_scaler`: the cycles that it delays.
unfoldable pub scaler_tick : M ℕ
scaler_tick = do
  modify λ c. record c {
    scaler_mcts = c.scaler_mcts - 80;
    scaler = low_bits (low_bits (c.scaler + 1) 16) 14;
  }
  publish_scaler
  timers ← service_timers
  counted ← service_time6
  service_handrupt_traps
  pure (timers + counted)

unfoldable pub service_scaler_loop : ℕ → ℕ → M ℕ
service_scaler_loop zero delay = throw out_of_fuel
service_scaler_loop (suc fuel) delay =
    let again = scaler_tick >>= λ more. service_scaler_loop fuel (delay + more) in
    do c ← get; if leb 80 c.scaler_mcts then again else pure delay

-- Each round takes 80 from `scaler_mcts`.
unfoldable pub service_scaler : M ℕ
service_scaler = do c ← get; service_scaler_loop (c.scaler_mcts + 1) 0

unfoldable pub advance_loop : ℕ → M (Unit {0})
advance_loop zero = throw out_of_fuel
advance_loop (suc fuel) = do
  clock_deferred_mct
  delay ← service_scaler
  let rest = clock_deferred_mcts (delay - 1) >> advance_loop fuel
  if delay == 0 then pure tt else rest

-- A tick delays by three cycles at most, so the loop ends in a few rounds.
unfoldable pub advance_to_ready_mct : M (Unit {0})
advance_to_ready_mct = advance_loop 8

unfoldable pub schedule_completed_downrupt : M (Unit {0})
schedule_completed_downrupt = modify λ c.
    if c.schedule_downrupt
    then record c { downrupt_due = some (c.cycles + 1706); schedule_downrupt = false }
    else c
