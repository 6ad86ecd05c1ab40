-- ===== src/Cpu/Access.antt =====
-- crates/agc-cpu/src/lib.rs: how an instruction reaches memory and channels, with the trace of it.
use apollo_rs.Prelude.{ℕ, ◌+◌, true, false, ◌||◌, some}
use apollo_rs.Prelude.{ltb, ◌==◌, if◌then◌else◌, bit_or}
use apollo_rs.Bits.{bit_is_set, low_bits, field}
use apollo_rs.Word.{from_raw_truncate, sign_extend}
use apollo_rs.Register.{overflow_correct}
use apollo_rs.Memory.Central
use apollo_rs.Memory.Store
use apollo_rs.Memory.Store.{
  AccessKind, read_access, write_access, MemoryAccess, address_out_of_range,
}
use apollo_rs.Memory.Store.{central_register, set_central_register}
use apollo_rs.Cpu.State.{Cpu, M, pure, ◌>>=◌, ◌>>◌, throw, get, modify, set_memory}
use apollo_rs.Cpu.State.{push_memory, push_io, lift_memory, memory_error, contains}

-- `self.memory.read(address, AccessKind::Read)?`.
unfoldable pub memory_read : ℕ → M MemoryAccess
memory_read address = do c ← get; lift_memory (Store.read c.memory address read_access)

unfoldable pub memory_write : ℕ → ℕ → M MemoryAccess
memory_write address value = do
  c ← get
  (access, m) ← lift_memory (Store.write c.memory address value)
  set_memory m
  pure access

unfoldable pub memory_read_and_edit : ℕ → M MemoryAccess
memory_read_and_edit address = do
  c ← get
  (access, m) ← lift_memory (Store.read_and_edit c.memory address read_access)
  set_memory m
  pure access

unfoldable pub read_word : ℕ → M ℕ
unfolding memory_read
read_word address = do access ← memory_read address; push_memory access; pure access.value

unfoldable pub read_word_and_edit : ℕ → M ℕ
unfolding memory_read_and_edit
read_word_and_edit address = do
  access ← memory_read_and_edit address
  push_memory access
  pure access.value

-- A, L and Q keep sixteen bits; any other operand is a widened word.
unfoldable pub operand_value : ℕ → MemoryAccess → M ℕ
operand_value address access =
    let central = (do c ← get; lift_memory (central_register c.memory address)) in
    if ltb address Central.eb then central else pure (sign_extend access.value)

unfoldable pub read_register_operand : ℕ → M ℕ
unfolding memory_read operand_value
read_register_operand address = do
  access ← memory_read address
  value ← operand_value address access
  push_memory access
  pure value

unfoldable pub read_register_operand_and_edit : ℕ → M ℕ
unfolding memory_read_and_edit operand_value
read_register_operand_and_edit address = do
  access ← memory_read_and_edit address
  value ← operand_value address access
  push_memory access
  pure value

-- `if self.watchpoints.contains(&address) { *watchpoint = Some(address); }`.
unfoldable pub note_watchpoint : ℕ → M (Unit {0})
note_watchpoint address s = pure tt (record s {
  watchpoint = if contains (λ x. x) s.cpu.watchpoints address then some address else s.watchpoint;
})

unfoldable pub write_word : ℕ → ℕ → M (Unit {0})
unfolding memory_write note_watchpoint
write_word address value = do
  access ← memory_write address value
  push_memory access
  note_watchpoint address

unfoldable pub write_central_operand : ℕ → ℕ → M (Unit {0})
unfolding memory_read note_watchpoint
write_central_operand address value = do
  c ← get
  m ← lift_memory (set_central_register c.memory address value)
  set_memory m
  access ← memory_read address
  push_memory (record access { kind = write_access })
  note_watchpoint address

unfoldable pub write_register_operand : ℕ → ℕ → M (Unit {0})
unfolding write_word write_central_operand
write_register_operand address value =
    if ltb address Central.eb
    then write_central_operand address value
    else write_word address (overflow_correct value)

-- `ChannelAddress::new(channel).map_err(...)?`.
unfoldable pub channel_address : ℕ → M ℕ
channel_address channel =
    if ltb 0o777 channel then throw (memory_error (address_out_of_range channel)) else pure channel

unfoldable pub read_channel : ℕ → M ℕ
unfolding channel_address
read_channel channel = do
  address ← channel_address channel
  c ← get
  let value = Store.read_channel c.memory address
  push_io (record { write = false; channel = channel; value = value })
  pure value

-- The traps that a write to channel 013 arms.
unfoldable pub arm_traps : ℕ → Cpu → Cpu
arm_traps value c = record c {
  trap_31a = c.trap_31a || bit_is_set value 11;
  trap_31b = c.trap_31b || bit_is_set value 12;
  trap_32 = c.trap_32 || bit_is_set value 13;
}

-- What the hardware keeps of the word written to a channel.
unfoldable pub channel_value : Cpu → ℕ → ℕ → ℕ
unfolding from_raw_truncate
channel_value c channel value =
    if channel == 0o13
    then from_raw_truncate (field value 14 1 + low_bits value 11)
    else if channel == 0o33
    then from_raw_truncate (bit_or (Store.read_channel c.memory channel) 0o076000)
    else if channel == 0o77
    then 0
    else value

-- Both downlink words written, the interrupt is scheduled.
unfoldable pub note_downlink : ℕ → Cpu → Cpu
note_downlink channel c =
    let words =
      if channel == 0o34
      then bit_or c.downlink_words 1
      else if channel == 0o35
      then bit_or c.downlink_words 2
      else c.downlink_words in
    if words == 3
    then record c { downlink_words = 0; schedule_downrupt = true }
    else record c { downlink_words = words }

unfoldable pub write_channel : ℕ → ℕ → M (Unit {0})
unfolding channel_address arm_traps channel_value note_downlink
write_channel channel value = do
  address ← channel_address channel
  modify (λ c. if channel == 0o13 then arm_traps value c else c)
  c ← get
  let kept = channel_value c channel value
  set_memory (Store.write_channel c.memory address kept)
  push_io (record { write = true; channel = channel; value = kept })
  modify (note_downlink channel)
