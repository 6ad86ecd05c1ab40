-- ===== src/Cpu/Operations.antt =====
-- crates/agc-cpu/src/lib.rs: the instructions that `execute` hands to a method of their own, but DV.
use apollo_rs.Prelude.{ℕ, ◌+◌, ◌-◌, ◌*◌, Bool, true, false, ◌||◌, ◌&&◌, not}
use apollo_rs.Prelude.{ltb, ◌==◌, ◌=/=◌, if◌then◌else◌, bit_and, bit_or, bit_xor}
use apollo_rs.Prelude.Int.{pos, neg, abs}
use apollo_rs.Bits.{bit_is_set, low_bits, not16}
use apollo_rs.Word.{
  from_raw_truncate, sign_extend, sign_class, is_negative, is_zero, to_i32_lossy_zero,
}
use apollo_rs.Word.{SignClass, positive_zero, positive, negative_zero, negative}
use apollo_rs.Register
use apollo_rs.Register.{overflow_correct, has_overflow, sign_bits}
use apollo_rs.Double
use apollo_rs.Memory.Central
use apollo_rs.Memory.Store.{central_register}
use apollo_rs.Trace.{resumed}
use apollo_rs.Cpu.Arithmetic.{add_double_precision_carry, signs_differ}
use apollo_rs.Cpu.State.{M, pure, ◌>>=◌, ◌>>◌, get, modify, lift_memory, lift_word}
use apollo_rs.Cpu.State.{push_interrupt}
use apollo_rs.Cpu.Registers.{a_register, a_word, l_register, set_a_register, set_a_word}
use apollo_rs.Cpu.Registers.{set_l_register, set_l_word, set_central, set_z, skip}
use apollo_rs.Cpu.Access.{read_word, read_word_and_edit, read_register_operand}
use apollo_rs.Cpu.Access.{read_register_operand_and_edit, write_register_operand, read_channel}
use apollo_rs.Cpu.Access.{write_channel}

-- `magnitude.saturating_sub(1)`, the magnitude by the top bit.
unfoldable pub diminished : ℕ → ℕ
diminished raw = (if bit_is_set raw 15 then not16 raw else raw) - 1

-- The words that CCS skips.
unfoldable pub skip_by_class : SignClass → M (Unit {0})
skip_by_class positive_zero = skip 1
skip_by_class negative_zero = skip 3
skip_by_class negative = skip 2
skip_by_class positive = pure tt

unfoldable pub ccs_skip : ℕ → ℕ → M (Unit {0})
unfolding skip_by_class
ccs_skip k value =
    let by_class = skip_by_class (sign_class (overflow_correct value)) in
    if ltb k Central.eb
    then if sign_bits value == 1 then pure tt else if sign_bits value == 2 then skip 2 else by_class
    else by_class

unfoldable pub ccs : ℕ → M (Unit {0})
unfolding diminished ccs_skip
ccs k = do
  value ← read_register_operand_and_edit k
  set_a_register (diminished value)
  ccs_skip k value

-- What TS leaves in A, and whether it skips, after an overflow.
unfoldable pub ts_overflow : ℕ → Bool → M (Unit {0})
ts_overflow accumulator skips =
    let after = if skips then skip 1 else pure tt in
    if sign_bits accumulator == 1
    then set_a_word (from_raw_truncate 1) >> after
    else if sign_bits accumulator == 2
    then set_a_word (from_raw_truncate 0o77776) >> after
    else pure tt

unfoldable pub transfer_to_storage : ℕ → M (Unit {0})
unfolding ts_overflow
transfer_to_storage k = do
  c ← get
  let accumulator = a_register c
  let to_z = (do set_z (low_bits accumulator 12); ts_overflow accumulator false)
  let to_memory = (do write_register_operand k accumulator; ts_overflow accumulator true)
  if k == Central.a
      then if has_overflow accumulator then skip 1 else pure tt
      else if k == Central.z
      then to_z
      else to_memory

-- DAS on A and L themselves doubles them.
unfoldable pub das_double : M (Unit {0})
das_double = do
  c ← get
  let low = Register.wrapping_add (l_register c) (l_register c)
  let high = Register.wrapping_add (a_register c) (a_register c)
  set_a_register (add_double_precision_carry high low)
  set_l_register (sign_extend (overflow_correct low))

unfoldable pub das_memory : ℕ → M (Unit {0})
das_memory k = do
  memory_low ← read_register_operand k
  memory_high ← read_register_operand (k - 1)
  c ← get
  let low = Register.wrapping_add (l_register c) memory_low
  let sum = Register.wrapping_add (a_register c) memory_high
  let high = if has_overflow low then add_double_precision_carry sum low else sum
  set_a_register (if sign_bits high == 2 then 0o177776 else if sign_bits high == 1 then 1 else 0)
  set_l_word 0
  write_register_operand k (sign_extend (overflow_correct low))
  write_register_operand (k - 1) high

unfoldable pub das : ℕ → M (Unit {0})
unfolding das_double das_memory
das k = if k == Central.l then das_double else das_memory k

unfoldable pub double_load_registers : Bool → M (Unit {0})
double_load_registers true = do
  c ← get
  set_a_register (not16 (a_register c))
  set_l_register (sign_extend (overflow_correct (not16 (l_register c))))
double_load_registers false = do
  c ← get
  set_l_register (sign_extend (overflow_correct (l_register c)))

unfoldable pub double_load_memory : ℕ → Bool → M (Unit {0})
double_load_memory k complement = do
  low ← read_register_operand_and_edit k
  high ← read_register_operand_and_edit (k - 1)
  let low' = if complement then not16 low else low
  let high' = if complement then not16 high else high
  set_l_register (sign_extend (overflow_correct low'))
  set_a_register high'

unfoldable pub double_load : ℕ → Bool → M (Unit {0})
unfolding double_load_registers double_load_memory
double_load k complement =
    if k == Central.l then double_load_registers complement else double_load_memory k complement

unfoldable pub double_exchange : ℕ → M (Unit {0})
unfolding double_load_registers
double_exchange k =
    let exchange = (do
      memory_low ← read_register_operand k
      c ← get
      write_register_operand k (l_register c)
      set_l_register (sign_extend (overflow_correct memory_low))
      memory_high ← read_register_operand (k - 1)
      c' ← get
      write_register_operand (k - 1) (a_register c')
      set_a_register memory_high) in
    if k == Central.l then double_load_registers false else exchange

unfoldable pub exchange_register : ℕ → ℕ → M (Unit {0})
exchange_register k index =
    let exchange = (do
      memory_value ← read_register_operand k
      c ← get
      register_value ← lift_memory (central_register c.memory index)
      write_register_operand k register_value
      set_central index memory_value) in
    if k == index
    then pure tt
    else if k == Central.zero && index =/= Central.a
    then set_central index 0
    else exchange

unfoldable pub mask_a : ℕ → M (Unit {0})
mask_a k =
    let register = (do
      rhs ← read_register_operand k
      c ← get
      set_a_register (bit_and (a_register c) rhs)) in
    let word = (do
      rhs ← read_word k
      c ← get
      set_a_word (from_raw_truncate (bit_and (a_word c) rhs))) in
    if ltb k Central.eb then register else word

unfoldable pub multiply : ℕ → M (Unit {0})
multiply k = do
  c ← get
  let a = a_word c
  rhs ← read_word k
  let minus = signs_differ (is_negative a) (is_negative rhs)
  let magnitude = abs (to_i32_lossy_zero a) * abs (to_i32_lossy_zero rhs)
  let product = (do
    result ← lift_word (Double.from_i64 (if minus then neg magnitude else pos magnitude))
    set_a_word result.high
    set_l_word result.low)
  let negative_zeros = (do set_a_word 0o77777; set_l_word 0o77777)
  if magnitude == 0 && minus && is_zero a && not (is_zero rhs) then negative_zeros else product

-- The fifteen-bit difference in two's complement, made one's complement.
unfoldable pub modular_difference : ℕ → ℕ → ℕ
unfolding from_raw_truncate
modular_difference lhs rhs =
    let twos = low_bits (low_bits (lhs + 65536 - rhs) 16) 15 in
    from_raw_truncate
      (if bit_is_set twos 14 then low_bits (low_bits (twos + 65535) 16) 15 else twos)

unfoldable pub modular_subtract : ℕ → M (Unit {0})
unfolding modular_difference
modular_subtract k = do
  rhs ← read_word_and_edit k
  c ← get
  set_a_word (modular_difference (a_word c) rhs)

pub data ChannelLogic : Type 0 where
  and_read or_read xor_read and_write or_write : ChannelLogic

unfoldable pub combine : ChannelLogic → ℕ → ℕ → ℕ
combine and_read a b = bit_and a b
combine and_write a b = bit_and a b
combine or_read a b = bit_or a b
combine or_write a b = bit_or a b
combine xor_read a b = bit_xor a b

unfoldable pub writes_back : ChannelLogic → Bool
writes_back and_write = true
writes_back or_write = true
writes_back _ = false

unfoldable pub channel_logic : ℕ → ChannelLogic → M (Unit {0})
unfolding combine writes_back
channel_logic channel operation =
    let on_register = (do
      c ← get
      current ← lift_memory (central_register c.memory channel)
      let result = combine operation (a_register c) current
      set_a_register result
      if writes_back operation then set_central channel result else pure tt) in
    let on_channel = (do
      current ← read_channel channel
      c ← get
      let result = from_raw_truncate (combine operation (a_word c) current)
      set_a_word result
      if writes_back operation then write_channel channel result else pure tt) in
    if channel == Central.l || channel == Central.q then on_register else on_channel

unfoldable pub resume : M (Unit {0})
resume = do
  c ← get
  zrupt ← lift_memory (central_register c.memory Central.zrupt)
  set_z (low_bits (low_bits (low_bits zrupt 12 + 65535) 16) 12)
  modify λ d. record d { substitute_instruction = true; in_interrupt = false; extended = false }
  push_interrupt resumed
