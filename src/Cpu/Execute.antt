-- ===== src/Cpu/Execute.antt =====
-- crates/agc-cpu/src/lib.rs, `execute`: the transition of each mnemonic.
use apollo_rs.Prelude.{ℕ, Bool, true, false, ◌||◌, some}
use apollo_rs.Prelude.{◌==◌, ◌=/=◌, if◌then◌else◌}
use apollo_rs.Bits.{bit_is_set, not16}
use apollo_rs.Word.{from_raw_truncate, sign_extend}
use apollo_rs.Register
use apollo_rs.Isa.Mnemonics.{Mnemonic, ad, ads, aug, bzf, bzmf, ca, ccs, cs, das}
use apollo_rs.Isa.Mnemonics.{dca, dcs, dim, dv, dxch, edrupt, extend, incr, index, inhint, lxch}
use apollo_rs.Isa.Mnemonics.{mask, mp, msu, qxch, rand, read, relint, resume, ror, rxor, su, tc}
use apollo_rs.Isa.Mnemonics.{tcf, ts, wand, wor, write, xch}
use apollo_rs.Memory.Central
use apollo_rs.Memory.Store.{central_register}
use apollo_rs.Cpu.State.{M, pure, ◌>>=◌, ◌>>◌, get, modify, throw, edrupt_executed, lift_memory}
use apollo_rs.Cpu.Registers.{a_register, a_word, program_counter, set_a_register, set_a_word}
use apollo_rs.Cpu.Registers.{set_central, set_q_raw, set_z, add_register_to_a}
use apollo_rs.Cpu.Access.{read_word, read_register_operand, read_register_operand_and_edit}
use apollo_rs.Cpu.Access.{write_register_operand, read_channel, write_channel}
use apollo_rs.Cpu.Operations
use apollo_rs.Cpu.Operations.{channel_logic, and_read, or_read, xor_read, and_write, or_write}
use apollo_rs.Cpu.Divide.{divide}

-- AUG moves a register away from zero and DIM towards it, by the sign bit.
unfoldable pub augment : ℕ → M (Unit {0})
augment k = do
  value ← read_register_operand k
  let increment = sign_extend (from_raw_truncate (if bit_is_set value 15 then 0o77776 else 1))
  write_register_operand k (Register.wrapping_add value increment)

unfoldable pub diminish : ℕ → M (Unit {0})
diminish k = do
  value ← read_register_operand k
  let increment = sign_extend (from_raw_truncate (if bit_is_set value 15 then 1 else 0o77776))
  if value == 0 || value == 0o177777
      then pure tt
      else write_register_operand k (Register.wrapping_add value increment)

unfoldable pub increment_operand : ℕ → M (Unit {0})
increment_operand k = do
  value ← read_register_operand k
  write_register_operand k (Register.wrapping_add value (sign_extend (from_raw_truncate 1)))

unfoldable pub add_to_storage : ℕ → M (Unit {0})
add_to_storage k = do
  value ← read_register_operand k
  add_register_to_a value
  c ← get
  write_register_operand k (a_register c)

unfoldable pub branch_zero : ℕ → M (Unit {0})
branch_zero k = do
  c ← get
  if a_register c == 0 || a_register c == 0o177777 then set_z k else pure tt

unfoldable pub branch_zero_minus : ℕ → M (Unit {0})
branch_zero_minus k = do
  c ← get
  if a_register c == 0 || bit_is_set (a_register c) 15 then set_z k else pure tt

unfoldable pub index_next : ℕ → Bool → M (Unit {0})
index_next k extended = do
  value ← read_word k
  modify λ c. record c { indexed = some value; extended = extended }

unfoldable pub read_to_a : ℕ → M (Unit {0})
read_to_a k =
    let register = (do
      c ← get
      value ← lift_memory (central_register c.memory k)
      set_a_register value) in
    let channel = (do value ← read_channel k; set_a_word value) in
    if k == Central.l || k == Central.q then register else channel

unfoldable pub write_from_a : ℕ → M (Unit {0})
write_from_a k =
    let register = (do c ← get; set_central k (a_register c)) in
    let channel = (do c ← get; write_channel k (a_word c)) in
    if k == Central.l || k == Central.q then register else channel

unfoldable pub transfer_control : ℕ → M (Unit {0})
transfer_control k = do
  c ← get
  if k =/= Central.q then set_q_raw (program_counter c) else pure tt
  set_z k

-- `execute`, by the mnemonic, the operand and whether the instruction was decoded as extended.
unfoldable pub execute : Mnemonic → ℕ → Bool → M (Unit {0})
execute ad k x = do value ← read_register_operand_and_edit k; add_register_to_a value
execute ads k x = add_to_storage k
execute aug k x = augment k
execute bzf k x = branch_zero k
execute bzmf k x = branch_zero_minus k
execute ca k x = do value ← read_register_operand_and_edit k; set_a_register value
execute ccs k x = Operations.ccs k
execute cs k x = do value ← read_register_operand_and_edit k; set_a_register (not16 value)
execute das k x = Operations.das k
execute dca k x = Operations.double_load k false
execute dcs k x = Operations.double_load k true
execute dim k x = diminish k
execute dv k x = divide k
execute dxch k x = Operations.double_exchange k
execute edrupt k x = throw edrupt_executed
execute extend k x = modify λ c. record c { extended = true }
execute incr k x = increment_operand k
execute index k x = index_next k x
execute inhint k x = modify λ c. record c { interrupt_enabled = false }
execute lxch k x = Operations.exchange_register k Central.l
execute mask k x = Operations.mask_a k
execute mp k x = Operations.multiply k
execute msu k x = Operations.modular_subtract k
execute qxch k x = Operations.exchange_register k Central.q
execute rand k x = channel_logic k and_read
execute read k x = read_to_a k
execute relint k x = modify λ c. record c { interrupt_enabled = true }
execute resume k x = Operations.resume
execute ror k x = channel_logic k or_read
execute rxor k x = channel_logic k xor_read
execute su k x = do value ← read_register_operand_and_edit k; add_register_to_a (not16 value)
execute tc k x = transfer_control k
execute tcf k x = set_z k
execute ts k x = Operations.transfer_to_storage k
execute wand k x = channel_logic k and_write
execute wor k x = channel_logic k or_write
execute write k x = write_from_a k
execute xch k x = Operations.exchange_register k Central.a
