-- ===== src/Cpu/Registers.antt =====
-- crates/agc-cpu/src/lib.rs: the registers that the instructions name. The accesses of the source
-- cannot fail at these fixed indices; `Cpu.Interrupts.central_register_total`.
use apollo_rs.Prelude.{ℕ, ◌+◌}
use apollo_rs.Bits.{low_bits}
use apollo_rs.Word.{sign_extend}
use apollo_rs.Register
use apollo_rs.Register.{overflow_correct}
use apollo_rs.Memory.Central
use apollo_rs.Memory.Store.{write_central_raw}
use apollo_rs.Trace.{RegisterSnapshot}
use apollo_rs.Cpu.State.{Cpu, M, modify}

unfoldable pub a_register : Cpu → ℕ
a_register c = c.memory.central Central.a

unfoldable pub a_word : Cpu → ℕ
unfolding a_register
a_word c = overflow_correct (a_register c)

unfoldable pub l_register : Cpu → ℕ
l_register c = c.memory.central Central.l

unfoldable pub program_counter : Cpu → ℕ
program_counter c = low_bits (c.memory.central Central.z) 12

-- `set_central_register`, on the processor.
unfoldable pub with_register : ℕ → ℕ → Cpu → Cpu
with_register index value c = record c { memory = write_central_raw c.memory index value }

unfoldable pub set_a_register : ℕ → M (Unit {0})
set_a_register value = modify (with_register Central.a value)

unfoldable pub set_a_word : ℕ → M (Unit {0})
set_a_word word = modify (with_register Central.a (sign_extend word))

unfoldable pub set_l_register : ℕ → M (Unit {0})
set_l_register value = modify (with_register Central.l value)

unfoldable pub set_l_word : ℕ → M (Unit {0})
unfolding set_l_register
set_l_word word = set_l_register (sign_extend word)

unfoldable pub set_central : ℕ → ℕ → M (Unit {0})
set_central index value = modify (with_register index value)

unfoldable pub set_q_raw : ℕ → M (Unit {0})
set_q_raw raw = modify (with_register Central.q raw)

-- `set_z`, on the processor and as a method.
unfoldable pub with_z : ℕ → Cpu → Cpu
unfolding with_register
with_z address = with_register Central.z (low_bits address 12)

unfoldable pub set_z : ℕ → M (Unit {0})
set_z address = modify (with_z address)

unfoldable pub skip : ℕ → M (Unit {0})
skip words = modify λ c. with_z (low_bits (low_bits (program_counter c + words) 16) 12) c

unfoldable pub add_register_to_a : ℕ → M (Unit {0})
add_register_to_a value =
    modify λ c. with_register Central.a (Register.wrapping_add (a_register c) value) c

unfoldable pub snapshot : Cpu → RegisterSnapshot
snapshot c = record {
  a = c.memory.central Central.a;
  l = c.memory.central Central.l;
  q = c.memory.central Central.q;
  z = c.memory.central Central.z;
  eb = c.memory.central Central.eb;
  fb = c.memory.central Central.fb;
  bb = c.memory.central Central.bb;
}
