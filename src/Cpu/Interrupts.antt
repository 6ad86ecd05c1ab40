-- ===== src/Cpu/Interrupts.antt =====
-- Interrupt entry and RESUME.
use apollo_rs.Prelude.{ℕ, ◌+◌, ◌%◌, ◌^◌, ◌<◌, ◌≡◌, refl, ◌∙◌, arith, true, false}
use apollo_rs.Prelude.{[], ◌∷◌, ◌++◌, Option, none, ok}
use apollo_rs.Bits.{low_bits}
use apollo_rs.Word.{IsWord, sign_extend}
use apollo_rs.Isa.Mnemonics.{DecodedInstruction}
use apollo_rs.Memory.Store.{
  Memory, write_central_raw, set_central_register, central_register, read_special,
}
use apollo_rs.Cpu.State.{Machine, done, Interrupt, lift_memory}
use apollo_rs.Trace.{resumed}
use apollo_rs.Cpu.Registers.{program_counter, with_register, with_z, set_z}
use apollo_rs.Cpu.Operations.{resume}
use apollo_rs.Cpu.Step.{enter_interrupt, vector_of, fetch_address}

-- An interrupt is taken, with the given request, saving the given address and instruction.
pub record Entered (d : DecodedInstruction) (pc : ℕ) (i : Option Interrupt) (t : Machine)
    : Type 0 where
  pub return_address : t.cpu.memory.central 13 ≡ low_bits (pc + 1) 12
  pub saved : t.cpu.memory.central 15 ≡ sign_extend d.raw
  pub jumped : program_counter t.cpu ≡ low_bits (vector_of i) 12
  pub inside : t.cpu.in_interrupt ≡ true
  pub plain : t.cpu.extended ≡ false

-- From any state and for any twelve-bit address, the entry succeeds and returns the request with its
-- vector, and the state it leaves has the return address, the address and one, in ZRUPT, the
-- interrupted instruction in BRUPT, the vector in Z, and is in the handler with EXTEND cleared and the same
-- requests pending.
pub enter_interrupt_total :
    (d : DecodedInstruction) (pc : ℕ) (i : Option Interrupt) (s : Machine)
    → pc < 4096
    → (t : Machine) × (enter_interrupt d pc i s ≡ done (i, vector_of i) t)
      × Entered d pc i t
      × (t.cpu.pending_interrupts ≡ s.cpu.pending_interrupts)
unfolding enter_interrupt set_central_register write_central_raw set_z with_z with_register
    program_counter
enter_interrupt_total d pc i s h = (
  record s {
    cpu = record s.cpu {
      memory =
          write_central_raw
            (write_central_raw
              (write_central_raw s.cpu.memory 13 (low_bits (low_bits (pc + 1) 16) 12)) 15
              (sign_extend d.raw))
            5 (low_bits (vector_of i) 12);
      in_interrupt = true;
      indexed = none;
      substitute_instruction = false;
      extended = false;
    };
  },
  refl,
  record {
    return_address = omega arith;
    saved = refl;
    jumped = omega arith;
    inside = refl;
    plain = refl;
  },
  refl,
)

sign_extend-low : (w : ℕ) → IsWord w → sign_extend w % 32768 ≡ w
unfolding sign_extend
sign_extend-low w h = ground arith

-- A central register is read without failing.
pub central_register_total :
    (m : Memory) (i : ℕ) → i < 16 → m.central i < 2 ^ 16 → central_register m i ≡ ok (m.central i)
unfolding central_register
central_register_total m i h k = ground arith

-- The state after RESUME.
resumed_at : ℕ → Machine → Machine
resumed_at zrupt u = record u {
  cpu = record u.cpu {
    memory =
        write_central_raw u.cpu.memory 5
          (low_bits (low_bits (low_bits (low_bits zrupt 12 + 65535) 16) 12) 12);
    substitute_instruction = true;
    in_interrupt = false;
    extended = false;
  };
  event = record u.event { interrupts = u.event.interrupts ++ resumed ∷ [] };
}

resume_total :
    (u : Machine)
    → u.cpu.memory.central 13 < 2 ^ 16
    → resume u ≡ done tt (resumed_at (u.cpu.memory.central 13) u)
unfolding resume set_z with_z with_register resumed_at
resume_total u h = rw (central_register_total u.cpu.memory 13 (omega arith) h, lift_memory)

-- RESUME, in any state where ZRUPT and BRUPT are what the entry stored: it goes back to the
-- interrupted address, leaves the handler, and the next fetch is of the interrupted instruction.
pub resume-enter_interrupt :
    (d : DecodedInstruction) (pc : ℕ) (i : Option Interrupt) (t u : Machine)
    → pc < 4096
    → IsWord d.raw
    → Entered d pc i t
    → u.cpu.memory.central 13 ≡ t.cpu.memory.central 13
    → u.cpu.memory.central 15 ≡ t.cpu.memory.central 15
    → (v : Machine) × (resume u ≡ done tt v)
      × (program_counter v.cpu ≡ pc)
      × (v.cpu.in_interrupt ≡ false)
      × (fetch_address v.cpu ≡ 15)
      × (read_special v.cpu.memory 15 ≡ d.raw)
unfolding program_counter fetch_address read_special resumed_at write_central_raw
resume-enter_interrupt d pc i t u h w e z b =
    let ret : u.cpu.memory.central 13 ≡ (pc + 1) % 4096 = z ∙ e.return_address in
    let word : u.cpu.memory.central 15 ≡ sign_extend d.raw = b ∙ e.saved in
    (
      resumed_at (u.cpu.memory.central 13) u,
      resume_total u (omega arith),
      omega arith,
      refl,
      refl,
      omega (arith, sign_extend-low d.raw w),
    )
