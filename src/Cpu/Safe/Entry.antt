-- ===== src/Cpu/Safe/Entry.antt =====
-- crates/agc-cpu/src/lib.rs, `accept_interrupt` and what follows an entry: interrupts are safe.
use apollo_rs.Prelude.{
  ℕ, ◌+◌, ◌<◌, ◌≡◌, refl, arith, true, false, if_cases, if◌then◌else◌, Option, none, some, List, [],
  ◌∷◌, ok, not, ◌&&◌,
}
use apollo_rs.Bits.{low_bits}
use apollo_rs.Word.{IsWord, IsRegister, sign_extend}
use apollo_rs.Register.Laws.{sign_extend-IsRegister}
use apollo_rs.Isa.Mnemonics.{DecodedInstruction}
use apollo_rs.Memory.Central
use apollo_rs.Memory.Store.{Memory, set_central_register, write_central_raw}
use apollo_rs.Memory.Invariant.{IsValid, write_central_raw-IsValid}
use apollo_rs.Cpu.State.{Cpu, M, pure, ◌>>=◌, ◌>>◌, get, modify, lift_memory, set_memory, Interrupt}
use apollo_rs.Cpu.Registers.{set_z}
use apollo_rs.Cpu.Step.{
  enter_interrupt, accept_interrupt, is_edrupt, is_maskable, vector_of, first, rest,
}
use apollo_rs.Cpu.Clock.Timers.{View, kept}
use apollo_rs.Cpu.Safe.{Safe, Safe-bind, Safe-get, Safe-pure, Safe-modify, Anything}
use apollo_rs.Cpu.Safe.Operands.{set_z-Safe, set_memory-Safe, lift_memory-Safe}

-- An instruction for which no interrupt is entered is no EDRUPT.
abbrev pub Declined : DecodedInstruction → Option (Option Interrupt × ℕ) → Type 0
Declined d none = is_edrupt d.mnemonic ≡ false
Declined d (some e) = Unit

module _ (v : View) (n : ℕ) where
  -- A central register of a valid memory is set.
  set_register-Safe :
      (m : Memory) (i r : ℕ)
      → IsValid m
      → i < 16
      → IsRegister r
      → Safe v n IsValid (lift_memory (set_central_register m i r))
  unfolding set_central_register
  set_register-Safe m i r h k q =
      let stores : set_central_register m i r ≡ ok (write_central_raw m i r) = ground (arith, k) in
      lift_memory-Safe v n IsValid _ _ stores (write_central_raw-IsValid m i r h q)

  enter_interrupt-Safe :
      (d : DecodedInstruction) (pc : ℕ) (i : Option Interrupt)
      → IsWord d.raw
      → Safe v n Anything (enter_interrupt d pc i)
  unfolding enter_interrupt
  enter_interrupt-Safe d pc i w =
      let clear : Cpu → Cpu = λ e. record e {
        in_interrupt = true;
        indexed = none;
        substitute_instruction = false;
        extended = false;
      } in
      Safe-get v n Anything
        (λ c. do
          m ←
              lift_memory
                (set_central_register c.memory Central.zrupt (low_bits (low_bits (pc + 1) 16) 12))
          set_memory m
          m' ← lift_memory (set_central_register m Central.brupt (sign_extend d.raw))
          set_memory m'
          set_z (vector_of i)
          modify clear
          pure (i, vector_of i))
        λ s c.
          Safe-bind v n IsValid Anything _ _
            (set_register-Safe s.cpu.memory Central.zrupt _ c.memory_IsValid (omega arith)
              (omega arith))
            λ m h. Safe-bind v n Anything Anything (set_memory m) _ (set_memory-Safe v n m h) λ _ _.
              Safe-bind v n IsValid Anything _ _
                (set_register-Safe m Central.brupt _ h (omega arith)
                  (sign_extend-IsRegister d.raw w))
                λ m' k.
                  Safe-bind v n Anything Anything (set_memory m')
                    (λ _. do set_z (vector_of i); modify clear; pure (i, vector_of i))
                    (set_memory-Safe v n m' k)
                    λ _ _. Safe-bind v n Anything Anything _ _ (set_z-Safe v n (vector_of i)) λ _ _.
                      Safe-bind v n Anything Anything (modify clear) (λ _. pure (i, vector_of i))
                        (Safe-modify v n clear λ t e. kept v n t _ refl refl refl e)
                        λ _ _. Safe-pure v n Anything _ tt

  abbrev entering : DecodedInstruction → ℕ → M (Option (Option Interrupt × ℕ))
  entering d pc = do
    c ← get
    modify λ e. record e { pending_interrupts = rest e.pending_interrupts }
    entry ← enter_interrupt d pc (first c.pending_interrupts)
    pure (some entry)

  entering-Safe :
      (d : DecodedInstruction) (pc : ℕ) → IsWord d.raw → Safe v n (Declined d) (entering d pc)
  entering-Safe d pc w =
      let pops : Cpu → Cpu = λ e. record e { pending_interrupts = rest e.pending_interrupts } in
      Safe-get v n (Declined d)
        (λ c. do
          modify pops
          entry ← enter_interrupt d pc (first c.pending_interrupts)
          pure (some entry))
        λ s c.
          Safe-bind v n Anything (Declined d) (modify pops)
            (λ _. do
              entry ← enter_interrupt d pc (first s.cpu.pending_interrupts)
              pure (some entry))
            (Safe-modify v n pops λ t e. kept v n t _ refl refl refl e)
            λ _ _.
              Safe-bind v n Anything (Declined d)
                (enter_interrupt d pc (first s.cpu.pending_interrupts)) _
                (enter_interrupt-Safe d pc _ w) λ e _. Safe-pure v n (Declined d) (some e) tt

  -- What is pending decides.
  by_pending :
      (d : DecodedInstruction) (pc : ℕ) (is : List Interrupt)
      → IsWord d.raw
      → Safe v n (Declined d) (elim is [
        | [] ↦ (if is_edrupt d.mnemonic then entering d pc else pure none)
        | i ∷ is ↦ entering d pc
      ])
  by_pending d pc [] w =
      if_cases (Safe v n (Declined d)) (is_edrupt d.mnemonic) _ _ (λ _. entering-Safe d pc w)
        λ e. Safe-pure v n (Declined d) none e
  by_pending d pc (i ∷ is) w = entering-Safe d pc w

  pub accept_interrupt-Safe :
      (d : DecodedInstruction) (pc : ℕ)
      → IsWord d.raw
      → Safe v n (Declined d) (accept_interrupt d pc)
  unfolding accept_interrupt
  accept_interrupt-Safe d pc w =
      Safe-get v n (Declined d)
        (λ c.
          if not (is_edrupt d.mnemonic) && not (is_maskable c d)
          then pure none
          else elim c.pending_interrupts [
            | [] ↦ (if is_edrupt d.mnemonic then entering d pc else pure none)
            | i ∷ is ↦ entering d pc
          ])
        λ s c.
          if_cases (Safe v n (Declined d)) (not (is_edrupt d.mnemonic) && not (is_maskable s.cpu d))
            _ _ (λ e. Safe-pure v n (Declined d) none (ground (arith, e)))
            λ _. by_pending d pc s.cpu.pending_interrupts w
