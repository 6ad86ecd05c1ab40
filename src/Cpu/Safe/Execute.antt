-- ===== src/Cpu/Safe/Execute.antt =====
-- crates/agc-cpu/src/lib.rs, `execute`: every decoded instruction but EDRUPT is safe.
use apollo_rs.Prelude.{ℕ, ◌^◌, ◌<◌, ◌≤◌, ◌≡◌, refl, arith, Bool, true, false}
use apollo_rs.Bits.{not16}
use apollo_rs.Word.{IsRegister}
use apollo_rs.Isa.Mnemonics.{
  Mnemonic, ad, ads, aug, bzf, bzmf, ca, ccs, cs, das, dca, dcs, dim, dv, dxch, edrupt, extend,
  incr, index, inhint, lxch, mask, mp, msu, qxch, rand, read, relint, resume, ror, rxor, su, tc,
  tcf, ts, wand, wor, write, xch,
}
use apollo_rs.Isa.RoundTrip.{bits}
use apollo_rs.Memory.Central
use apollo_rs.Cpu.State.{M, ◌>>=◌}
use apollo_rs.Cpu.Registers.{set_a_register, add_register_to_a}
use apollo_rs.Cpu.Access.{read_register_operand_and_edit}
use apollo_rs.Cpu.Step.{is_edrupt}
use apollo_rs.Cpu.Execute.{execute}
use apollo_rs.Cpu.Clock.Timers.{View, kept}
use apollo_rs.Cpu.Safe.{Safe, Safe-bind, Safe-modify, Anything}
use apollo_rs.Cpu.Safe.Operands.{
  set_a_register-Safe, set_z-Safe, add_register_to_a-Safe, read_register_operand_and_edit-Safe,
}
use apollo_rs.Cpu.Safe.Instructions.{
  not16-IsRegister, augment-Safe, diminish-Safe, increment_operand-Safe, add_to_storage-Safe,
  branch_zero-Safe, branch_zero_minus-Safe, index_next-Safe, ccs-Safe, transfer_to_storage-Safe,
}
use apollo_rs.Cpu.Safe.Doubles.{
  das-Safe, double_load-Safe, double_exchange-Safe, exchange_register-Safe, mask_a-Safe,
}
use apollo_rs.Cpu.Safe.Channels.{
  multiply-Safe, modular_subtract-Safe, channel_logic-Safe, read_to_a-Safe, write_from_a-Safe,
  transfer_control-Safe, resume-Safe,
}
use apollo_rs.Cpu.Safe.Divide.{divide-Safe}

module _ (v : View) (n : ℕ) where
  -- An operand is read and used by a method without a result.
  operand_then :
      (k : ℕ) (f : ℕ → M (Unit {0}))
      → k ≤ 0o7777
      → ((r : ℕ) → IsRegister r → Safe v n Anything (f r))
      → Safe v n Anything (read_register_operand_and_edit k >>= f)
  operand_then k f h j =
      Safe-bind v n IsRegister Anything _ f (read_register_operand_and_edit-Safe v n k h) j

  pub execute-Safe :
      (m : Mnemonic) (k : ℕ) (x : Bool)
      → is_edrupt m ≡ false
      → k < 2 ^ bits m x
      → Safe v n Anything (execute m k x)
  unfolding execute
  execute-Safe ad k x e h =
      operand_then k add_register_to_a (omega (arith, h)) λ r _. add_register_to_a-Safe v n r
  execute-Safe ads k x e h = add_to_storage-Safe v n k (omega (arith, h))
  execute-Safe aug k x e h = augment-Safe v n k (omega (arith, h))
  execute-Safe bzf k x e h = branch_zero-Safe v n k
  execute-Safe bzmf k x e h = branch_zero_minus-Safe v n k
  execute-Safe ca k x e h =
      operand_then k set_a_register (omega (arith, h)) λ r q. set_a_register-Safe v n r q
  execute-Safe ccs k x e h = ccs-Safe v n k (omega (arith, h))
  execute-Safe cs k x e h =
      operand_then k (λ r. set_a_register (not16 r)) (omega (arith, h))
        λ r _. set_a_register-Safe v n _ (not16-IsRegister r)
  execute-Safe das k x e h = das-Safe v n k (omega (arith, h))
  execute-Safe dca k x e h = double_load-Safe v n k false (omega (arith, h))
  execute-Safe dcs k x e h = double_load-Safe v n k true (omega (arith, h))
  execute-Safe dim k x e h = diminish-Safe v n k (omega (arith, h))
  execute-Safe dv k x e h = divide-Safe v n k (omega (arith, h))
  execute-Safe dxch k x e h = double_exchange-Safe v n k (omega (arith, h))
  execute-Safe edrupt k x e h = absurd (cc e)
  execute-Safe extend k x e h = Safe-modify v n _ λ s c. kept v n s _ refl refl refl c
  execute-Safe incr k x e h = increment_operand-Safe v n k (omega (arith, h))
  execute-Safe index k false e h = index_next-Safe v n k false (omega (arith, h))
  execute-Safe index k true e h = index_next-Safe v n k true (omega (arith, h))
  execute-Safe inhint k x e h = Safe-modify v n _ λ s c. kept v n s _ refl refl refl c
  execute-Safe lxch k x e h =
      exchange_register-Safe v n k Central.l (omega (arith, h)) (omega arith)
  execute-Safe mask k x e h = mask_a-Safe v n k (omega (arith, h))
  execute-Safe mp k x e h = multiply-Safe v n k (omega (arith, h))
  execute-Safe msu k x e h = modular_subtract-Safe v n k (omega (arith, h))
  execute-Safe qxch k x e h =
      exchange_register-Safe v n k Central.q (omega (arith, h)) (omega arith)
  execute-Safe rand k x e h = channel_logic-Safe v n k _ (omega (arith, h))
  execute-Safe read k x e h = read_to_a-Safe v n k (omega (arith, h))
  execute-Safe relint k x e h = Safe-modify v n _ λ s c. kept v n s _ refl refl refl c
  execute-Safe resume k x e h = resume-Safe v n
  execute-Safe ror k x e h = channel_logic-Safe v n k _ (omega (arith, h))
  execute-Safe rxor k x e h = channel_logic-Safe v n k _ (omega (arith, h))
  execute-Safe su k x e h =
      operand_then k (λ r. add_register_to_a (not16 r)) (omega (arith, h))
        λ r _. add_register_to_a-Safe v n _
  execute-Safe tc k x e h = transfer_control-Safe v n k
  execute-Safe tcf k x e h = set_z-Safe v n k
  execute-Safe ts k x e h = transfer_to_storage-Safe v n k (omega (arith, h))
  execute-Safe wand k x e h = channel_logic-Safe v n k _ (omega (arith, h))
  execute-Safe wor k x e h = channel_logic-Safe v n k _ (omega (arith, h))
  execute-Safe write k x e h = write_from_a-Safe v n k (omega (arith, h))
  execute-Safe xch k x e h = exchange_register-Safe v n k Central.a (omega (arith, h)) (omega arith)
