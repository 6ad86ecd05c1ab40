-- ===== src/Isa/Mnemonics.antt =====
-- crates/agc-isa/src/lib.rs: the mnemonics, and the decoded instruction.
use apollo_rs.Prelude.{ℕ, Bool, true, false}

pub data Mnemonic : Type 0 where
  ad ads aug bzf bzmf ca ccs cs das dca : Mnemonic
  dcs dim dv dxch edrupt extend incr index inhint lxch : Mnemonic
  mask mp msu qxch rand read relint resume ror rxor : Mnemonic
  su tc tcf ts wand wor write xch : Mnemonic

-- `Mnemonic::is_extended`.
unfoldable pub is_extended : Mnemonic → Bool
is_extended aug = true
is_extended bzf = true
is_extended bzmf = true
is_extended dca = true
is_extended dcs = true
is_extended dim = true
is_extended dv = true
is_extended edrupt = true
is_extended mp = true
is_extended msu = true
is_extended qxch = true
is_extended rand = true
is_extended read = true
is_extended ror = true
is_extended rxor = true
is_extended su = true
is_extended wand = true
is_extended wor = true
is_extended write = true
is_extended _ = false

pub record DecodedInstruction : Type 0 where
  pub mnemonic : Mnemonic
  pub operand : ℕ
  pub raw : ℕ
  pub extended : Bool
  pub cycles : ℕ
