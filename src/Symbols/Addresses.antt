-- ===== src/Symbols/Addresses.antt =====
-- crates/agc-symbols/src/lib.rs, `logical_address`, against crates/agc-memory/src/lib.rs, `translate`.
use apollo_rs.Prelude.{
  ℕ, ◌+◌, ◌*◌, ◌<◌, ◌≡◌, arith, true, some, ok, bit_or, leb, ◌==◌, if◌then◌else◌,
}
use apollo_rs.Bits.{shl, bit_or-fields}
use apollo_rs.Memory.Store.{Memory, PhysicalAddress, translate, ebank, selected_fixed_bank}
use apollo_rs.Memory.Store as Store
use apollo_rs.Symbols.Table.{fixed, erasable, logical_address}

-- The logical address of a fixed place whose offset is below 1024 is translated to that place, if
-- the place is in bank 2 or 3 or the memory has its bank selected.
pub translate-fixed_address :
    (m : Memory) (bank offset : ℕ)
    → offset < 1024
    → (if bank == 2 then true else if bank == 3 then true else selected_fixed_bank m == bank) ≡ true
    → (a : ℕ) × (logical_address (fixed bank offset) ≡ some a)
      × (translate m a ≡ ok (Store.fixed bank offset))
unfolding logical_address translate
translate-fixed_address m bank offset h selected =
    let base : ℕ = if bank == 2 then 0o4000 else if bank == 3 then 0o6000 else 0o2000 in
    let two : bit_or 0o4000 offset ≡ 0o4000 + offset = bit_or-fields 10 2 offset h in
    let three : bit_or 0o6000 offset ≡ 0o6000 + offset = bit_or-fields 10 3 offset h in
    let other : bit_or 0o2000 offset ≡ 0o2000 + offset = bit_or-fields 10 1 offset h in
    (base + offset, ground arith, ground arith)

-- The same for an erasable place above the registers, if its bank is one of the first three or the
-- memory has it selected.
pub translate-erasable_address :
    (m : Memory) (bank offset : ℕ)
    → offset < 256
    → (if bank == 0 then leb 0o61 offset else true) ≡ true
    → (if leb bank 2 then true else ebank m == bank) ≡ true
    → (a : ℕ) × (logical_address (erasable bank offset) ≡ some a)
      × (translate m a ≡ ok (Store.erasable bank offset))
unfolding logical_address translate
translate-erasable_address m bank offset h plain selected =
    let unswitched : bit_or (shl bank 8) offset ≡ bank * 256 + offset =
      bit_or-fields 8 bank offset h in
    let switched : bit_or 0o1400 offset ≡ 0o1400 + offset = bit_or-fields 8 3 offset h in
    ((if leb bank 2 then bank * 256 else 0o1400) + offset, ground arith, ground arith)
