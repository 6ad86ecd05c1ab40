-- ===== src/Tests/Memories.antt =====
-- The memory at concrete states.
use apollo_rs.Prelude.{◌≡◌, refl, arith, ok, bind_ok}
use apollo_rs.Word.{IsWord}
use apollo_rs.Memory.Store.{
  Memory, MemoryAccess, blank, write_special, write_central_raw, synchronize_banks, ebank,
}
use apollo_rs.Memory.Store.{read, write, read_and_edit}
use apollo_rs.Memory.Store.{erasable, fetch, read_access}
use apollo_rs.Memory.Invariant.{IsValid}
use apollo_rs.Memory.Store.{translate}
use apollo_rs.Memory.Keeps.{write_special-IsValid}
use apollo_rs.Memory.Bounds.{place, InRange, translate-InRange}
use apollo_rs.Memory.Total.{blank-IsValid, write_safe, read_and_edit_safe}
use apollo_rs.Memory.ReadWrite.{read-write}

-- Erasable bank 1 is in the window.
abbrev banked : Memory
banked = write_special blank 3 0o400

banked-IsValid : IsValid banked
banked-IsValid = write_special-IsValid blank 3 0o400 blank-IsValid (omega arith)

-- Address 0500 and, through the window, 01500 are one word.
read-write_example :
    bind_ok (write banked 0o500 7) (λ r. read r.1 0o1500 fetch)
    ≡ ok (record { kind = fetch; logical = 0o1500; physical = erasable 1 64; value = 7 })
unfolding place ebank write_special write_central_raw synchronize_banks
read-write_example =
    read-write banked 0o500 1 64 7 0o1500 fetch (omega arith) refl refl (omega arith)

translate-InRange_example :
    (translate banked 0o1500 ≡ ok (place banked 0o1500)) × InRange (place banked 0o1500)
translate-InRange_example = translate-InRange banked 0o1500

write_safe_example :
    (a : MemoryAccess) × (m' : Memory) × (write banked 0o1500 9 ≡ ok (a, m')) × IsValid m'
write_safe_example = write_safe banked 0o1500 9 banked-IsValid (omega arith) (omega arith)

read_and_edit_safe_example :
    (a : MemoryAccess) × (m' : Memory) × (read_and_edit banked 0o20 read_access ≡ ok (a, m'))
    × IsWord a.value
    × IsValid m'
read_and_edit_safe_example = read_and_edit_safe banked 0o20 read_access banked-IsValid (omega arith)
