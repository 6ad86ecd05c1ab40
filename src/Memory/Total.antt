-- ===== src/Memory/Total.antt =====
-- Accesses that succeed and keep the invariant, in one statement.
use apollo_rs.Prelude.{ℕ, ◌<◌, ◌≤◌, ◌≡◌, refl, arith, ok}
use apollo_rs.Word.{IsWord}
use apollo_rs.Memory.Store.{
  Memory, MemoryAccess, AccessKind, blank, write, read_and_edit, edited, edit_index,
}
use apollo_rs.Memory.Invariant.{IsValid}
use apollo_rs.Memory.Keeps.{write-IsValid, read-IsWord, edited-IsValid}
use apollo_rs.Memory.Bounds.{place, read_total, write_total}

-- In a valid memory, a write of a word below the fixed memory succeeds, and leaves a valid memory.
pub write_safe :
    (m : Memory) (logical w : ℕ)
    → IsValid m
    → IsWord w
    → logical < 0o2000
    → (a : MemoryAccess) × (m' : Memory) × (write m logical w ≡ ok (a, m')) × IsValid m'
write_safe m logical w v h lo =
    let (x, _, writes) = write_total m logical w lo in
    (_, _, writes, rw writes at (write-IsValid m logical w v h))

-- In a valid memory, an operand read of any twelve-bit address succeeds, returns a word, and leaves a
-- valid memory.
pub read_and_edit_safe :
    (m : Memory) (logical : ℕ) (kind : AccessKind)
    → IsValid m
    → logical ≤ 0o7777
    → (a : MemoryAccess) × (m' : Memory) × (read_and_edit m logical kind ≡ ok (a, m'))
      × IsWord a.value
      × IsValid m'
unfolding read_and_edit
read_and_edit_safe m logical kind v h =
    let (w, _, reads) = read_total m logical kind h in
    let word : IsWord w = rw reads at (read-IsWord m logical kind v) in
    (
      record { kind = kind; logical = logical; physical = place m logical; value = w },
      edited m w (edit_index (place m logical)),
      rw reads,
      word,
      edited-IsValid m w (edit_index (place m logical)) v word,
    )

-- The blank memory is valid.
pub blank-IsValid : IsValid blank
unfolding blank
blank-IsValid = record {
  accumulators = λ i. omega arith;
  edits = λ i lo. omega arith;
  program_counter = omega arith;
  hard_zero = refl;
  banks = record { eb_field = refl; fb_field = refl; combined = refl };
  erasable_IsWord = λ i. omega arith;
  fixed_IsWord = λ i. omega arith;
  channels_IsWord = λ i. ground arith;
}
