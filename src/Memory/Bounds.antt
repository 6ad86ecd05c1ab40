-- ===== src/Memory/Bounds.antt =====
-- Address translation stays inside the arrays, and when an access succeeds.
use apollo_rs.Prelude.{ℕ, ◌+◌, ◌*◌, ◌/◌, ◌%◌, ◌<◌, ◌≤◌, ◌≡◌, refl, arith}
use apollo_rs.Prelude.{
  Bool, Bool-cases, inl, inr, true, false, ok, err, ◌==◌, leb, if◌then◌else◌, ◌&&◌, if_cases,
  leb→le, tests, update,
}
use apollo_rs.Memory.Store.{
  Memory, write_access, translate, ebank, selected_fixed_bank, read, write, address_out_of_range,
}
use apollo_rs.Memory.Store.{read_special, write_special, read_physical, write_physical, AccessKind}
use apollo_rs.Memory.Store.{PhysicalAddress, register, erasable, fixed, fixed_write}

-- The address names a central register, an erasable word or a fixed word that exists.
abbrev pub InRange : PhysicalAddress → Type 0
InRange (register i) = i ≤ 0o60
InRange (erasable bank offset) = (bank < 8) × (offset < 256)
InRange (fixed bank offset) = (bank < 36) × (offset < 1024)

pub selected_fixed_bank-lt : (m : Memory) → selected_fixed_bank m < 36
unfolding selected_fixed_bank
selected_fixed_bank-lt m = ground arith

pub ebank-lt : (m : Memory) → ebank m < 8
unfolding ebank
ebank-lt m = omega arith

-- The place that a twelve-bit address names.
unfoldable pub place : Memory → ℕ → PhysicalAddress
place m logical =
    if leb logical 0o60
    then register logical
    else if leb logical 0o1377
    then erasable (logical / 256) (logical % 256)
    else if leb logical 0o1777
    then erasable (ebank m) (logical % 256)
    else if leb logical 0o3777
    then fixed (selected_fixed_bank m) (logical % 1024)
    else if leb logical 0o5777
    then fixed 2 (logical % 1024)
    else fixed 3 (logical % 1024)

pub translate-place :
    (m : Memory) (logical : ℕ) → logical ≤ 0o7777 → translate m logical ≡ ok (place m logical)
unfolding translate place
translate-place m logical h = ground arith

pub place-InRange : (m : Memory) (logical : ℕ) → logical ≤ 0o7777 → InRange (place m logical)
unfolding place
place-InRange m logical h =
    ladder (leb logical 0o60) _ _ (λ a. leb→le logical 0o60 a)
      λ _.
        ladder (leb logical 0o1377) _ _ (λ a. omega tests)
          λ _.
            ladder (leb logical 0o1777) _ _ (λ a. (ebank-lt m, omega arith))
              λ _.
                ladder (leb logical 0o3777) _ _ (λ a. (selected_fixed_bank-lt m, omega arith))
                  λ _. ladder (leb logical 0o5777) _ _ (λ a. omega arith) λ _. omega arith
  where
    ladder :
        (b : Bool) (p q : PhysicalAddress)
        → (b ≡ true → InRange p)
        → (b ≡ false → InRange q)
        → InRange (if b then p else q)
    ladder = if_cases InRange

-- Every twelve-bit address is translated to a place that exists: a register up to 060, a word of one
-- of the 8 erasable banks or a word of one of the 36 fixed banks. Any other address is refused.
pub translate-InRange :
    (m : Memory) (logical : ℕ)
    → if leb logical 0o7777
      then (translate m logical ≡ ok (place m logical)) × InRange (place m logical)
      else translate m logical ≡ err (address_out_of_range logical)
unfolding translate
translate-InRange m logical = elim (Bool-cases (leb logical 0o7777)) [
  | inl e ↦ rw e (translate-place m logical (leb→le _ _ e), place-InRange m logical (leb→le _ _ e))
  | inr e ↦ rw e (ground arith)
]

-- Every place in range holds a word.
present : (m : Memory) (p : PhysicalAddress) → InRange p → (w : ℕ) × (read_physical m p ≡ ok w)
unfolding read_physical
present m (register i) r = (read_special m i, refl)
present m (erasable b o) r = (
  (if b == 0 && leb o 0o60 then read_special m o else m.erasable_words (b * 256 + o)),
  ground arith,
)
present m (fixed b o) r = (m.fixed_words (b * 1024 + o), ground arith)

-- Reading a twelve-bit address never fails, and reads the place that the address names.
pub read_total :
    (m : Memory) (logical : ℕ) (kind : AccessKind)
    → logical ≤ 0o7777
    → (w : ℕ) × (read_physical m (place m logical) ≡ ok w)
      × (read m logical kind
          ≡ ok (record { kind = kind; logical = logical; physical = place m logical; value = w }))
unfolding read
read_total m logical kind h =
    let (w, e) = present m (place m logical) (place-InRange m logical h) in
    (w, e, rw (translate-place m logical h, e))

-- The memory after a word is stored at a place that can be written.
unfoldable pub stored : Memory → PhysicalAddress → ℕ → Memory
stored m (register index) w = write_special m index w
stored m (erasable b o) w =
    if b == 0 && leb o 0o60
    then write_special m o w
    else record m { erasable_words = update m.erasable_words (b * 256 + o) w }
stored m (fixed b o) w = m

-- The place below the fixed memory is not a fixed word.
IsWritable : PhysicalAddress → Type 0
IsWritable (register i) = Unit
IsWritable (erasable b o) = Unit
IsWritable (fixed b o) = ⊥

place-IsWritable : (m : Memory) (logical : ℕ) → logical < 0o2000 → IsWritable (place m logical)
unfolding place IsWritable
place-IsWritable m logical h = ground arith

write_physical-stored :
    (m : Memory) (logical : ℕ) (p : PhysicalAddress) (w : ℕ)
    → IsWritable p
    → write_physical m logical p w ≡ ok (stored m p w)
unfolding write_physical stored IsWritable
write_physical-stored m logical (register i) w h = refl
write_physical-stored m logical (erasable b o) w h = ground arith
write_physical-stored m logical (fixed b o) w h = absurd h

-- A write below the fixed memory never fails: it stores at the place that the address names, and
-- reports the word that the place then holds.
pub write_total :
    (m : Memory) (logical w : ℕ)
    → logical < 0o2000
    → let p = place m logical in
      (v : ℕ) × (read_physical (stored m p w) p ≡ ok v)
      × (write m logical w
          ≡ ok (
            record { kind = write_access; logical = logical; physical = p; value = v },
            stored m p w,
          ))
unfolding write
write_total m logical w h =
    let p = place m logical in
    let (v, e) = present (stored m p w) p (place-InRange m logical (omega arith)) in
    let writes = write_physical-stored m logical p w (place-IsWritable m logical h) in
    (v, e, rw (translate-place m logical (omega arith), writes, e))

-- A write to fixed memory is refused.
pub write_fixed :
    (m : Memory) (logical w : ℕ)
    → 0o2000 ≤ logical
    → logical ≤ 0o7777
    → write m logical w ≡ err (fixed_write logical)
unfolding write place write_physical
write_fixed m logical w lo hi = rw (translate-place m logical hi) (ground arith)
