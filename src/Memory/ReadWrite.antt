-- ===== src/Memory/ReadWrite.antt =====
-- What a read sees after a write: erasable words through every window, and channels.
use apollo_rs.Prelude.{ℕ, ◌<◌, ◌≤◌, ◌≡◌, arith}
use apollo_rs.Prelude.{Bool, false, ok, bind_ok, ◌==◌, leb, if◌then◌else◌, ◌&&◌}
use apollo_rs.Bits.{field}
use apollo_rs.Word.{IsWord}
use apollo_rs.Register.Laws.{overflow_correct-sign_extend}
use apollo_rs.Memory.Store.{
  Memory, write, ebank, selected_fixed_bank, read, read_special, write_special,
}
use apollo_rs.Memory.Store.{write_central_raw, read_channel, write_channel}
use apollo_rs.Memory.Store.{read_physical, AccessKind}
use apollo_rs.Memory.Store.{PhysicalAddress, register, erasable, fixed}
use apollo_rs.Memory.Bounds.{place, place-InRange, translate-place, write_total, InRange, stored}

-- An erasable word that is no special register.
abbrev pub IsPlain : ℕ → ℕ → Type 0
IsPlain bank offset = (bank == 0 && leb offset 0o60) ≡ false

-- The place is the given erasable word.
abbrev pub is_cell : ℕ → ℕ → PhysicalAddress → Bool
is_cell bank offset (register i) = false
is_cell bank offset (erasable b o) = bank == b && offset == o
is_cell bank offset (fixed b o) = false

-- A plain erasable word that is stored is read back from its place, and from no other.
read_physical-stored :
    (m : Memory) (bank offset w : ℕ) (p : PhysicalAddress)
    → offset < 256
    → IsPlain bank offset
    → InRange p
    → read_physical (stored m (erasable bank offset) w) p
      ≡ (if is_cell bank offset p then ok w else read_physical m p)
unfolding read_physical stored read_special
read_physical-stored m bank offset w (register i) lt plain r = rw plain
read_physical-stored m bank offset w (erasable b o) lt plain r = rw plain (ground arith)
read_physical-stored m bank offset w (fixed b o) lt plain r = rw plain

place-stored :
    (m : Memory) (bank offset w logical : ℕ)
    → IsPlain bank offset
    → place (stored m (erasable bank offset) w) logical ≡ place m logical
unfolding place stored ebank selected_fixed_bank
place-stored m bank offset w logical plain = rw plain

read-stored :
    (m : Memory) (bank offset w logical : ℕ) (kind : AccessKind)
    → offset < 256
    → IsPlain bank offset
    → logical ≤ 0o7777
    → read (stored m (erasable bank offset) w) logical kind ≡ (
        if is_cell bank offset (place m logical)
        then ok (record { kind = kind; logical = logical; physical = place m logical; value = w })
        else read m logical kind)
unfolding read
read-stored m bank offset w logical kind lt plain h =
    let m' = stored m (erasable bank offset) w in
    rw
      (
        translate-place m' logical h,
        translate-place m logical h,
        place-stored m bank offset w logical plain,
        read_physical-stored m bank offset w (place m logical) lt plain (place-InRange m logical h),
      )
      (ground arith)

-- After a word is written to plain erasable memory, a read of any twelve-bit address returns that
-- word if the address names the same place through any window, and otherwise what it returned
-- before.
pub read-write :
    (m : Memory) (target bank offset w logical : ℕ) (kind : AccessKind)
    → target < 0o2000
    → place m target ≡ erasable bank offset
    → IsPlain bank offset
    → logical ≤ 0o7777
    → bind_ok (write m target w) (λ r. read r.1 logical kind) ≡ (
        if is_cell bank offset (place m logical)
        then ok (record { kind = kind; logical = logical; physical = place m logical; value = w })
        else read m logical kind)
read-write m target bank offset w logical kind lo e plain h =
    let (v, _, writes) = write_total m target w lo in
    let range : InRange (erasable bank offset) = rw e at (place-InRange m target (omega arith)) in
    rw (writes, e) (read-stored m bank offset w logical kind range.1 plain h)

-- What a channel keeps of a word: channel 7 only its three bank bits.
abbrev pub kept : ℕ → ℕ → ℕ
kept channel w = if channel == 7 then field w 4 3 else w

-- A word written to a channel is what the channel then reads, channels 1 and 2 being the registers L
-- and Q, and no other channel changes.
pub read_channel-write_channel :
    (m : Memory) (channel other w : ℕ)
    → IsWord w
    → read_channel (write_channel m channel w) other
      ≡ (if channel == other then kept channel w else read_channel m other)
unfolding read_channel write_channel write_special write_central_raw read_special
read_channel-write_channel m channel other w h = ground (arith, overflow_correct-sign_extend w h)
