-- ===== src/Memory/Banks.antt =====
-- The bank registers EB, FB and BB, and the windows that they select.
use apollo_rs.Prelude.{ℕ, ◌+◌, ◌*◌, ◌/◌, ◌%◌, ◌<◌, ◌≡◌, arith}
use apollo_rs.Prelude.{within, if◌then◌else◌, ◌&&◌}
use apollo_rs.Word.{IsWord}
use apollo_rs.Memory.Store.{Memory, ebank, fbank, selected_fixed_bank, read_special, write_special}
use apollo_rs.Memory.Store.{write_central_raw, synchronize_banks, fixed}
use apollo_rs.Memory.Invariant.{IsValid}
use apollo_rs.Memory.Bounds.{place}

-- In a valid memory the combined register BB reads as the fixed bank, above ten bits, and the erasable
-- bank.
pub bb_reads_banks : (m : Memory) → IsValid m → read_special m 6 ≡ fbank m * 1024 + ebank m
unfolding read_special fbank ebank
bb_reads_banks m v = ground (arith, v.banks.eb_field, v.banks.fb_field, v.banks.combined)

-- Writing EB selects the erasable bank alone, writing FB the fixed bank alone, writing BB both.
pub banks-write_special :
    (m : Memory) (w : ℕ)
    → IsWord w
    → (ebank (write_special m 3 w) ≡ w / 256 % 8)
      × (fbank (write_special m 3 w) ≡ fbank m)
      × (ebank (write_special m 4 w) ≡ ebank m)
      × (fbank (write_special m 4 w) ≡ w / 1024)
      × (ebank (write_special m 6 w) ≡ w % 8)
      × (fbank (write_special m 6 w) ≡ w / 1024)
unfolding ebank fbank write_special write_central_raw synchronize_banks
banks-write_special m w h =
    (ground arith, ground arith, ground arith, ground arith, ground arith, ground arith)

-- The window at 02000 shows fixed bank FBANK, but for banks 030 to 033, which the superbank bit
-- replaces by 040 to 043; the fixed-fixed banks 2 and 3 are always at 04000 and 06000.
pub fixed_windows :
    (m : Memory) (offset : ℕ)
    → offset < 1024
    → (place m (0o2000 + offset)
        ≡ fixed (if m.superbank && within 0o30 0o33 (fbank m) then fbank m + 8 else fbank m) offset)
      × (place m (0o4000 + offset) ≡ fixed 2 offset)
      × (place m (0o6000 + offset) ≡ fixed 3 offset)
unfolding place selected_fixed_bank
fixed_windows m offset h = (ground arith, ground arith, ground arith)
