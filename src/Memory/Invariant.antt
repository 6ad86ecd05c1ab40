-- ===== src/Memory/Invariant.antt =====
-- What holds of every memory: the widths of the stored numbers, and the agreement of the three bank
-- registers.
use apollo_rs.Prelude.{ℕ, ◌+◌, ◌/◌, ◌^◌, ◌<◌, ◌≤◌, ◌≡◌, arith, bit_or}
use apollo_rs.Bits.{shr, shl, low_bits, field, bit_or-fields}
use apollo_rs.Word.{IsWord}
use apollo_rs.Memory.Store.{Memory, write_central_raw}

-- EB holds three bits above eight zeros, FB five above ten, and BB both.
pub record BanksAgree (c : ℕ → ℕ) : Type 0 where
  pub eb_field : c 3 ≡ field (c 3) 8 3
  pub fb_field : c 4 ≡ field (c 4) 10 5
  pub combined : c 6 ≡ c 4 + c 3 / 256

pub record IsValid (m : Memory) : Type 0 where
  pub accumulators : (i : ℕ) → m.central i < 2 ^ 16
  pub edits : (i : ℕ) → 16 ≤ i → IsWord (m.central i)
  pub program_counter : m.central 5 < 2 ^ 12
  pub hard_zero : m.central 7 ≡ 0
  pub banks : BanksAgree m.central
  pub erasable_IsWord : (i : ℕ) → IsWord (m.erasable_words i)
  pub fixed_IsWord : (i : ℕ) → IsWord (m.fixed_words i)
  pub channels_IsWord : (i : ℕ) → IsWord (m.channels i)

-- `FB | (EB >> 8)` adds, when both registers hold their fields alone.
sync-sum :
    (e f : ℕ) → e ≡ field e 8 3 → f ≡ field f 10 5 → bit_or f (low_bits (shr e 8) 3) ≡ f + e / 256
sync-sum e f he hf =
    let small : low_bits (shr e 8) 3 ≡ e / 256 = omega arith in
    let high : f ≡ shl (f / 1024) 10 = omega arith in
    rw (small, high) (omega (arith, bit_or-fields 10 (f / 1024) (e / 256) (omega arith)))

-- A write to a central register at its full width keeps the invariant.
module _ (m : Memory) (i raw : ℕ) (v : IsValid m) (h : raw < 2 ^ 16) where
  sync-eb :
      bit_or (m.central 4) (low_bits (shr (field raw 8 3) 8) 3) ≡ m.central 4 + field raw 8 3 / 256
  sync-eb = sync-sum (field raw 8 3) (m.central 4) (omega arith) v.banks.fb_field

  sync-fb :
      bit_or (field raw 10 5) (low_bits (shr (m.central 3) 8) 3)
      ≡ field raw 10 5 + m.central 3 / 256
  sync-fb = sync-sum (m.central 3) (field raw 10 5) v.banks.eb_field (omega arith)

  write_central_raw-lt : (j : ℕ) → (write_central_raw m i raw).central j < 2 ^ 16
  unfolding write_central_raw
  write_central_raw-lt j = ground (
    arith,
    sync-eb,
    sync-fb,
    v.accumulators j,
    v.accumulators 3,
    v.banks.fb_field,
    v.banks.eb_field,
  )

  write_central_raw-edits : (j : ℕ) → 16 ≤ j → IsWord ((write_central_raw m i raw).central j)
  unfolding write_central_raw
  write_central_raw-edits j lo = ground (arith, v.edits j lo)

  write_central_raw-BanksAgree : BanksAgree (write_central_raw m i raw).central
  unfolding write_central_raw
  write_central_raw-BanksAgree = record {
    eb_field = ground (arith, v.banks.eb_field);
    fb_field = ground (arith, v.banks.fb_field);
    combined =
        ground (arith, sync-eb, sync-fb, v.banks.fb_field, v.banks.eb_field, v.banks.combined);
  }

  pub write_central_raw-IsValid : IsValid (write_central_raw m i raw)
  unfolding write_central_raw
  write_central_raw-IsValid = record {
    accumulators = write_central_raw-lt;
    edits = write_central_raw-edits;
    program_counter = ground (arith, v.program_counter);
    hard_zero = ground (arith, v.hard_zero);
    banks = write_central_raw-BanksAgree;
    erasable_IsWord = λ j. ground (arith, v.erasable_IsWord j);
    fixed_IsWord = λ j. ground (arith, v.fixed_IsWord j);
    channels_IsWord = λ j. ground (arith, v.channels_IsWord j);
  }
