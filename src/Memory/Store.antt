-- ===== src/Memory/Store.antt =====
-- crates/agc-memory/src/lib.rs: `Memory` and its operations. An operation that fails leaves the
-- memory as it was, so its result is either an error or the new memory. The arrays have 49 central
-- registers, 2048 erasable words, 36864 fixed words and 512 channels; `Memory.Bounds` shows that
-- no address reaches past them.
use apollo_rs.Prelude.{ℕ, ◌+◌, ◌*◌, Bool, false, ◌||◌, ◌&&◌}
use apollo_rs.Prelude.{Result, ok, err, bind_ok, leb, ltb, within, ◌==◌, if◌then◌else◌}
use apollo_rs.Prelude.{bit_or, bit_xor, List, length, get_or, update, Option, some, none}
use apollo_rs.Bits.{shr, shl, low_bits, bit_is_set, set_bit, field}
use apollo_rs.Word.{from_raw_truncate, sign_extend}
use apollo_rs.Register.{overflow_correct}
use apollo_rs.Memory.Central

abbrev pub erasable_banks : ℕ
erasable_banks = 8

abbrev pub erasable_words_per_bank : ℕ
erasable_words_per_bank = 256

abbrev pub fixed_banks : ℕ
fixed_banks = 36

abbrev pub fixed_words_per_bank : ℕ
fixed_words_per_bank = 1024

pub data PhysicalAddress : Type 0 where
  register : ℕ → PhysicalAddress
  erasable fixed : ℕ → ℕ → PhysicalAddress

pub data AccessKind : Type 0 where
  fetch read_access write_access : AccessKind

pub record MemoryAccess : Type 0 where
  pub kind : AccessKind
  pub logical : ℕ
  pub physical : PhysicalAddress
  pub value : ℕ

pub data MemoryError : Type 0 where
  address_out_of_range fixed_bank_unavailable fixed_offset_out_of_range : ℕ → MemoryError
  fixed_write : ℕ → MemoryError
  rope_size : ℕ → ℕ → MemoryError

pub record Memory : Type 0 where
  pub central : ℕ → ℕ
  pub erasable_words : ℕ → ℕ
  pub fixed_words : ℕ → ℕ
  pub channels : ℕ → ℕ
  pub superbank : Bool

-- `initialize_input_channels` on zeros.
abbrev pub input_channels : ℕ → ℕ
input_channels =
    update (update (update (update (λ _. 0) 0o30 0o37777) 0o31 0o77777) 0o32 0o77777) 0o33 0o77777

unfoldable pub blank : Memory
blank = record {
  central = λ _. 0;
  erasable_words = λ _. 0;
  fixed_words = λ _. 0;
  channels = input_channels;
  superbank = false;
}

-- `load_rope`.
unfoldable pub load_rope : Memory → List ℕ → Result MemoryError Memory
load_rope m words =
    if length words == fixed_banks * fixed_words_per_bank
    then ok (record m { fixed_words = λ i. get_or words i 0 })
    else err (rope_size (fixed_banks * fixed_words_per_bank) (length words))

unfoldable pub with_rope : List ℕ → Result MemoryError Memory
unfolding load_rope blank
with_rope words = load_rope blank words

unfoldable pub ebank : Memory → ℕ
ebank m = low_bits (shr (m.central Central.eb) 8) 3

unfoldable pub fbank : Memory → ℕ
fbank m = low_bits (shr (m.central Central.fb) 10) 5

unfoldable pub selected_fixed_bank : Memory → ℕ
unfolding fbank
selected_fixed_bank m =
    let bank = fbank m in if m.superbank && within 0o30 0o33 bank then bank + 0o10 else bank

unfoldable pub translate : Memory → ℕ → Result MemoryError PhysicalAddress
translate m logical =
    if ltb 0o7777 logical
    then err (address_out_of_range logical)
    else if leb logical 0o60
    then ok (register logical)
    else if leb logical 0o1377
    then ok (erasable (shr logical 8) (low_bits logical 8))
    else if leb logical 0o1777
    then ok (erasable (ebank m) (low_bits logical 8))
    else if leb logical 0o3777
    then ok (fixed (selected_fixed_bank m) (low_bits logical 10))
    else if leb logical 0o5777
    then ok (fixed 2 (low_bits logical 10))
    else ok (fixed 3 (low_bits logical 10))

unfoldable pub read_special : Memory → ℕ → ℕ
unfolding from_raw_truncate
read_special m index =
    if leb index Central.q
    then overflow_correct (m.central index)
    else if index == Central.z
    then from_raw_truncate (low_bits (m.central Central.z) 12)
    else if index == Central.zero
    then 0
    else from_raw_truncate (m.central index)

unfoldable pub read_physical : Memory → PhysicalAddress → Result MemoryError ℕ
read_physical m (register index) = ok (read_special m index)
read_physical m (erasable bank offset) =
    if bank == 0 && leb offset 0o60
    then ok (read_special m offset)
    else ok (m.erasable_words (bank * erasable_words_per_bank + offset))
read_physical m (fixed bank offset) =
    if leb fixed_banks bank
    then err (fixed_bank_unavailable bank)
    else ok (m.fixed_words (bank * fixed_words_per_bank + offset))

unfoldable pub read : Memory → ℕ → AccessKind → Result MemoryError MemoryAccess
read m logical kind = bind_ok (translate m logical) λ physical.
    bind_ok (read_physical m physical)
      λ value. ok (record { kind = kind; logical = logical; physical = physical; value = value })

unfoldable pub rotate_right : ℕ → ℕ
rotate_right raw = low_bits (bit_or (shr raw 1) (shl (low_bits raw 1) 14)) 15

unfoldable pub rotate_left : ℕ → ℕ
rotate_left raw = low_bits (bit_or (low_bits (shl raw 1) 16) (low_bits (shr raw 14) 1)) 15

unfoldable pub shift_right : ℕ → ℕ
shift_right raw = low_bits (if bit_is_set raw 14 then set_bit (shr raw 1) 14 else shr raw 1) 15

unfoldable pub synchronize_banks : Memory → ℕ → Memory
synchronize_banks m written =
    let bb = m.central Central.bb in
    if written == Central.bb
    then record m {
      central =
          update (update m.central Central.eb (shl (low_bits bb 3) 8)) Central.fb (field bb 10 5);
    }
    else record m {
      central =
          update m.central Central.bb
            (bit_or (m.central Central.fb) (low_bits (shr (m.central Central.eb) 8) 3));
    }

-- `self.central[index] = raw`.
abbrev pub put : Memory → ℕ → ℕ → Memory
put m index raw = record m { central = update m.central index raw }

unfoldable pub write_central_raw : Memory → ℕ → ℕ → Memory
unfolding synchronize_banks
write_central_raw m index raw =
    if leb index Central.q
    then put m index raw
    else if index == Central.z
    then put m index (low_bits raw 12)
    else if index == Central.eb
    then synchronize_banks (put m index (field raw 8 3)) index
    else if index == Central.fb
    then synchronize_banks (put m index (field raw 10 5)) index
    else if index == Central.bb
    then synchronize_banks (put m index (field raw 10 5 + low_bits raw 3)) index
    else if index == Central.zero
    then m
    else if ltb index 0o20
    then put m index raw
    else put m index (low_bits raw 15)

unfoldable pub write_special : Memory → ℕ → ℕ → Memory
write_special m index value =
    if index == 0o20
    then put m index (rotate_right value)
    else if index == 0o21
    then put m index (shift_right value)
    else if index == 0o22
    then put m index (rotate_left value)
    else if index == 0o23
    then put m index (low_bits (shr value 7) 7)
    else if within 0o24 0o60 index
    then put m index value
    else if index == Central.zero
    then m
    else if leb index Central.q
    then write_central_raw m index (sign_extend value)
    else if ltb index 0o20
    then write_central_raw m index value
    else put m index value

-- The register that an operand read rewrites, if it is one of the four edit registers.
unfoldable pub edit_index : PhysicalAddress → Option ℕ
edit_index (register index) = if within 0o20 0o23 index then some index else none
edit_index (erasable bank offset) =
    if bank == 0 && within 0o20 0o23 offset then some offset else none
edit_index (fixed bank offset) = none

-- The memory after the register is rewritten.
unfoldable pub edited : Memory → ℕ → Option ℕ → Memory
edited m value none = m
edited m value (some index) = write_special m index value

unfoldable pub read_and_edit : Memory → ℕ → AccessKind → Result MemoryError (MemoryAccess × Memory)
unfolding read
read_and_edit m logical kind =
    bind_ok (read m logical kind)
      λ access. ok (access, edited m access.value (edit_index access.physical))

-- The assignment of `write`, before the written word is read back.
unfoldable pub write_physical : Memory → ℕ → PhysicalAddress → ℕ → Result MemoryError Memory
write_physical m logical (register index) value = ok (write_special m index value)
write_physical m logical (erasable bank offset) value =
    if bank == 0 && leb offset 0o60
    then ok (write_special m offset value)
    else ok (record m {
      erasable_words = update m.erasable_words (bank * erasable_words_per_bank + offset) value;
    })
write_physical m logical (fixed bank offset) value = err (fixed_write logical)

unfoldable pub write : Memory → ℕ → ℕ → Result MemoryError (MemoryAccess × Memory)
unfolding write_physical
write m logical value = bind_ok (translate m logical) λ physical.
    bind_ok (write_physical m logical physical value) λ m'.
      bind_ok (read_physical m' physical) λ stored.
        ok (
          record { kind = write_access; logical = logical; physical = physical; value = stored },
          m',
        )

unfoldable pub central_register : Memory → ℕ → Result MemoryError ℕ
central_register m index =
    if leb 16 index
    then err (address_out_of_range index)
    else if leb (m.central index) 65535
    then ok (m.central index)
    else err (address_out_of_range index)

unfoldable pub set_central_register : Memory → ℕ → ℕ → Result MemoryError Memory
set_central_register m index value =
    if leb 16 index then err (address_out_of_range index) else ok (write_central_raw m index value)

unfoldable pub read_channel : Memory → ℕ → ℕ
read_channel m channel =
    if channel == 1
    then read_special m Central.l
    else if channel == 2
    then read_special m Central.q
    else m.channels channel

unfoldable pub write_channel : Memory → ℕ → ℕ → Memory
write_channel m channel value =
    let bank_control = low_bits (field value 4 3) 15 in
    if channel == 1
    then write_special m Central.l value
    else if channel == 2
    then write_special m Central.q value
    else if channel == 7
    then record m {
      superbank = bit_is_set bank_control 6;
      channels = update m.channels 7 bank_control;
    }
    else record m { channels = update m.channels channel value }

unfoldable pub reset_volatile : Memory → Memory
reset_volatile m = record m {
  central = λ _. 0;
  erasable_words = λ _. 0;
  channels = input_channels;
  superbank = false;
}

unfoldable pub read_erasable_physical : Memory → ℕ → ℕ → Option ℕ
read_erasable_physical m bank offset =
    if leb erasable_banks bank || leb erasable_words_per_bank offset
    then none
    else if bank == 0 && leb offset 0o60
    then some (read_special m offset)
    else some (m.erasable_words (bank * erasable_words_per_bank + offset))

unfoldable pub write_erasable_physical : Memory → ℕ → ℕ → ℕ → Result MemoryError Memory
write_erasable_physical m bank offset value =
    if leb erasable_banks bank || leb erasable_words_per_bank offset
    then err (address_out_of_range (bit_or (low_bits (shl bank 8) 16) offset))
    else if bank == 0 && leb offset 0o60
    then ok (write_special m offset value)
    else ok (record m {
      erasable_words = update m.erasable_words (bank * erasable_words_per_bank + offset) value;
    })

unfoldable pub inject_fixed_bit_flip : Memory → ℕ → ℕ → ℕ → Result MemoryError (ℕ × Memory)
unfolding from_raw_truncate
inject_fixed_bit_flip m bank offset mask =
    let index = bank * fixed_words_per_bank + offset in
    let flipped = from_raw_truncate (bit_xor (m.fixed_words index) mask) in
    if leb fixed_banks bank
    then err (fixed_bank_unavailable bank)
    else if leb fixed_words_per_bank offset
    then err (fixed_offset_out_of_range offset)
    else ok (flipped, record m { fixed_words = update m.fixed_words index flipped })
