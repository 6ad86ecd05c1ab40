-- ===== src/Memory/Keeps.antt =====
-- Every operation of the memory keeps the invariant.
use apollo_rs.Prelude.{ℕ, ◌+◌, ◌*◌, ◌≤◌, arith, update}
use apollo_rs.Prelude.{
  Bool, ◌==◌, ◌&&◌, Option, some, none, IfOk, IfOk-bind, if_cases, IfOk-trivial, ltb, leb, within,
}
use apollo_rs.Word.{IsWord, IsRegister}
use apollo_rs.Register.Laws.{sign_extend-IsRegister, overflow_correct-IsWord}
use apollo_rs.Memory.Central
use apollo_rs.Memory.Store.{Memory, put, write_special, read_special}
use apollo_rs.Memory.Store.{write, write_physical, read_physical, read, edited, translate}
use apollo_rs.Memory.Store.{write_channel, set_central_register, AccessKind}
use apollo_rs.Memory.Store.{
  PhysicalAddress, register, erasable, fixed, rotate_left, rotate_right, shift_right,
}
use apollo_rs.Memory.Invariant.{IsValid, write_central_raw-IsValid}

rotate_right-IsWord : (w : ℕ) → IsWord (rotate_right w)
unfolding rotate_right
rotate_right-IsWord w = omega arith

rotate_left-IsWord : (w : ℕ) → IsWord (rotate_left w)
unfolding rotate_left
rotate_left-IsWord w = omega arith

shift_right-IsWord : (w : ℕ) → IsWord (shift_right w)
unfolding shift_right
shift_right-IsWord w = omega arith

-- A word put into one of the edit registers, or above them.
put-IsValid : (m : Memory) (i w : ℕ) → IsValid m → 16 ≤ i → IsWord w → IsValid (put m i w)
put-IsValid m i w v lo h = record {
  accumulators = λ j. ground (arith, v.accumulators j);
  edits = λ j e. ground (arith, v.edits j e);
  program_counter = ground (arith, v.program_counter);
  hard_zero = ground (arith, v.hard_zero);
  banks = record {
    eb_field = ground (arith, v.banks.eb_field);
    fb_field = ground (arith, v.banks.fb_field);
    combined = ground (arith, v.banks.combined);
  };
  erasable_IsWord = v.erasable_IsWord;
  fixed_IsWord = v.fixed_IsWord;
  channels_IsWord = v.channels_IsWord;
}

pub write_special-IsValid :
    (m : Memory) (i w : ℕ) → IsValid m → IsWord w → IsValid (write_special m i w)
unfolding write_special
write_special-IsValid m i w v h =
    if_cases IsValid (i == 0o20) _ _
      (λ e. put-IsValid m i _ v (ground arith) (rotate_right-IsWord w))
      λ e0.
        if_cases IsValid (i == 0o21) _ _
          (λ e. put-IsValid m i _ v (ground arith) (shift_right-IsWord w))
          λ e1.
            if_cases IsValid (i == 0o22) _ _
              (λ e. put-IsValid m i _ v (ground arith) (rotate_left-IsWord w))
              λ e2.
                if_cases IsValid (i == 0o23) _ _
                  (λ e. put-IsValid m i _ v (ground arith) (omega arith))
                  λ e3.
                    if_cases IsValid (within 0o24 0o60 i) _ _
                      (λ e. put-IsValid m i w v (ground arith) h)
                      λ e4.
                        if_cases IsValid (i == Central.zero) _ _ (λ e. v)
                          λ e5.
                            if_cases IsValid (leb i Central.q) _ _
                              (λ e. write_central_raw-IsValid m i _ v (sign_extend-IsRegister w h))
                              λ e6.
                                if_cases IsValid (ltb i 0o20) _ _
                                  (λ e. write_central_raw-IsValid m i w v (omega arith))
                                  λ e7. put-IsValid m i w v (ground arith) h

-- A word put into an array of words.
update-IsWord :
    (f : ℕ → ℕ) (i w : ℕ) → ((j : ℕ) → IsWord (f j)) → IsWord w → (j : ℕ) → IsWord (update f i w j)
update-IsWord f i w v h j = ground (arith, v j)

-- A word of plain erasable memory is replaced.
pub update_erasable-IsValid :
    (m : Memory) (i w : ℕ)
    → IsValid m
    → IsWord w
    → IsValid (record m { erasable_words = update m.erasable_words i w })
update_erasable-IsValid m i w v h = record {
  accumulators = v.accumulators;
  edits = v.edits;
  program_counter = v.program_counter;
  hard_zero = v.hard_zero;
  banks = v.banks;
  erasable_IsWord = update-IsWord m.erasable_words i w v.erasable_IsWord h;
  fixed_IsWord = v.fixed_IsWord;
  channels_IsWord = v.channels_IsWord;
}

write_physical-IsValid :
    (m : Memory) (logical : ℕ) (p : PhysicalAddress) (w : ℕ)
    → IsValid m
    → IsWord w
    → IfOk IsValid (write_physical m logical p w)
unfolding write_physical
write_physical-IsValid m logical (register i) w v h = write_special-IsValid m i w v h
write_physical-IsValid m logical (erasable b o) w v h =
    if_cases (IfOk IsValid) (b == 0 && leb o 0o60) _ _ (λ _. write_special-IsValid m o w v h)
      λ _. update_erasable-IsValid m (b * 256 + o) w v h
write_physical-IsValid m logical (fixed b o) w v h = tt

-- A write through a logical address keeps the invariant.
pub write-IsValid :
    (m : Memory) (logical w : ℕ)
    → IsValid m
    → IsWord w
    → IfOk (λ r. IsValid r.1) (write m logical w)
unfolding write
write-IsValid m logical w v h =
    IfOk-bind (λ _. Unit {0}) _ (translate m logical) _ (IfOk-trivial _)
      λ p _.
        IfOk-bind IsValid _ (write_physical m logical p w) _
          (write_physical-IsValid m logical p w v h)
          λ m' v'. IfOk-bind (λ _. Unit {0}) _ (read_physical m' p) _ (IfOk-trivial _) λ _ _. v'

pub set_central_register-IsValid :
    (m : Memory) (i raw : ℕ)
    → IsValid m
    → IsRegister raw
    → IfOk IsValid (set_central_register m i raw)
unfolding set_central_register
set_central_register-IsValid m i raw v h =
    if_cases (IfOk IsValid) (leb 16 i) _ _ (λ _. tt) λ _. write_central_raw-IsValid m i raw v h

-- A word written to any channel of a valid memory leaves a valid memory.
pub write_channel-IsValid :
    (m : Memory) (channel w : ℕ) → IsValid m → IsWord w → IsValid (write_channel m channel w)
unfolding write_channel
write_channel-IsValid m channel w v h =
    if_cases IsValid (channel == 1) _ _ (λ _. write_special-IsValid m 1 w v h)
      λ _.
        if_cases IsValid (channel == 2) _ _ (λ _. write_special-IsValid m 2 w v h)
          λ _.
            if_cases IsValid (channel == 7) _ _
              (λ _. with_channels (update-IsWord m.channels 7 _ v.channels_IsWord (omega arith)))
              λ _. with_channels (update-IsWord m.channels channel w v.channels_IsWord h)
  where
    with_channels :
        {b : Bool} {c : ℕ → ℕ}
        → ((j : ℕ) → IsWord (c j))
        → IsValid (record m { channels = c; superbank = b })
    with_channels k = record {
      accumulators = v.accumulators;
      edits = v.edits;
      program_counter = v.program_counter;
      hard_zero = v.hard_zero;
      banks = v.banks;
      erasable_IsWord = v.erasable_IsWord;
      fixed_IsWord = v.fixed_IsWord;
      channels_IsWord = k;
    }

pub read_special-IsWord : (m : Memory) (i : ℕ) → IsWord (read_special m i)
unfolding read_special
read_special-IsWord m i = ground (arith, overflow_correct-IsWord (m.central i))

pub read_physical-IsWord :
    (m : Memory) (p : PhysicalAddress) → IsValid m → IfOk IsWord (read_physical m p)
unfolding read_physical
read_physical-IsWord m (register i) v = read_special-IsWord m i
read_physical-IsWord m (erasable b o) v =
    if_cases (IfOk IsWord) (b == 0 && leb o 0o60) _ _ (λ _. read_special-IsWord m o)
      λ _. v.erasable_IsWord (b * 256 + o)
read_physical-IsWord m (fixed b o) v =
    if_cases (IfOk IsWord) (leb 36 b) _ _ (λ _. tt) λ _. v.fixed_IsWord (b * 1024 + o)

-- What is read is a word.
pub read-IsWord :
    (m : Memory) (logical : ℕ) (kind : AccessKind)
    → IsValid m
    → IfOk (λ a. IsWord a.value) (read m logical kind)
unfolding read
read-IsWord m logical kind v =
    IfOk-bind (λ _. Unit {0}) _ (translate m logical) _ (IfOk-trivial _)
      λ p _. IfOk-bind IsWord _ (read_physical m p) _ (read_physical-IsWord m p v) λ w h. h

pub edited-IsValid :
    (m : Memory) (w : ℕ) (o : Option ℕ) → IsValid m → IsWord w → IsValid (edited m w o)
unfolding edited
edited-IsValid m w none v h = v
edited-IsValid m w (some i) v h = write_special-IsValid m i w v h
