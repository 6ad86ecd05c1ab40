-- ===== src/Cpu/Safe/Instructions.antt =====
-- crates/agc-cpu/src/lib.rs: the instructions, but DV and `execute` itself, are safe.
use apollo_rs.Prelude.{
  ℕ, ◌≤◌, refl, arith, Bool, true, false, if_cases, if◌then◌else◌, ltb, ◌==◌, ◌||◌,
}
use apollo_rs.Bits.{low_bits, not16, bit_is_set, bit_and-lt, bit_or-lt, bit_xor-lt}
use apollo_rs.Word.{
  IsWord, IsRegister, SignClass, positive_zero, positive, negative_zero, negative, sign_extend,
  from_raw_truncate,
}
use apollo_rs.Register.{overflow_correct, has_overflow, sign_bits}
use apollo_rs.Register.Laws.{
  sign_extend-IsRegister, overflow_correct-IsWord, wrapping_add-IsRegister,
}
use apollo_rs.Memory.Central
use apollo_rs.Cpu.State.{Machine, Cpu, M, pure, ◌>>=◌, ◌>>◌, get}
use apollo_rs.Cpu.Registers.{a_register, l_register, set_a_word, set_z, skip}
use apollo_rs.Cpu.Access.{write_register_operand}
use apollo_rs.Cpu.Arithmetic.{add_double_precision_carry}
use apollo_rs.Cpu.Operations
use apollo_rs.Cpu.Operations.{
  ChannelLogic, combine, and_read, or_read, xor_read, and_write, or_write, writes_back,
}
use apollo_rs.Cpu.Execute
use apollo_rs.Cpu.Clock.Timers.{View, Calm, kept, from_raw_truncate-IsWord}
use apollo_rs.Cpu.Safe.{Safe, Safe-bind, Safe-get, Safe-pure, Safe-modify, Anything}
use apollo_rs.Cpu.Safe.Operands.{
  set_a_register-Safe, set_a_word-Safe, set_z-Safe, skip-Safe, add_register_to_a-Safe,
  read_word-Safe, read_register_operand-Safe, read_register_operand_and_edit-Safe,
  write_register_operand-Safe,
}

pub widened-IsRegister : (x : ℕ) → IsRegister (sign_extend (from_raw_truncate x))
widened-IsRegister x = sign_extend-IsRegister _ (from_raw_truncate-IsWord x)

pub corrected-IsRegister : (r : ℕ) → IsRegister (sign_extend (overflow_correct r))
corrected-IsRegister r = sign_extend-IsRegister _ (overflow_correct-IsWord r)

pub not16-IsRegister : (r : ℕ) → IsRegister (not16 r)
not16-IsRegister r = omega arith

pub carry-IsRegister : (h l : ℕ) → IsRegister h → IsRegister (add_double_precision_carry h l)
unfolding add_double_precision_carry
carry-IsRegister h l k =
    if_cases IsRegister (sign_bits l == 1) _ _ (λ _. wrapping_add-IsRegister h _)
      λ _. if_cases IsRegister (sign_bits l == 2) _ _ (λ _. wrapping_add-IsRegister h _) λ _. k

pub combine-IsRegister :
    (op : ChannelLogic) (a b : ℕ) → IsRegister a → IsRegister b → IsRegister (combine op a b)
unfolding combine
combine-IsRegister and_read a b ha hb = bit_and-lt 16 a b hb
combine-IsRegister and_write a b ha hb = bit_and-lt 16 a b hb
combine-IsRegister or_read a b ha hb = bit_or-lt 16 a b ha hb
combine-IsRegister or_write a b ha hb = bit_or-lt 16 a b ha hb
combine-IsRegister xor_read a b ha hb = bit_xor-lt 16 a b ha hb

module _ (v : View) (n : ℕ) where
  a-IsRegister : (s : Machine) → Calm v n s → IsRegister (a_register s.cpu)
  unfolding a_register
  a-IsRegister s c = c.memory_IsValid.accumulators 0

  l-IsRegister : (s : Machine) → Calm v n s → IsRegister (l_register s.cpu)
  unfolding l_register
  l-IsRegister s c = c.memory_IsValid.accumulators 1

  -- The processor with values that its registers give.
  pub reg_get :
      (f : Cpu → M (Unit {0}))
      → ((c : Cpu)
          → IsRegister (a_register c)
          → IsRegister (l_register c)
          → Safe v n Anything (f c))
      → Safe v n Anything (get >>= f)
  reg_get f h = Safe-get v n Anything f λ s c. h s.cpu (a-IsRegister s c) (l-IsRegister s c)

  pub augment-Safe : (k : ℕ) → k ≤ 0o7777 → Safe v n Anything (Execute.augment k)
  unfolding Execute.augment
  augment-Safe k h =
      Safe-bind v n IsRegister Anything _ _ (read_register_operand-Safe v n k h)
        λ r _. write_register_operand-Safe v n k _ h (wrapping_add-IsRegister r _)

  pub diminish-Safe : (k : ℕ) → k ≤ 0o7777 → Safe v n Anything (Execute.diminish k)
  unfolding Execute.diminish
  diminish-Safe k h =
      Safe-bind v n IsRegister Anything _ _ (read_register_operand-Safe v n k h) λ r _.
        if_cases (Safe v n Anything) (r == 0 || r == 0o177777) _ _
          (λ _. Safe-pure v n Anything tt tt)
          λ _. write_register_operand-Safe v n k _ h (wrapping_add-IsRegister r _)

  pub increment_operand-Safe :
      (k : ℕ) → k ≤ 0o7777 → Safe v n Anything (Execute.increment_operand k)
  unfolding Execute.increment_operand
  increment_operand-Safe k h =
      Safe-bind v n IsRegister Anything _ _ (read_register_operand-Safe v n k h)
        λ r _. write_register_operand-Safe v n k _ h (wrapping_add-IsRegister r _)

  pub add_to_storage-Safe : (k : ℕ) → k ≤ 0o7777 → Safe v n Anything (Execute.add_to_storage k)
  unfolding Execute.add_to_storage
  add_to_storage-Safe k h =
      Safe-bind v n IsRegister Anything _ _ (read_register_operand-Safe v n k h) λ r _.
        Safe-bind v n Anything Anything _ _ (add_register_to_a-Safe v n r) λ _ _.
          reg_get (λ c. write_register_operand k (a_register c))
            λ c a _. write_register_operand-Safe v n k _ h a

  branch-Safe : (k : ℕ) (b : Bool) → Safe v n Anything (if b then set_z k else pure tt)
  branch-Safe k true = set_z-Safe v n k
  branch-Safe k false = Safe-pure v n Anything tt tt

  pub branch_zero-Safe : (k : ℕ) → Safe v n Anything (Execute.branch_zero k)
  unfolding Execute.branch_zero
  branch_zero-Safe k =
      reg_get (λ c. if a_register c == 0 || a_register c == 0o177777 then set_z k else pure tt)
        λ c _ _. branch-Safe k _

  pub branch_zero_minus-Safe : (k : ℕ) → Safe v n Anything (Execute.branch_zero_minus k)
  unfolding Execute.branch_zero_minus
  branch_zero_minus-Safe k =
      reg_get (λ c. if a_register c == 0 || bit_is_set (a_register c) 15 then set_z k else pure tt)
        λ c _ _. branch-Safe k _

  pub index_next-Safe : (k : ℕ) (x : Bool) → k ≤ 0o7777 → Safe v n Anything (Execute.index_next k x)
  unfolding Execute.index_next
  index_next-Safe k x h =
      Safe-bind v n IsWord Anything _ _ (read_word-Safe v n k h)
        λ w _. Safe-modify v n _ λ s c. kept v n s _ refl refl refl c

  skip_by_class-Safe : (c : SignClass) → Safe v n Anything (Operations.skip_by_class c)
  unfolding Operations.skip_by_class
  skip_by_class-Safe positive_zero = skip-Safe v n 1
  skip_by_class-Safe negative_zero = skip-Safe v n 3
  skip_by_class-Safe negative = skip-Safe v n 2
  skip_by_class-Safe positive = Safe-pure v n Anything tt tt

  pub ccs-Safe : (k : ℕ) → k ≤ 0o7777 → Safe v n Anything (Operations.ccs k)
  unfolding Operations.ccs Operations.ccs_skip Operations.diminished
  ccs-Safe k h =
      Safe-bind v n IsRegister Anything _ _ (read_register_operand_and_edit-Safe v n k h) λ r q.
        Safe-bind v n Anything Anything _ _ (set_a_register-Safe v n _ (ground arith)) λ _ _.
          if_cases (Safe v n Anything) (ltb k Central.eb) _ _
            (λ _.
              if_cases (Safe v n Anything) (sign_bits r == 1) _ _
                (λ _. Safe-pure v n Anything tt tt)
                λ _.
                  if_cases (Safe v n Anything) (sign_bits r == 2) _ _ (λ _. skip-Safe v n 2)
                    λ _. skip_by_class-Safe _)
            λ _. skip_by_class-Safe _

  ts_overflow-Safe : (a : ℕ) (b : Bool) → Safe v n Anything (Operations.ts_overflow a b)
  unfolding Operations.ts_overflow
  ts_overflow-Safe a b =
      if_cases (Safe v n Anything) (sign_bits a == 1) _ _
        (λ _. then_skip _ (from_raw_truncate-IsWord 1) b)
        λ _.
          if_cases (Safe v n Anything) (sign_bits a == 2) _ _
            (λ _. then_skip _ (from_raw_truncate-IsWord _) b) λ _. Safe-pure v n Anything tt tt
    where
      then_skip :
          (w : ℕ)
          → IsWord w
          → (b : Bool) → Safe v n Anything (set_a_word w >> (if b then skip 1 else pure tt))
      then_skip w h true =
          Safe-bind v n Anything Anything _ _ (set_a_word-Safe v n w h) λ _ _. skip-Safe v n 1
      then_skip w h false =
          Safe-bind v n Anything Anything _ _ (set_a_word-Safe v n w h)
            λ _ _. Safe-pure v n Anything tt tt

  pub transfer_to_storage-Safe :
      (k : ℕ) → k ≤ 0o7777 → Safe v n Anything (Operations.transfer_to_storage k)
  unfolding Operations.transfer_to_storage
  transfer_to_storage-Safe k h =
      reg_get
        (λ c.
          if k == Central.a
          then if has_overflow (a_register c) then skip 1 else pure tt
          else if k == Central.z
          then set_z (low_bits (a_register c) 12) >> Operations.ts_overflow (a_register c) false
          else write_register_operand k (a_register c)
            >> Operations.ts_overflow (a_register c) true)
        λ c a _.
          if_cases (Safe v n Anything) (k == Central.a) _ _
            (λ _.
              if_cases (Safe v n Anything) (has_overflow (a_register c)) _ _ (λ _. skip-Safe v n 1)
                λ _. Safe-pure v n Anything tt tt)
            λ _.
              if_cases (Safe v n Anything) (k == Central.z) _ _
                (λ _.
                  Safe-bind v n Anything Anything _ _ (set_z-Safe v n _)
                    λ _ _. ts_overflow-Safe (a_register c) false)
                λ _.
                  Safe-bind v n Anything Anything _ _ (write_register_operand-Safe v n k _ h a)
                    λ _ _. ts_overflow-Safe (a_register c) true
