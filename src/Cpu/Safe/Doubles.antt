-- ===== src/Cpu/Safe/Doubles.antt =====
-- crates/agc-cpu/src/lib.rs: DAS, DCA, DCS, DXCH, the exchanges, MASK, MP, MSU and the channel
-- instructions are safe.
use apollo_rs.Prelude.{
  ℕ, ◌-◌, ◌<◌, ◌≤◌, arith, Bool, true, false, if_cases, if◌then◌else◌, ltb, ◌==◌, ◌=/=◌, ◌&&◌,
  bit_and,
}
use apollo_rs.Bits.{not16, bit_and-lt}
use apollo_rs.Word.{IsWord, IsRegister, sign_extend, from_raw_truncate}
use apollo_rs.Register
use apollo_rs.Register.{overflow_correct, has_overflow, sign_bits}
use apollo_rs.Register.Laws.{wrapping_add-IsRegister}
use apollo_rs.Memory.Central
use apollo_rs.Memory.Store.{central_register}
use apollo_rs.Cpu.State.{M, ◌>>=◌, ◌>>◌, get, lift_memory}
use apollo_rs.Cpu.Registers.{
  a_register, a_word, l_register, set_a_register, set_a_word, set_l_register, set_l_word,
  set_central,
}
use apollo_rs.Cpu.Access.{read_register_operand, write_register_operand}
use apollo_rs.Cpu.Arithmetic.{add_double_precision_carry}
use apollo_rs.Cpu.Operations
use apollo_rs.Cpu.Operations.{ChannelLogic, combine, writes_back}
use apollo_rs.Cpu.Clock.Timers.{View, from_raw_truncate-IsWord}
use apollo_rs.Cpu.Safe.{Safe, Safe-bind, Safe-get, Safe-pure, Anything}
use apollo_rs.Cpu.Safe.Instructions.{
  reg_get, corrected-IsRegister, not16-IsRegister, carry-IsRegister,
}
use apollo_rs.Cpu.Safe.Operands.{
  set_a_register-Safe, set_a_word-Safe, set_l_register-Safe, set_l_word-Safe, set_central-Safe,
  central_register-Safe, read_word-Safe, read_register_operand-Safe,
  read_register_operand_and_edit-Safe, write_register_operand-Safe,
}

complemented-IsRegister : (b : Bool) (r : ℕ) → IsRegister r → IsRegister (if b then not16 r else r)
complemented-IsRegister true r h = not16-IsRegister r
complemented-IsRegister false r h = h

module _ (v : View) (n : ℕ) where
  -- Two methods without a result, one after the other.
  pub then_Safe :
      (m k : M (Unit {0})) → Safe v n Anything m → Safe v n Anything k → Safe v n Anything (m >> k)
  then_Safe m k h j = Safe-bind v n Anything Anything m _ h λ _ _. j

  pub set_both-Safe :
      (a l : ℕ)
      → IsRegister a
      → IsRegister l
      → Safe v n Anything (set_a_register a >> set_l_register l)
  set_both-Safe a l ha hl =
      then_Safe _ _ (set_a_register-Safe v n a ha) (set_l_register-Safe v n l hl)

  das_double-Safe : Safe v n Anything Operations.das_double
  unfolding Operations.das_double
  das_double-Safe =
      reg_get v n
        (λ c.
          let low = Register.wrapping_add (l_register c) (l_register c) in
          let high = Register.wrapping_add (a_register c) (a_register c) in
          set_a_register (add_double_precision_carry high low)
          >> set_l_register (sign_extend (overflow_correct low)))
        λ c _ _.
          set_both-Safe _ _ (carry-IsRegister _ _ (wrapping_add-IsRegister _ _))
            (corrected-IsRegister _)

  -- What DAS stores, from the sum's two halves.
  abbrev das_stored : ℕ → ℕ → ℕ → M (Unit {0})
  das_stored k low high =
      set_a_register
        (if sign_bits high == 2 then 0o177776 else if sign_bits high == 1 then 1 else 0)
      >>= λ _. set_l_word 0 >>= λ _.
          write_register_operand k (sign_extend (overflow_correct low)) >>= λ _.
          write_register_operand (k - 1) high

  das_stored-Safe :
      (k low high : ℕ) → k ≤ 0o7777 → IsRegister high → Safe v n Anything (das_stored k low high)
  das_stored-Safe k low high h q = then_Safe _ _ (set_a_register-Safe v n _ (ground arith)) (
      then_Safe _ _ (set_l_word-Safe v n 0 (omega arith)) (
        then_Safe _ _ (write_register_operand-Safe v n k _ h (corrected-IsRegister low))
          (write_register_operand-Safe v n (k - 1) high (omega arith) q)))

  abbrev das_high : ℕ → ℕ → ℕ
  das_high sum low = if has_overflow low then add_double_precision_carry sum low else sum

  das_high-IsRegister : (sum low : ℕ) → IsRegister sum → IsRegister (das_high sum low)
  das_high-IsRegister sum low h =
      if_cases IsRegister (has_overflow low) _ _ (λ _. carry-IsRegister sum low h) λ _. h

  das_memory-Safe : (k : ℕ) → k ≤ 0o7777 → Safe v n Anything (Operations.das_memory k)
  unfolding Operations.das_memory
  das_memory-Safe k h =
      Safe-bind v n IsRegister Anything _ _ (read_register_operand-Safe v n k h) λ l _.
        Safe-bind v n IsRegister Anything _ _ (read_register_operand-Safe v n (k - 1) (omega arith))
          λ r _.
            reg_get v n
              (λ c.
                let low = Register.wrapping_add (l_register c) l in
                das_stored k low (das_high (Register.wrapping_add (a_register c) r) low))
              λ c _ _.
                das_stored-Safe k _ _ h (das_high-IsRegister _ _ (wrapping_add-IsRegister _ _))

  pub das-Safe : (k : ℕ) → k ≤ 0o7777 → Safe v n Anything (Operations.das k)
  unfolding Operations.das
  das-Safe k h =
      if_cases (Safe v n Anything) (k == Central.l) _ _ (λ _. das_double-Safe)
        λ _. das_memory-Safe k h

  double_load_registers-Safe : (b : Bool) → Safe v n Anything (Operations.double_load_registers b)
  unfolding Operations.double_load_registers
  double_load_registers-Safe true =
      reg_get v n
        (λ c.
          set_a_register (not16 (a_register c))
          >> set_l_register (sign_extend (overflow_correct (not16 (l_register c)))))
        λ c _ _. set_both-Safe _ _ (not16-IsRegister _) (corrected-IsRegister _)
  double_load_registers-Safe false =
      reg_get v n (λ c. set_l_register (sign_extend (overflow_correct (l_register c))))
        λ c _ _. set_l_register-Safe v n _ (corrected-IsRegister _)

  double_load_memory-Safe :
      (k : ℕ) (b : Bool) → k ≤ 0o7777 → Safe v n Anything (Operations.double_load_memory k b)
  unfolding Operations.double_load_memory
  double_load_memory-Safe k b h =
      Safe-bind v n IsRegister Anything _ _ (read_register_operand_and_edit-Safe v n k h) λ l _.
        Safe-bind v n IsRegister Anything _ _
          (read_register_operand_and_edit-Safe v n (k - 1) (omega arith))
          λ r q.
            then_Safe _ _ (set_l_register-Safe v n _ (corrected-IsRegister _))
              (set_a_register-Safe v n _ (complemented-IsRegister b r q))

  pub double_load-Safe :
      (k : ℕ) (b : Bool) → k ≤ 0o7777 → Safe v n Anything (Operations.double_load k b)
  unfolding Operations.double_load
  double_load-Safe k b h =
      if_cases (Safe v n Anything) (k == Central.l) _ _ (λ _. double_load_registers-Safe b)
        λ _. double_load_memory-Safe k b h

  -- The second half of DXCH.
  exchange_high-Safe :
      (k : ℕ)
      → k ≤ 0o7777
      → Safe v n Anything (do
        memory_high ← read_register_operand k
        c ← get
        write_register_operand k (a_register c)
        set_a_register memory_high)
  exchange_high-Safe k h =
      Safe-bind v n IsRegister Anything _ _ (read_register_operand-Safe v n k h) λ r q.
        reg_get v n (λ c. write_register_operand k (a_register c) >> set_a_register r)
          λ c a _.
            then_Safe _ _ (write_register_operand-Safe v n k _ h a) (set_a_register-Safe v n r q)

  pub double_exchange-Safe : (k : ℕ) → k ≤ 0o7777 → Safe v n Anything (Operations.double_exchange k)
  unfolding Operations.double_exchange
  double_exchange-Safe k h =
      if_cases (Safe v n Anything) (k == Central.l) _ _ (λ _. double_load_registers-Safe false)
        λ _. Safe-bind v n IsRegister Anything _ _ (read_register_operand-Safe v n k h) λ l _.
          reg_get v n
            (λ c. do
              write_register_operand k (l_register c)
              set_l_register (sign_extend (overflow_correct l))
              memory_high ← read_register_operand (k - 1)
              c' ← get
              write_register_operand (k - 1) (a_register c')
              set_a_register memory_high)
            λ c _ q. then_Safe _ _ (write_register_operand-Safe v n k _ h q) (
              then_Safe _ _ (set_l_register-Safe v n _ (corrected-IsRegister l))
                (exchange_high-Safe (k - 1) (omega arith)))

  pub exchange_register-Safe :
      (k i : ℕ) → k ≤ 0o7777 → i < 16 → Safe v n Anything (Operations.exchange_register k i)
  unfolding Operations.exchange_register
  exchange_register-Safe k i h j =
      if_cases (Safe v n Anything) (k == i) _ _ (λ _. Safe-pure v n Anything tt tt)
        λ _.
          if_cases (Safe v n Anything) (k == Central.zero && i =/= Central.a) _ _
            (λ _. set_central-Safe v n i 0 (omega arith))
            λ _. Safe-bind v n IsRegister Anything _ _ (read_register_operand-Safe v n k h) λ r q.
              Safe-get v n Anything
                (λ c. do
                  register_value ← lift_memory (central_register c.memory i)
                  write_register_operand k register_value
                  set_central i r)
                λ s c.
                  Safe-bind v n IsRegister Anything _ _ (central_register-Safe v n s i c j) λ w p.
                    then_Safe _ _ (write_register_operand-Safe v n k w h p)
                      (set_central-Safe v n i r q)

  pub mask_a-Safe : (k : ℕ) → k ≤ 0o7777 → Safe v n Anything (Operations.mask_a k)
  unfolding Operations.mask_a
  mask_a-Safe k h =
      if_cases (Safe v n Anything) (ltb k Central.eb) _ _
        (λ _. Safe-bind v n IsRegister Anything _ _ (read_register_operand-Safe v n k h) λ r q.
          reg_get v n (λ c. set_a_register (bit_and (a_register c) r))
            λ c _ _. set_a_register-Safe v n _ (bit_and-lt 16 _ r q))
        λ _. Safe-bind v n IsWord Anything _ _ (read_word-Safe v n k h) λ w _.
          reg_get v n (λ c. set_a_word (from_raw_truncate (bit_and (a_word c) w)))
            λ c _ _. set_a_word-Safe v n _ (from_raw_truncate-IsWord _)
