-- ===== src/Cpu/Safe/Operands.antt =====
-- The registers and the operands: each access of `agc-cpu` is safe where its address is
-- in range.
use apollo_rs.Prelude.{
  ℕ, ◌<◌, ◌≤◌, ◌≡◌, refl, arith, if_cases, Bool-cases, inl, inr, Result, ok, ltb, ltb→lt,
}
use apollo_rs.Word.{IsWord, IsRegister}
use apollo_rs.Register.{overflow_correct}
use apollo_rs.Register.Laws.{
  sign_extend-IsRegister, overflow_correct-IsWord, wrapping_add-IsRegister,
}
use apollo_rs.Memory.Central
use apollo_rs.Memory.Store.{
  Memory, MemoryError, MemoryAccess, read_access, write_access, central_register,
  set_central_register, write_central_raw,
}
use apollo_rs.Memory.Invariant.{IsValid, write_central_raw-IsValid}
use apollo_rs.Memory.Total.{write_safe, read_and_edit_safe}
use apollo_rs.Memory.Bounds.{write_fixed}
use apollo_rs.Cpu.State.{Machine, Cpu, ◌>>=◌, ◌>>◌, modify, lift_memory, push_memory, set_memory}
use apollo_rs.Cpu.Registers.{
  with_register, with_z, set_a_register, set_a_word, set_l_register, set_l_word, set_central,
  set_q_raw, set_z, skip, add_register_to_a,
}
use apollo_rs.Cpu.Access
use apollo_rs.Cpu.Clock.Timers.{View, Calm, kept, memory_read-Steady, push_memory-Steady}
use apollo_rs.Cpu.Interrupts.{central_register_total}
use apollo_rs.Cpu.Safe.{
  Safe, Safe-bind, Safe-get, Safe-pure, Steady-Safe, with_register-Safe, Anything,
}

module _ (v : View) (n : ℕ) where
  pub set_a_register-Safe : (r : ℕ) → IsRegister r → Safe v n Anything (set_a_register r)
  unfolding set_a_register
  set_a_register-Safe r h = with_register-Safe v n Central.a r h

  pub set_a_word-Safe : (w : ℕ) → IsWord w → Safe v n Anything (set_a_word w)
  unfolding set_a_word
  set_a_word-Safe w h = with_register-Safe v n Central.a _ (sign_extend-IsRegister w h)

  pub set_l_register-Safe : (r : ℕ) → IsRegister r → Safe v n Anything (set_l_register r)
  unfolding set_l_register
  set_l_register-Safe r h = with_register-Safe v n Central.l r h

  pub set_l_word-Safe : (w : ℕ) → IsWord w → Safe v n Anything (set_l_word w)
  unfolding set_l_word
  set_l_word-Safe w h = with_register-Safe v n Central.l _ (sign_extend-IsRegister w h)

  pub set_central-Safe : (i r : ℕ) → IsRegister r → Safe v n Anything (set_central i r)
  unfolding set_central
  set_central-Safe i r h = with_register-Safe v n i r h

  pub set_q_raw-Safe : (r : ℕ) → IsRegister r → Safe v n Anything (set_q_raw r)
  unfolding set_q_raw
  set_q_raw-Safe r h = with_register-Safe v n Central.q r h

  pub set_z-Safe : (k : ℕ) → Safe v n Anything (set_z k)
  unfolding set_z with_z
  set_z-Safe k = with_register-Safe v n Central.z _ (omega arith)

  -- A register is set to what the processor's own registers give.
  pub update_register-Safe :
      (i : ℕ) (f : Cpu → ℕ)
      → ((s : Machine) → Calm v n s → IsRegister (f s.cpu))
      → Safe v n Anything (modify λ c. with_register i (f c) c)
  unfolding with_register
  update_register-Safe i f h = record {
    runs = λ s c. (
      tt,
      record {
        memory_IsValid =
            write_central_raw-IsValid s.cpu.memory i (f s.cpu) c.memory_IsValid (h s c);
        debt_is = c.debt_is;
        view_is = c.view_is;
      },
    );
  }

  pub skip-Safe : (words : ℕ) → Safe v n Anything (skip words)
  unfolding skip with_z
  skip-Safe words = update_register-Safe Central.z _ λ s c. omega arith

  pub add_register_to_a-Safe : (r : ℕ) → Safe v n Anything (add_register_to_a r)
  unfolding add_register_to_a
  add_register_to_a-Safe r = update_register-Safe Central.a _ λ s c. wrapping_add-IsRegister _ r

  pub lift_memory-Safe :
      {A : Type 0} (Q : A → Type 0) (r : Result MemoryError A) (a : A)
      → r ≡ ok a
      → Q a
      → Safe v n Q (lift_memory r)
  lift_memory-Safe Q r a e q = rw (e, lift_memory) (Safe-pure v n Q a q)

  -- A central register is read.
  pub central_register-Safe :
      (s : Machine) (i : ℕ)
      → Calm v n s
      → i < 16
      → Safe v n IsRegister (lift_memory (central_register s.cpu.memory i))
  central_register-Safe s i c h =
      lift_memory-Safe IsRegister _ _
        (central_register_total s.cpu.memory i h (c.memory_IsValid.accumulators i))
        (c.memory_IsValid.accumulators i)

  pub memory_read-Safe :
      (k : ℕ) → k ≤ 0o7777 → Safe v n (λ a. IsWord a.value) (Access.memory_read k)
  memory_read-Safe k h = Steady-Safe v n _ _ (memory_read-Steady v n k h)

  pub push_memory-Safe : (a : MemoryAccess) → Safe v n Anything (push_memory a)
  push_memory-Safe a = Steady-Safe v n _ _ (push_memory-Steady v n a)

  memory_read_and_edit-Safe :
      (k : ℕ) → k ≤ 0o7777 → Safe v n (λ a. IsWord a.value) (Access.memory_read_and_edit k)
  unfolding Access.memory_read_and_edit
  memory_read_and_edit-Safe k h = record {
    runs = λ s c.
        let (a, m, reads, word, valid) =
          read_and_edit_safe s.cpu.memory k read_access c.memory_IsValid h in
        rw (reads, ◌>>=◌, lift_memory)
          (word, record { memory_IsValid = valid; debt_is = c.debt_is; view_is = c.view_is });
  }

  -- A write below the fixed memory succeeds, and one to fixed memory fails as expected.
  memory_write-Safe :
      (k w : ℕ) → k ≤ 0o7777 → IsWord w → Safe v n Anything (Access.memory_write k w)
  unfolding Access.memory_write
  memory_write-Safe k w h word = record {
    runs = λ s c. elim (Bool-cases (ltb k 0o2000)) [
      | inl e ↦
          let (a, m, writes, valid) =
            write_safe s.cpu.memory k w c.memory_IsValid word (ltb→lt _ _ e) in
          rw (writes, ◌>>=◌, lift_memory)
            (tt, record { memory_IsValid = valid; debt_is = c.debt_is; view_is = c.view_is })
      | inr e ↦
          rw (write_fixed s.cpu.memory k w (ground (arith, e)) h, ◌>>=◌, lift_memory)
            (tt, c.memory_IsValid)
    ];
  }

  pub read_word-Safe : (k : ℕ) → k ≤ 0o7777 → Safe v n IsWord (Access.read_word k)
  unfolding Access.read_word
  read_word-Safe k h =
      Safe-bind v n (λ a. IsWord a.value) IsWord _ _ (memory_read-Safe k h)
        λ a w.
          Safe-bind v n Anything IsWord _ _ (push_memory-Safe a) λ _ _. Safe-pure v n IsWord _ w

  pub read_word_and_edit-Safe : (k : ℕ) → k ≤ 0o7777 → Safe v n IsWord (Access.read_word_and_edit k)
  unfolding Access.read_word_and_edit
  read_word_and_edit-Safe k h =
      Safe-bind v n (λ a. IsWord a.value) IsWord _ _ (memory_read_and_edit-Safe k h)
        λ a w.
          Safe-bind v n Anything IsWord _ _ (push_memory-Safe a) λ _ _. Safe-pure v n IsWord _ w

  operand_value-Safe :
      (k : ℕ) (a : MemoryAccess) → IsWord a.value → Safe v n IsRegister (Access.operand_value k a)
  unfolding Access.operand_value
  operand_value-Safe k a w =
      if_cases (Safe v n IsRegister) (ltb k Central.eb) _ _
        (λ e.
          Safe-get v n IsRegister (λ c. lift_memory (central_register c.memory k))
            λ s c. central_register-Safe s k c (ground (arith, e)))
        λ _. Safe-pure v n IsRegister _ (sign_extend-IsRegister a.value w)

  pub read_register_operand-Safe :
      (k : ℕ) → k ≤ 0o7777 → Safe v n IsRegister (Access.read_register_operand k)
  unfolding Access.read_register_operand
  read_register_operand-Safe k h =
      Safe-bind v n (λ a. IsWord a.value) IsRegister _ _ (memory_read-Safe k h)
        λ a w. Safe-bind v n IsRegister IsRegister _ _ (operand_value-Safe k a w) λ r q.
          Safe-bind v n Anything IsRegister _ _ (push_memory-Safe a)
            λ _ _. Safe-pure v n IsRegister r q

  pub read_register_operand_and_edit-Safe :
      (k : ℕ) → k ≤ 0o7777 → Safe v n IsRegister (Access.read_register_operand_and_edit k)
  unfolding Access.read_register_operand_and_edit
  read_register_operand_and_edit-Safe k h =
      Safe-bind v n (λ a. IsWord a.value) IsRegister _ _ (memory_read_and_edit-Safe k h)
        λ a w. Safe-bind v n IsRegister IsRegister _ _ (operand_value-Safe k a w) λ r q.
          Safe-bind v n Anything IsRegister _ _ (push_memory-Safe a)
            λ _ _. Safe-pure v n IsRegister r q

  pub set_memory-Safe : (m : Memory) → IsValid m → Safe v n Anything (set_memory m)
  set_memory-Safe m h = record {
    runs = λ s c. (tt, record { memory_IsValid = h; debt_is = c.debt_is; view_is = c.view_is });
  }

  note_watchpoint-Safe : (k : ℕ) → Safe v n Anything (Access.note_watchpoint k)
  unfolding Access.note_watchpoint
  note_watchpoint-Safe k = record { runs = λ s c. (tt, kept v n s _ refl refl refl c) }

  write_word-Safe : (k w : ℕ) → k ≤ 0o7777 → IsWord w → Safe v n Anything (Access.write_word k w)
  unfolding Access.write_word
  write_word-Safe k w h word =
      Safe-bind v n Anything Anything _ _ (memory_write-Safe k w h word) λ a _.
        Safe-bind v n Anything Anything _ _ (push_memory-Safe a) λ _ _. note_watchpoint-Safe k

  write_central_operand-Safe :
      (k r : ℕ) → k < 16 → IsRegister r → Safe v n Anything (Access.write_central_operand k r)
  unfolding Access.write_central_operand
  write_central_operand-Safe k r h q =
      Safe-get v n Anything
        (λ c. do
          m ← lift_memory (set_central_register c.memory k r)
          set_memory m
          access ← Access.memory_read k
          push_memory (record access { kind = write_access })
          Access.note_watchpoint k)
        λ s c.
          let stores : set_central_register s.cpu.memory k r
              ≡ ok (write_central_raw s.cpu.memory k r) =
            unfold set_central_register in ground (arith, h) in
          Safe-bind v n IsValid Anything _ _
            (lift_memory-Safe IsValid _ _ stores
              (write_central_raw-IsValid s.cpu.memory k r c.memory_IsValid q))
            λ m valid.
              Safe-bind v n Anything Anything (set_memory m)
                (λ _. do
                  access ← Access.memory_read k
                  push_memory (record access { kind = write_access })
                  Access.note_watchpoint k)
                (set_memory-Safe m valid)
                λ _ _.
                  Safe-bind v n (λ a. IsWord a.value) Anything (Access.memory_read k)
                    (λ access. do
                      push_memory (record access { kind = write_access })
                      Access.note_watchpoint k)
                    (memory_read-Safe k (omega arith))
                    λ a _.
                      Safe-bind v n Anything Anything (push_memory _) _ (push_memory-Safe _)
                        λ _ _. note_watchpoint-Safe k

  pub write_register_operand-Safe :
      (k r : ℕ) → k ≤ 0o7777 → IsRegister r → Safe v n Anything (Access.write_register_operand k r)
  unfolding Access.write_register_operand
  write_register_operand-Safe k r h q =
      if_cases (Safe v n Anything) (ltb k Central.eb) _ _
        (λ e. write_central_operand-Safe k r (ground (arith, e)) q)
        λ _. write_word-Safe k (overflow_correct r) h (overflow_correct-IsWord r)
