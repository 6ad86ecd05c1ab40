-- ===== src/Cpu/Safe/Channels.antt =====
-- crates/agc-cpu/src/lib.rs: MP, MSU, the channel instructions, the transfers of control are
-- safe.
use apollo_rs.Prelude.{
  ℕ, ◌+◌, ◌*◌, ◌≤◌, ◌≡◌, refl, arith, Bool, true, false, if_cases, if◌then◌else◌, ok, ◌==◌, ◌=/=◌,
  ◌&&◌, ◌||◌, not, Result,
}
use apollo_rs.Prelude.Int.{pos, neg, abs}
use apollo_rs.Bits.{low_bits}
use apollo_rs.Word.{
  WordError, IsWord, IsRegister, from_raw_truncate, is_negative, is_zero, to_i32_lossy_zero,
}
use apollo_rs.Register.Laws.{overflow_correct-IsWord}
use apollo_rs.Double
use apollo_rs.Double.Laws.{IsDouble, from_i64-to_i64}
use apollo_rs.Memory.Central
use apollo_rs.Memory.Store.{central_register}
use apollo_rs.Trace.{resumed}
use apollo_rs.Cpu.State.{M, pure, ◌>>=◌, ◌>>◌, modify, lift_memory, lift_word, push_interrupt}
use apollo_rs.Cpu.Registers.{
  a_register, a_word, program_counter, set_a_register, set_a_word, set_l_word, set_central,
  set_q_raw, set_z,
}
use apollo_rs.Cpu.Access.{read_word, write_channel}
use apollo_rs.Cpu.Arithmetic.{signs_differ}
use apollo_rs.Cpu.Operations
use apollo_rs.Cpu.Operations.{ChannelLogic, combine, writes_back}
use apollo_rs.Cpu.Execute
use apollo_rs.Cpu.Product.{product-fits}
use apollo_rs.Cpu.Clock.Timers.{View, kept, from_raw_truncate-IsWord}
use apollo_rs.Cpu.Safe.{Safe, Safe-bind, Safe-get, Safe-pure, Safe-modify, Anything}
use apollo_rs.Cpu.Safe.Instructions.{reg_get, combine-IsRegister}
use apollo_rs.Cpu.Safe.Doubles.{then_Safe}
use apollo_rs.Cpu.Safe.Operands.{
  set_a_register-Safe, set_a_word-Safe, set_l_word-Safe, set_central-Safe, set_q_raw-Safe,
  set_z-Safe, central_register-Safe, read_word-Safe, read_word_and_edit-Safe,
}
use apollo_rs.Cpu.Safe.Io.{read_channel-Safe, write_channel-Safe}

module _ (v : View) (n : ℕ) where
  pub lift_word-Safe :
      {A : Type 0} (Q : A → Type 0) (r : Result WordError A) (a : A)
      → r ≡ ok a
      → Q a
      → Safe v n Q (lift_word r)
  lift_word-Safe Q r a e q = rw (e, lift_word) (Safe-pure v n Q a q)

  pub multiply-Safe : (k : ℕ) → k ≤ 0o7777 → Safe v n Anything (Operations.multiply k)
  unfolding Operations.multiply a_word
  multiply-Safe k h =
      Safe-get v n Anything
        (λ c. do
          rhs ← read_word k
          let a = a_word c
          let minus = signs_differ (is_negative a) (is_negative rhs)
          let magnitude = abs (to_i32_lossy_zero a) * abs (to_i32_lossy_zero rhs)
          let product = (do
            result ← lift_word (Double.from_i64 (if minus then neg magnitude else pos magnitude))
            set_a_word result.high
            set_l_word result.low)
          let negative_zeros = (do set_a_word 0o77777; set_l_word 0o77777)
          if magnitude == 0 && minus && is_zero a && not (is_zero rhs)
              then negative_zeros
              else product)
        λ s c. Safe-bind v n IsWord Anything _ _ (read_word-Safe v n k h) λ w q.
          if_cases (Safe v n Anything) _ _ _
            (λ _.
              then_Safe v n _ _ (set_a_word-Safe v n 0o77777 (omega arith))
                (set_l_word-Safe v n 0o77777 (omega arith)))
            λ _.
              let a = a_word s.cpu in
              let m = abs (to_i32_lossy_zero a) * abs (to_i32_lossy_zero w) in
              let product = if signs_differ (is_negative a) (is_negative w) then neg m else pos m in
              let (d, run, words, value) =
                from_i64-to_i64 product (product-fits a w (overflow_correct-IsWord _) q) in
              Safe-bind v n IsDouble Anything (lift_word (Double.from_i64 product)) _
                (lift_word-Safe IsDouble (Double.from_i64 product) d run words)
                λ e p. then_Safe v n _ _ (set_a_word-Safe v n _ p.0) (set_l_word-Safe v n _ p.1)

  pub modular_subtract-Safe :
      (k : ℕ) → k ≤ 0o7777 → Safe v n Anything (Operations.modular_subtract k)
  unfolding Operations.modular_subtract Operations.modular_difference
  modular_subtract-Safe k h =
      Safe-bind v n IsWord Anything _ _ (read_word_and_edit-Safe v n k h) λ w _.
        reg_get v n (λ c. set_a_word (Operations.modular_difference (a_word c) w))
          λ c _ _. set_a_word-Safe v n _ (from_raw_truncate-IsWord _)

  when_Safe :
      (b : Bool) (m : M (Unit {0}))
      → Safe v n Anything m
      → Safe v n Anything (if b then m else pure tt)
  when_Safe b m h = if_cases (Safe v n Anything) b _ _ (λ _. h) λ _. Safe-pure v n Anything tt tt

  pub channel_logic-Safe :
      (k : ℕ) (op : ChannelLogic) → k ≤ 0o777 → Safe v n Anything (Operations.channel_logic k op)
  unfolding Operations.channel_logic
  channel_logic-Safe k op h =
      if_cases (Safe v n Anything) (k == Central.l || k == Central.q) _ _
        (λ e.
          Safe-get v n Anything
            (λ c. do
              current ← lift_memory (central_register c.memory k)
              let result = combine op (a_register c) current
              set_a_register result
              if writes_back op then set_central k result else pure tt)
            λ s c.
              Safe-bind v n IsRegister Anything _ _
                (central_register-Safe v n s k c (ground (arith, e)))
                λ r q.
                  let keeps : IsRegister (combine op (a_register s.cpu) r) =
                    combine-IsRegister op _ r (unfold a_register in c.memory_IsValid.accumulators 0)
                      q in
                  then_Safe v n _ _ (set_a_register-Safe v n _ keeps)
                    (when_Safe _ _ (set_central-Safe v n k _ keeps)))
        λ _. Safe-bind v n IsWord Anything _ _ (read_channel-Safe v n k h) λ w _.
          reg_get v n
            (λ c.
              let result = from_raw_truncate (combine op (a_word c) w) in
              set_a_word result >> (if writes_back op then write_channel k result else pure tt))
            λ c _ _.
              let word = from_raw_truncate-IsWord (combine op (a_word c) w) in
              then_Safe v n _ _ (set_a_word-Safe v n _ word)
                (when_Safe _ _ (write_channel-Safe v n k _ h word))

  pub read_to_a-Safe : (k : ℕ) → k ≤ 0o777 → Safe v n Anything (Execute.read_to_a k)
  unfolding Execute.read_to_a
  read_to_a-Safe k h =
      if_cases (Safe v n Anything) (k == Central.l || k == Central.q) _ _
        (λ e.
          Safe-get v n Anything (λ c. lift_memory (central_register c.memory k) >>= set_a_register)
            λ s c.
              Safe-bind v n IsRegister Anything _ _
                (central_register-Safe v n s k c (ground (arith, e)))
                λ r q. set_a_register-Safe v n r q)
        λ _.
          Safe-bind v n IsWord Anything _ _ (read_channel-Safe v n k h)
            λ w q. set_a_word-Safe v n w q

  pub write_from_a-Safe : (k : ℕ) → k ≤ 0o777 → Safe v n Anything (Execute.write_from_a k)
  unfolding Execute.write_from_a a_word
  write_from_a-Safe k h =
      if_cases (Safe v n Anything) (k == Central.l || k == Central.q) _ _
        (λ e. reg_get v n (λ c. set_central k (a_register c)) λ c a _. set_central-Safe v n k _ a)
        λ _.
          reg_get v n (λ c. write_channel k (a_word c))
            λ c _ _. write_channel-Safe v n k _ h (overflow_correct-IsWord _)

  pub transfer_control-Safe : (k : ℕ) → Safe v n Anything (Execute.transfer_control k)
  unfolding Execute.transfer_control program_counter
  transfer_control-Safe k =
      Safe-get v n Anything
        (λ c. (if k =/= Central.q then set_q_raw (program_counter c) else pure tt) >> set_z k)
        λ s c.
          then_Safe v n _ _ (when_Safe _ _ (set_q_raw-Safe v n _ (omega arith))) (set_z-Safe v n k)

  pub resume-Safe : Safe v n Anything Operations.resume
  unfolding Operations.resume
  resume-Safe =
      Safe-get v n Anything
        (λ c. do
          zrupt ← lift_memory (central_register c.memory Central.zrupt)
          set_z (low_bits (low_bits (low_bits zrupt 12 + 65535) 16) 12)
          modify λ d. record d {
            substitute_instruction = true;
            in_interrupt = false;
            extended = false;
          }
          push_interrupt resumed)
        λ s c.
          Safe-bind v n IsRegister Anything _ _
            (central_register-Safe v n s Central.zrupt c (omega arith))
            λ r _. then_Safe v n _ _ (set_z-Safe v n _) (
              then_Safe v n
                (modify λ d. record d {
                  substitute_instruction = true;
                  in_interrupt = false;
                  extended = false;
                })
                (push_interrupt resumed) (Safe-modify v n _ λ t d. kept v n t _ refl refl refl d)
                (record { runs = λ t d. (tt, kept v n t _ refl refl refl d) }))
