-- ===== src/Cpu/Safe/Divide.antt =====
-- crates/agc-cpu/src/lib.rs, `divide`: DV is safe.
use apollo_rs.Prelude.{
  ℕ, zero, suc, ◌≤◌, ◌≡◌, refl, arith, Bool, true, false, if_cases, if◌then◌else◌, ltb, ◌==◌, ◌=/=◌,
  ◌&&◌, ◌||◌, not, Result, bit_or,
}
use apollo_rs.Prelude.Int.{ℤ, abs}
use apollo_rs.Bits.{shr, shl, low_bits, not16, field, bit_or-lt, bit_is_set}
use apollo_rs.Word.{WordError, IsWord, IsRegister, from_raw_truncate, to_i32_lossy_zero, from_i32}
use apollo_rs.Register.{has_overflow}
use apollo_rs.Memory.Central
use apollo_rs.Memory.Store.{MemoryError}
use apollo_rs.Cpu.State.{Machine, Cpu, M, ◌>>=◌, ◌>>◌, lift_memory, lift_word, push_memory}
use apollo_rs.Cpu.Registers.{
  a_register, l_register, set_a_register, set_a_word, set_l_register, set_l_word,
}
use apollo_rs.Cpu.Arithmetic.{
  signs_differ, divide_round, divide_rounds, simulate_divide, is_positive_overflow,
  normalize_double, absolute_sp, overflow_correct_raw, add_sp16,
}
use apollo_rs.Cpu.Divide
use apollo_rs.Cpu.Interrupts.{central_register_total}
use apollo_rs.Cpu.Safe.Quotient.{division_fits}
use apollo_rs.Word.Integers.{from_i32-to_i32}
use apollo_rs.Prelude.Int.{is_neg}
use apollo_rs.Cpu.Arithmetic.{agc_double_to_i64}
use apollo_rs.Cpu.Clock.Timers.{View, Calm, from_raw_truncate-IsWord}
use apollo_rs.Cpu.Safe.{Safe, Safe-bind, Safe-get, Safe-pure, Anything}
use apollo_rs.Cpu.Safe.Instructions.{reg_get, not16-IsRegister}
use apollo_rs.Cpu.Safe.Doubles.{then_Safe, set_both-Safe}
use apollo_rs.Cpu.Safe.Operands.{
  set_a_word-Safe, set_l_word-Safe, memory_read-Safe, push_memory-Safe, lift_memory-Safe,
}
use apollo_rs.Cpu.Safe.Channels.{lift_word-Safe}

-- The remainder of the divider stays a register.
sign_field-IsRegister : (x : ℕ) → IsRegister (field x 15 1)
sign_field-IsRegister x = omega arith

low-IsRegister : (x : ℕ) → IsRegister (low_bits x 16)
low-IsRegister x = omega arith

narrow-IsRegister : (x : ℕ) → IsRegister (low_bits x 15)
narrow-IsRegister x = omega arith

shr_sign-IsRegister : (x : ℕ) → IsRegister (shr (field x 15 1) 15)
shr_sign-IsRegister x = omega arith

divide_round-IsRegister : (d : ℕ) (p : ℕ × ℕ) → IsRegister (divide_round d p).1
unfolding divide_round add_sp16
divide_round-IsRegister d (q, r) =
    let quotient = low_bits (shl q 1) 16 in
    let sign = field r 15 1 in
    let shifted = bit_or sign (low_bits (shl (low_bits r 14) 1) 16) in
    let remainder =
      if not (bit_is_set quotient 15) then bit_or shifted (shr sign 15) else shifted in
    let sum = add_sp16 remainder d in
    let shifts : IsRegister shifted =
      bit_or-lt 16 _ _ (sign_field-IsRegister r) (low-IsRegister _) in
    if_cases {A = ℕ × ℕ} (λ p. IsRegister p.1) (bit_is_set sum 15) (bit_or quotient 1, sum)
      (quotient, remainder) (λ _. low-IsRegister _)
      λ _.
        if_cases IsRegister (not (bit_is_set quotient 15)) (bit_or shifted (shr sign 15)) shifted
          (λ _. bit_or-lt 16 _ _ shifts (shr_sign-IsRegister r)) λ _. shifts

divide_rounds-IsRegister : (k d : ℕ) (p : ℕ × ℕ) → IsRegister (divide_rounds (suc k) d p).1
unfolding divide_rounds
divide_rounds-IsRegister zero d p = divide_round-IsRegister d p
divide_rounds-IsRegister (suc k) d p = divide_rounds-IsRegister k d (divide_round d p)

-- The last lines of the divider, on the signs and what the rounds left.
divider_end :
    (same minus : Bool) (sign : ℕ) (p : ℕ × ℕ)
    → IsRegister sign
    → IsRegister p.1
    → let a = bit_or sign (low_bits p.0 15) in
      IsRegister (if same then a else not16 a) × IsRegister (if minus then p.1 else not16 p.1)
divider_end same minus sign p h k =
    let a = bit_or sign (low_bits p.0 15) in
    (
      if_cases IsRegister same a (not16 a) (λ _. bit_or-lt 16 _ _ h (narrow-IsRegister p.0))
          (λ _. not16-IsRegister a),
      if_cases IsRegister minus p.1 (not16 p.1) (λ _. k) (λ _. not16-IsRegister p.1),
    )

-- What the divider leaves in A and L are registers.
simulate_divide-IsRegister :
    (a l d : ℕ) → IsRegister (simulate_divide a l d).0 × IsRegister (simulate_divide a l d).1
unfolding simulate_divide
simulate_divide-IsRegister a l d =
    let a₁ = if bit_is_set a 15 then a else not16 a in
    let dividend_sign = if a₁ == 0o177777 then field l 15 1 else field a 15 1 in
    let l₁ = if dividend_sign =/= 0 then not16 l else l in
    let l₂ = add_sp16 l₁ 0o40000 in
    let a₂ = if is_positive_overflow l₂ then a₁ else add_sp16 a₁ 1 in
    let divisor_sign = field d 15 1 in
    let divisor = if divisor_sign =/= 0 then not16 d else d in
    let quotient_sign = field l₂ 15 1 in
    let quotient =
      bit_or (bit_or quotient_sign (low_bits (shl (low_bits l₂ 14) 1) 16)) (shr quotient_sign 15) in
    divider_end (dividend_sign == divisor_sign) (dividend_sign =/= 0) quotient_sign
      (divide_rounds 14 divisor (quotient, a₂)) (sign_field-IsRegister l₂)
      (divide_rounds-IsRegister 13 divisor (quotient, a₂))

overflow_correct_raw-IsWord : (d : ℕ) → IsWord (overflow_correct_raw d)
unfolding overflow_correct_raw
overflow_correct_raw-IsWord d = from_raw_truncate-IsWord _

module _ (v : View) (n : ℕ) where
  from_i32-Safe : (x : ℤ) → abs x ≤ 16383 → Safe v n IsWord (lift_word (from_i32 x))
  from_i32-Safe x h =
      let (w, run, word, value) = from_i32-to_i32 x h in
      lift_word-Safe v n IsWord (from_i32 x) w run word

  remainder_word-Safe :
      (x y : ℤ)
      → abs (Divide.remainder_ℤ x y) ≤ 16383
      → Safe v n IsWord (lift_word (Divide.remainder_word x y))
  unfolding Divide.remainder_word
  remainder_word-Safe x y h =
      if_cases {A = Result WordError ℕ} (λ r. Safe v n {A = ℕ} IsWord (lift_word r))
        (abs (Divide.remainder_ℤ x y) == 0) _ _
        (λ _. Safe-pure v n IsWord (if is_neg x then 0o77777 else 0) (ground arith))
        λ _. from_i32-Safe (Divide.remainder_ℤ x y) h

  abbrev Fits : ℕ → ℕ → Type 0
  Fits decent w =
      let dividend = agc_double_to_i64 decent in
      let divisor = to_i32_lossy_zero w in
      (abs (Divide.quotient_ℤ dividend divisor) ≤ 16383)
      × (abs (Divide.remainder_ℤ dividend divisor) ≤ 16383)

  divide_proper-Safe :
      (decent w : ℕ) → Fits decent w → Safe v n Anything (Divide.divide_proper decent w)
  unfolding Divide.divide_proper
  divide_proper-Safe decent w h =
      let dividend = agc_double_to_i64 decent in
      let divisor = to_i32_lossy_zero w in
      Safe-bind v n IsWord Anything _ _ (from_i32-Safe (Divide.quotient_ℤ dividend divisor) h.0)
        λ a p. then_Safe v n _ _ (set_a_word-Safe v n a p) (
          Safe-bind v n IsWord Anything _ _ (remainder_word-Safe dividend divisor h.1)
            λ l q. set_l_word-Safe v n l q)

  zero_quotient-IsWord : (b c : Bool) → IsWord (Divide.zero_quotient b c)
  unfolding Divide.zero_quotient
  zero_quotient-IsWord b c = ground arith

  equal_quotient-IsWord : (b : Bool) → IsWord (if b then 0o37777 else 0o40000)
  equal_quotient-IsWord b = ground arith

  -- The four cases, on what each leaves.
  abbrev division :
      (simulates empty equal : Bool) → ℕ × ℕ → (quotient high exact decent w : ℕ) → M (Unit {0})
  division simulates empty equal both quotient high exact decent w =
      if simulates
      then (do set_a_register both.0; set_l_register both.1)
      else if empty
      then set_a_word quotient
      else if equal
      then (do set_l_word (from_raw_truncate high); set_a_word exact)
      else Divide.divide_proper decent w

  division-Safe :
      (simulates empty equal : Bool) (both : ℕ × ℕ) (quotient high exact decent w : ℕ)
      → IsRegister both.0 × IsRegister both.1
      → IsWord quotient
      → IsWord exact
      → (simulates ≡ false → empty ≡ false → equal ≡ false → Fits decent w)
      → Safe v n Anything (division simulates empty equal both quotient high exact decent w)
  division-Safe true y z both quotient high exact decent w h q e f = set_both-Safe v n _ _ h.0 h.1
  division-Safe false true z both quotient high exact decent w h q e f = set_a_word-Safe v n _ q
  division-Safe false false true both quotient high exact decent w h q e f =
      then_Safe v n _ _ (set_l_word-Safe v n _ (from_raw_truncate-IsWord _))
        (set_a_word-Safe v n _ e)
  division-Safe false false false both quotient high exact decent w h q e f =
      divide_proper-Safe _ _ (f refl refl refl)

  divide_by-Safe : (d : ℕ) → Safe v n Anything (Divide.divide_by d)
  unfolding Divide.divide_by
  divide_by-Safe d =
      let halves : Cpu → ℕ × ℕ × ℕ = λ c. normalize_double (a_register c) (l_register c) in
      let abs_a : Cpu → ℕ = λ c. absolute_sp (halves c).0 in
      let abs_l : Cpu → ℕ = λ c. absolute_sp (halves c).1 in
      let w = overflow_correct_raw d in
      let abs_k = absolute_sp w in
      let simulates : Cpu → Bool =
        λ c. ltb abs_k (abs_a c) || abs_a c == abs_k && abs_l c =/= 0 || has_overflow d in
      let empty : Cpu → Bool = λ c. abs_a c == 0 && abs_l c == 0 in
      let equal : Cpu → Bool = λ c. abs_a c == abs_k && abs_l c == 0 in
      let same : Cpu → Bool =
        λ c. not (signs_differ (bit_is_set (halves c).1 14) (bit_is_set w 14)) in
      let exact : Cpu → ℕ = λ c. if (halves c).0 == w then 0o37777 else 0o40000 in
      reg_get v n
        (λ c.
          division (simulates c) (empty c) (equal c)
            (simulate_divide (a_register c) (l_register c) d)
            (Divide.zero_quotient (same c) (abs_k == 0)) (halves c).0 (exact c) (halves c).2 w)
        λ c _ _.
          division-Safe (simulates c) (empty c) (equal c)
            (simulate_divide (a_register c) (l_register c) d)
            (Divide.zero_quotient (same c) (abs_k == 0)) (halves c).0 (exact c) (halves c).2 w
            (simulate_divide-IsRegister (a_register c) (l_register c) d)
            (zero_quotient-IsWord (same c) (abs_k == 0)) (equal_quotient-IsWord ((halves c).0 == w))
            λ x y z.
              division_fits (a_register c) (l_register c) w (overflow_correct_raw-IsWord d)
                (ground (arith, x, y, z))

  divisor_of-Safe :
      (s : Machine) (k x w : ℕ)
      → Calm v n s
      → Safe v n Anything (lift_memory (Divide.divisor_of s.cpu k x w))
  unfolding Divide.divisor_of
  divisor_of-Safe s k x w c =
      if_cases {A = Result MemoryError ℕ} (λ r. Safe v n {A = ℕ} Anything (lift_memory r))
        (k == Central.a) _ _ (λ _. Safe-pure v n Anything _ tt)
        λ _.
          if_cases {A = Result MemoryError ℕ} (λ r. Safe v n {A = ℕ} Anything (lift_memory r))
            (k == Central.l) _ _ (λ _. Safe-pure v n Anything _ tt)
            λ _.
              if_cases {A = Result MemoryError ℕ} (λ r. Safe v n {A = ℕ} Anything (lift_memory r))
                (k == Central.z) _ _ (λ _. Safe-pure v n Anything _ tt)
                λ _.
                  if_cases {A = Result MemoryError ℕ}
                    (λ r. Safe v n {A = ℕ} Anything (lift_memory r)) (ltb k Central.eb) _ _
                    (λ e.
                      lift_memory-Safe v n Anything _ _
                        (central_register_total s.cpu.memory k (ground (arith, e))
                          (c.memory_IsValid.accumulators k))
                        tt)
                    λ _. Safe-pure v n Anything _ tt

  pub divide-Safe : (k : ℕ) → k ≤ 0o7777 → Safe v n Anything (Divide.divide k)
  unfolding Divide.divide
  divide-Safe k h =
      Safe-bind v n (λ a. IsWord a.value) Anything _ _ (memory_read-Safe v n k h)
        λ access _. then_Safe v n (push_memory access) _ (push_memory-Safe v n access) (
          Safe-get v n Anything
            (λ c. do
              let (high, low, decent) = normalize_double (a_register c) (l_register c)
              divisor ← lift_memory (Divide.divisor_of c k (absolute_sp high) access.value)
              Divide.divide_by (low_bits divisor 16))
            λ s c.
              Safe-bind v n Anything Anything _ _ (divisor_of-Safe s k _ access.value c)
                λ d _. divide_by-Safe _)
