-- ===== src/Cpu/Product.antt =====
-- crates/agc-cpu/src/lib.rs, `multiply`: MP against the product of integers.
use native.Mathlib.Nat.{mul-le-mul}
use apollo_rs.Prelude.{
  [], ◌∷◌, ◌++◌, ◌&&◌, not, ℕ, zero, suc, ◌-◌, ◌*◌, ◌≤◌, ◌≡◌, refl, sym, ◌∙◌, arith,
}
use apollo_rs.Prelude.{Bool, true, false, Bool-cases, inl, inr, ok, if◌then◌else◌, ◌==◌}
use apollo_rs.Prelude.Int.{ℤ, pos, negsuc, neg, abs}
use apollo_rs.Word.{is_zero, IsWord, sign_extend, is_negative, to_i32_lossy_zero}
use apollo_rs.Double
use apollo_rs.Double.{AgcDoubleWord}
use apollo_rs.Double.Laws.{IsDouble, from_i64-to_i64}
use apollo_rs.Memory.Store.{MemoryAccess, read, write_central_raw, read_access, read_physical}
use apollo_rs.Memory.Invariant.{IsValid}
use apollo_rs.Memory.Keeps.{read_physical-IsWord}
use apollo_rs.Memory.Bounds.{place, read_total}
use apollo_rs.Register.{overflow_correct}
use apollo_rs.Register.Laws.{overflow_correct-sign_extend, overflow_correct-IsWord}
use apollo_rs.Cpu.State.{Cpu, Machine, done, ◌>>=◌, ◌>>◌, lift_memory, lift_word}
use apollo_rs.Cpu.Registers.{
  a_register, a_word, l_register, set_a_word, set_l_word, set_l_register, with_register,
}
use apollo_rs.Cpu.Access.{read_word, memory_read}
use apollo_rs.Cpu.Operations.{multiply}
use apollo_rs.Cpu.Arithmetic.{signs_differ}

-- The product of two integers.
abbrev pub times : ℤ → ℤ → ℤ
times (pos m) (pos n) = pos (m * n)
times (pos m) (negsuc n) = neg (m * suc n)
times (negsuc m) (pos n) = neg (suc m * n)
times (negsuc m) (negsuc n) = pos (suc m * suc n)

pub abs-neg : (m : ℕ) → abs (neg m) ≡ m
abs-neg zero = refl
abs-neg (suc m) = refl

times-neg-neg : (m n : ℕ) → times (neg m) (neg n) ≡ pos (m * n)
times-neg-neg zero zero = refl
times-neg-neg zero (suc n) = let none : 0 * suc n ≡ 0 = omega arith in rw none refl
times-neg-neg (suc m) zero = let none : suc m * 0 ≡ 0 = omega arith in rw none refl
times-neg-neg (suc m) (suc n) = refl

times-neg-pos : (m n : ℕ) → times (neg m) (pos n) ≡ neg (m * n)
times-neg-pos zero n = let none : 0 * n ≡ 0 = omega arith in rw none refl
times-neg-pos (suc m) n = refl

times-pos-neg : (m n : ℕ) → times (pos m) (neg n) ≡ neg (m * n)
times-pos-neg m zero = let none : m * 0 ≡ 0 = omega arith in rw none refl
times-pos-neg m (suc n) = refl

value-negative : (w : ℕ) → IsWord w → is_negative w ≡ true → to_i32_lossy_zero w ≡ neg (32767 - w)
unfolding to_i32_lossy_zero is_negative
value-negative w h e = ground arith

value-positive : (w : ℕ) → IsWord w → is_negative w ≡ false → to_i32_lossy_zero w ≡ pos w
unfolding to_i32_lossy_zero is_negative
value-positive w h e = ground arith

magnitude-bound : (w : ℕ) → IsWord w → abs (to_i32_lossy_zero w) ≤ 16383
unfolding to_i32_lossy_zero is_negative
magnitude-bound w h = ground arith

-- The product of two magnitudes fits 28 bits.
product-bound : (m n : ℕ) → m ≤ 16383 → n ≤ 16383 → m * n ≤ 268435455
product-bound m n hm hn = omega (arith, mul-le-mul hm hn)

-- The product by signs and magnitudes is the product of the integers.
signed_product :
    (a b : ℕ)
    → IsWord a
    → IsWord b
    → (let m = abs (to_i32_lossy_zero a) * abs (to_i32_lossy_zero b) in
        if signs_differ (is_negative a) (is_negative b) then neg m else pos m)
      ≡ times (to_i32_lossy_zero a) (to_i32_lossy_zero b)
signed_product a b ha hb = elim (Bool-cases (is_negative a)) [
  | inl e ↦ elim (Bool-cases (is_negative b)) [
    | inl f ↦
        rw
          (
            value-negative a ha e,
            value-negative b hb f,
            e,
            f,
            abs-neg (32767 - a),
            abs-neg (32767 - b),
            times-neg-neg (32767 - a) (32767 - b),
          )
          refl
    | inr f ↦
        rw
          (
            value-negative a ha e,
            value-positive b hb f,
            e,
            f,
            abs-neg (32767 - a),
            times-neg-pos (32767 - a) b,
          )
          refl
  ]
  | inr e ↦ elim (Bool-cases (is_negative b)) [
    | inl f ↦
        rw
          (
            value-positive a ha e,
            value-negative b hb f,
            e,
            f,
            abs-neg (32767 - b),
            times-pos-neg a (32767 - b),
          )
          refl
    | inr f ↦ rw (value-positive a ha e, value-positive b hb f, e, f) refl
  ]
]

-- The state after A and L are set to two words.
left_in : AgcDoubleWord → Machine → Machine
left_in d u = record u {
  cpu = record u.cpu {
    memory =
        write_central_raw (write_central_raw u.cpu.memory 0 (sign_extend d.high)) 1
          (sign_extend d.low);
  };
}

-- The double word in A and L.
abbrev pub in_registers : Cpu → AgcDoubleWord
in_registers c = record { high = a_word c; low = overflow_correct (l_register c) }

in_registers-left_in :
    (d : AgcDoubleWord) (u : Machine) → IsDouble d → in_registers (left_in d u).cpu ≡ d
unfolding left_in a_word a_register l_register write_central_raw
in_registers-left_in d u h =
    rw ((overflow_correct-sign_extend d.high h.0).0, (overflow_correct-sign_extend d.low h.1).0)
      refl

-- What a read of an operand leaves: the state with the access in its event.
noted : MemoryAccess → Machine → Machine
noted a s = record s {
  event = record s.event {
    memory =
        s.event.memory
        ++ record { kind = a.kind; logical = a.logical; physical = a.physical; value = a.value }
          ∷ [];
  };
}

read_word_run :
    (s : Machine) (k : ℕ) (a : MemoryAccess)
    → read s.cpu.memory k read_access ≡ ok a
    → read_word k s ≡ done a.value (noted a s)
unfolding read_word memory_read noted
read_word_run s k a e = rw (e, ◌>>=◌, lift_memory) refl

-- The four conditions of the case that leaves two negative zeros.
is_zero_case : ℕ → ℕ → Bool
is_zero_case a b =
    abs (to_i32_lossy_zero a) * abs (to_i32_lossy_zero b) == 0
    && signs_differ (is_negative a) (is_negative b)
    && is_zero a
    && not (is_zero b)

zero_case-product :
    (a b : ℕ) → is_zero_case a b ≡ true → abs (to_i32_lossy_zero a) * abs (to_i32_lossy_zero b) ≡ 0
unfolding is_zero_case
zero_case-product a b e = ground arith

zero-times :
    (a b : ℕ)
    → IsWord a
    → IsWord b
    → abs (to_i32_lossy_zero a) * abs (to_i32_lossy_zero b) ≡ 0
    → times (to_i32_lossy_zero a) (to_i32_lossy_zero b) ≡ pos 0
zero-times a b ha hb e = sym (signed_product a b ha hb) ∙ rw e (either_zero _)
  where
    either_zero : (c : Bool) → (if c then neg 0 else pos 0) ≡ pos 0
    either_zero true = refl
    either_zero false = refl

double_zero : Double.to_i64_lossy_zero (record { high = 32767; low = 32767 }) ≡ pos 0
unfolding Double.to_i64_lossy_zero
double_zero = refl

pub abs-signed : (c : Bool) (m : ℕ) → abs (if c then neg m else pos m) ≡ m
abs-signed true m = abs-neg m
abs-signed false m = refl

-- The product fits a double word.
pub product-fits :
    (a b : ℕ)
    → IsWord a
    → IsWord b
    → let m = abs (to_i32_lossy_zero a) * abs (to_i32_lossy_zero b) in
      abs (if signs_differ (is_negative a) (is_negative b) then neg m else pos m) ≤ 268435455
product-fits a b ha hb =
    let m = abs (to_i32_lossy_zero a) * abs (to_i32_lossy_zero b) in
    rw (abs-signed (signs_differ (is_negative a) (is_negative b)) m)
      (product-bound _ _ (magnitude-bound a ha) (magnitude-bound b hb))

-- The result of MP as a double word.
multiplied :
    (a b : ℕ)
    → IsWord a
    → IsWord b
    → (d : AgcDoubleWord) × IsDouble d
      × (Double.to_i64_lossy_zero d ≡ times (to_i32_lossy_zero a) (to_i32_lossy_zero b))
      × ((u : Machine)
          → (if is_zero_case a b then (do set_a_word 0o77777; set_l_word 0o77777) else (do
            result ← lift_word (
                Double.from_i64 (
                  if signs_differ (is_negative a) (is_negative b)
                  then neg (abs (to_i32_lossy_zero a) * abs (to_i32_lossy_zero b))
                  else pos (abs (to_i32_lossy_zero a) * abs (to_i32_lossy_zero b))))
            set_a_word result.high
            set_l_word result.low))
              u
            ≡ done tt (left_in d u))
unfolding set_a_word set_l_word set_l_register with_register left_in
multiplied a b ha hb = elim (Bool-cases (is_zero_case a b)) [
  | inl e ↦
      let negative_zeros : AgcDoubleWord = record { high = 32767; low = 32767 } in
      (
        negative_zeros,
        omega arith,
        double_zero ∙ sym (zero-times a b ha hb (zero_case-product a b e)),
        λ u. rw e refl,
      )
  | inr e ↦
      let minus = signs_differ (is_negative a) (is_negative b) in
      let m = abs (to_i32_lossy_zero a) * abs (to_i32_lossy_zero b) in
      let v : ℤ = if minus then neg m else pos m in
      let fits : abs v ≤ 268435455 = product-fits a b ha hb in
      let (d, run, words, value) = from_i64-to_i64 v fits in
      (d, words, value ∙ signed_product a b ha hb, λ u. rw (e, run, ◌>>=◌, lift_word) refl)
]

-- MP, in a valid memory and for any twelve-bit address, succeeds, and leaves in A and L the double
-- word of the product of the integers that the word in A and the word at the address stand for.
pub multiply-value :
    (s : Machine) (k : ℕ)
    → IsValid s.cpu.memory
    → k ≤ 0o7777
    → (w : ℕ) × (t : Machine) × (read_physical s.cpu.memory (place s.cpu.memory k) ≡ ok w)
      × (multiply k s ≡ done tt t)
      × (Double.to_i64_lossy_zero (in_registers t.cpu)
          ≡ times (to_i32_lossy_zero (a_word s.cpu)) (to_i32_lossy_zero w))
unfolding multiply a_word is_zero_case
multiply-value s k v h =
    let m = s.cpu.memory in
    let (w, there, reads) = read_total m k read_access h in
    let word : IsWord w = rw there at (read_physical-IsWord m (place m k) v) in
    let access : MemoryAccess = record {
      kind = read_access;
      logical = k;
      physical = place m k;
      value = w;
    } in
    let (d, words, value, leaves) =
      multiplied (a_word s.cpu) w (overflow_correct-IsWord (a_register s.cpu)) word in
    (
      w,
      left_in d (noted access s),
      there,
      rw (read_word_run s k access reads, ◌>>=◌) (leaves (noted access s)),
      rw (in_registers-left_in d (noted access s) words) value,
    )
