-- ===== src/Interpreter/Machine.antt =====
-- crates/agc-interpreter/src/lib.rs: the instructions, `execute`, `step` and `run`. What an error leaves
-- behind is not modelled: the state is that of success.
use apollo_rs.Prelude.{
  ℕ, zero, suc, ◌+◌, ◌-◌, ◌/◌, ◌%◌, ◌^◌, Bool, true, false, ◌&&◌, ltb, leb, ◌==◌, if◌then◌else◌,
  Option, none, some, List, [], ◌∷◌, length, Result, ok, err, bind_ok,
}
use apollo_rs.Prelude.Int.{ℤ, pos, negsuc, neg, abs, is_neg, ◌+ℤ◌}
use apollo_rs.Cpu.Product.{times}
use apollo_rs.Cpu.Arithmetic.{signs_differ}
use apollo_rs.Interpreter.Values.{
  Name, Value, scalar, vector, InterpreterError, address, stack_underflow, return_underflow,
  undefined, arithmetic, step_limit, checked_i64, scaled_product, cross_component, checked_neg,
  checked_abs, vector_of, add_values, subtract_values, ensure_value_range, checked_scalar,
  checked_vector,
}
use apollo_rs.Interpreter.Root.{integer_sqrt}

abbrev pub same_name : Name → Name → Bool
same_name [] [] = true
same_name (x ∷ xs) (y ∷ ys) = x == y && same_name xs ys
same_name _ _ = false

pub data Instruction : Type 0 where
  load store : Name → Instruction
  literal : Value → Instruction
  push pop add subtract absolute negate vector_add vector_subtract : Instruction
  dot cross square_root return exit : Instruction
  multiply divide scale : ℕ → Instruction
  branch branch_zero branch_negative call : ℕ → Instruction

-- The stacks have their top in front, and the storage is a function of the name.
pub record State : Type 0 where
  pub pc : ℕ
  pub accumulator : Value
  pub stack : List Value
  pub calls : List ℕ
  pub memory : Name → Option Value
  pub halted : Bool
  pub steps : ℕ

pub record Transition : Type 0 where
  pub at_pc : ℕ
  pub instruction : Instruction
  pub earlier : Value
  pub after : Value

-- `State::default`.
abbrev pub initial_state : State
initial_state = record {
  pc = 0;
  accumulator = scalar (pos 0);
  stack = [];
  calls = [];
  memory = λ _. none;
  halted = false;
  steps = 0;
}

-- `self.state.accumulator = value?`.
abbrev pub accumulate : State → Result InterpreterError Value → Result InterpreterError State
accumulate s r = bind_ok r λ v. ok (record s { accumulator = v })

-- `self.state.stack.pop().ok_or(StackUnderflow)?`.
abbrev pub popping :
    State → (Value → State → Result InterpreterError State) → Result InterpreterError State
popping s f = elim s.stack [ [] ↦ err stack_underflow | v ∷ vs ↦ f v (record s { stack = vs }) ]

unfoldable pub set_target : State → ℕ → ℕ → Result InterpreterError State
set_target s target program_len =
    if leb program_len target then err (address target) else ok (record s { pc = target })

-- A signed number of 128 bits.
abbrev pub wrap_i128 : ℤ → ℤ
wrap_i128 (pos n) =
    let low = n % 2 ^ 128 in if ltb low (2 ^ 127) then pos low else neg (2 ^ 128 - low)
wrap_i128 (negsuc n) =
    let low = n % 2 ^ 128 in if ltb low (2 ^ 127) then negsuc low else pos (2 ^ 128 - 1 - low)

-- `checked_shl` refuses a count of 128 or more, and drops the bits above.
unfoldable pub scaled_quotient : ℤ → ℤ → ℕ → Result InterpreterError ℤ
unfolding checked_i64
scaled_quotient numerator denominator fraction_bits =
    let scaled = wrap_i128 (times numerator (pos (2 ^ fraction_bits))) in
    let magnitude = abs scaled / abs denominator in
    if abs denominator == 0
    then err arithmetic
    else if leb 128 fraction_bits
    then err arithmetic
    else checked_i64
        (if signs_differ (is_neg scaled) (is_neg denominator) then neg magnitude else pos magnitude)

-- `checked_add` on `i128`.
abbrev pub checked_sum : ℤ → ℤ → Result InterpreterError ℤ
checked_sum (pos m) x = elim (pos m +ℤ x) [
  | pos n ↦ (if ltb n (2 ^ 127) then ok (pos n) else err arithmetic)
  | negsuc n ↦ (if ltb n (2 ^ 127) then ok (negsuc n) else err arithmetic)
]
checked_sum (negsuc m) x = elim (negsuc m +ℤ x) [
  | pos n ↦ (if ltb n (2 ^ 127) then ok (pos n) else err arithmetic)
  | negsuc n ↦ (if ltb n (2 ^ 127) then ok (negsuc n) else err arithmetic)
]

unfoldable pub dot_product : ℤ × ℤ × ℤ → ℤ × ℤ × ℤ → Result InterpreterError ℤ
unfolding checked_i64
dot_product (a, b, c) (x, y, z) =
    bind_ok (checked_sum (pos 0) (times a x))
      λ p. bind_ok (checked_sum p (times b y)) λ q. bind_ok (checked_sum q (times c z)) checked_i64

unfoldable pub cross_product : ℤ × ℤ × ℤ → ℤ × ℤ × ℤ → Result InterpreterError Value
unfolding cross_component
cross_product (a, b, c) (x, y, z) =
    vector_of (cross_component b z c y) (cross_component c x a z) (cross_component a y b x)

unfoldable pub scaled_vector : ℤ × ℤ × ℤ → ℤ → ℕ → Result InterpreterError Value
unfolding scaled_product
scaled_vector (a, b, c) x bits =
    vector_of (scaled_product a x bits) (scaled_product b x bits) (scaled_product c x bits)

unfoldable pub negated_value : Value → Result InterpreterError Value
unfolding checked_neg
negated_value (scalar v) = bind_ok (checked_neg v) λ n. ok (scalar n)
negated_value (vector a b c) = vector_of (checked_neg a) (checked_neg b) (checked_neg c)

-- The root of a scalar. The loop of `integer_sqrt` always ends.
unfoldable pub root_value : ℤ → Result InterpreterError Value
unfolding integer_sqrt
root_value (negsuc n) = err arithmetic
root_value (pos n) = elim (integer_sqrt n) [ none ↦ err arithmetic | some r ↦ ok (scalar (pos r)) ]

abbrev pub is_zero : ℤ → Bool
is_zero (pos zero) = true
is_zero _ = false

-- The `match` of `execute`. No state comes with an error.
unfoldable pub perform : Instruction → ℕ → State → Result InterpreterError State
unfolding set_target scaled_product scaled_quotient dot_product cross_product scaled_vector
    negated_value root_value add_values subtract_values checked_scalar checked_vector checked_abs
perform (load name) n s = elim (s.memory name) [
  | none ↦ err (undefined name)
  | some v ↦ ok (record s { accumulator = v })
]
perform (store name) n s =
    ok (record s { memory = λ x. if same_name x name then some s.accumulator else s.memory x })
perform (literal v) n s = ok (record s { accumulator = v })
perform push n s = ok (record s { stack = s.accumulator ∷ s.stack })
perform pop n s = popping s λ v t. ok (record t { accumulator = v })
perform add n s = popping s λ v t. accumulate t (add_values v t.accumulator)
perform vector_add n s = popping s λ v t. accumulate t (add_values v t.accumulator)
perform subtract n s = popping s λ v t. accumulate t (subtract_values v t.accumulator)
perform vector_subtract n s = popping s λ v t. accumulate t (subtract_values v t.accumulator)
perform (multiply bits) n s = popping s λ v t. bind_ok (checked_scalar v) λ a.
    bind_ok (checked_scalar t.accumulator)
      λ b. accumulate t (bind_ok (scaled_product a b bits) λ c. ok (scalar c))
perform (divide bits) n s = popping s λ v t. bind_ok (checked_scalar v) λ a.
    bind_ok (checked_scalar t.accumulator)
      λ b. accumulate t (bind_ok (scaled_quotient a b bits) λ c. ok (scalar c))
perform absolute n s =
    bind_ok (checked_scalar s.accumulator)
      λ a. accumulate s (bind_ok (checked_abs a) λ c. ok (scalar c))
perform negate n s = accumulate s (negated_value s.accumulator)
perform dot n s = popping s λ v t. bind_ok (checked_vector v) λ a.
    bind_ok (checked_vector t.accumulator)
      λ b. accumulate t (bind_ok (dot_product a b) λ c. ok (scalar c))
perform cross n s = popping s λ v t.
    bind_ok (checked_vector v)
      λ a. bind_ok (checked_vector t.accumulator) λ b. accumulate t (cross_product a b)
perform (scale bits) n s = popping s λ v t.
    bind_ok (checked_vector v)
      λ a. bind_ok (checked_scalar t.accumulator) λ b. accumulate t (scaled_vector a b bits)
perform square_root n s = bind_ok (checked_scalar s.accumulator) λ a. accumulate s (root_value a)
perform (branch target) n s = set_target s target n
perform (branch_zero target) n s =
    bind_ok (checked_scalar s.accumulator) λ a. if is_zero a then set_target s target n else ok s
perform (branch_negative target) n s =
    bind_ok (checked_scalar s.accumulator) λ a. if is_neg a then set_target s target n else ok s
perform (call target) n s =
    bind_ok (set_target s target n) λ t. ok (record t { calls = s.pc ∷ t.calls })
perform return n s = elim s.calls [
  | [] ↦ err return_underflow
  | r ∷ rs ↦ ok (record s { pc = r; calls = rs })
]
perform exit n s = ok (record s { halted = true })

unfoldable pub execute : Instruction → ℕ → State → Result InterpreterError State
unfolding perform ensure_value_range
execute i program_len s =
    bind_ok (perform i program_len s) λ t. bind_ok (ensure_value_range t.accumulator) λ _. ok t

-- `program.instructions.get(pc)`.
abbrev pub fetched : List Instruction → ℕ → Option Instruction
fetched [] n = none
fetched (i ∷ is) zero = some i
fetched (i ∷ is) (suc n) = fetched is n

unfoldable pub step : List Instruction → State → Result InterpreterError (Transition × State)
unfolding execute
step program s = if s.halted then err (address s.pc) else elim (fetched program s.pc) [
  | none ↦ err (address s.pc)
  | some i ↦ bind_ok (execute i (length program) (record s { pc = s.pc + 1 })) λ t. ok (
    record { at_pc = s.pc; instruction = i; earlier = s.accumulator; after = t.accumulator },
    record t { steps = t.steps + 1 },
  )
]

-- The loop of `run`, on what is left of the limit.
unfoldable pub run_loop :
    ℕ → ℕ → List Instruction → State → Result InterpreterError (List Transition × State)
unfolding step
run_loop zero limit program s = if s.halted then ok ([], s) else err (step_limit limit)
run_loop (suc left) limit program s =
    let next : Result InterpreterError (List Transition × State) =
      (bind_ok (step program s)
        λ x. bind_ok (run_loop left limit program x.1) λ y. ok (x.0 ∷ y.0, y.1)) in
    if s.halted then ok ([], s) else next

unfoldable pub run :
    ℕ → List Instruction → State → Result InterpreterError (List Transition × State)
unfolding run_loop
run limit program s = run_loop limit limit program s
