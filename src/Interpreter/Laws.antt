-- ===== src/Interpreter/Laws.antt =====
-- crates/agc-interpreter/src/lib.rs: the range of the accumulator, subroutines and runs.
use apollo_rs.Prelude.{
  ℕ, ◌≤◌, ◌≡◌, refl, true, false, Bool-cases, inl, inr, leb, some, List, [], ◌∷◌, ok, IfOk,
}
use apollo_rs.Prelude.Int.{abs}
use apollo_rs.Interpreter.Values.{Value, scalar, vector}
use apollo_rs.Interpreter.Machine.{
  Instruction, call, return, State, Transition, perform, fetched, set_target,
}

-- The integers of a value have at most 28 bits of magnitude.
abbrev pub InRange : Value → Type 0
InRange (scalar v) = abs v ≤ 268435455
InRange (vector a b c) = (abs a ≤ 268435455) × (abs b ≤ 268435455) × (abs c ≤ 268435455)

-- One transition: an instruction of the program at the counter, with the accumulators around it.
pub record IsStep (program : List Instruction) (s : State) (x : Transition × State) : Type 0 where
  pub running : s.halted ≡ false
  pub from_program : fetched program s.pc ≡ some x.0.instruction
  pub starts_at : x.0.at_pc ≡ s.pc
  pub before_is : x.0.earlier ≡ s.accumulator
  pub after_is : x.0.after ≡ x.1.accumulator
  pub in_range : InRange x.1.accumulator

-- A chain of transitions, each an instruction of the program, that ends in a halted state.
abbrev pub IsRun : List Instruction → State → List Transition → State → Type 0
IsRun program s [] t = (t ≡ s) × (s.halted ≡ true)
IsRun program s (x ∷ xs) t = (u : State) × IsStep program s (x, u) × IsRun program u xs t

-- A call that succeeds goes to its target, and a return with the call stack that it left, from any
-- other state, goes to the counter at the call with the call stack before it.
pub return-call :
    (target n : ℕ) (s : State)
    → IfOk
        (λ t.
          (t.pc ≡ target)
          × ((u : State)
              → u.calls ≡ t.calls
              → perform return n u ≡ ok (record u { pc = s.pc; calls = s.calls })))
        (perform (call target) n s)
unfolding perform set_target
return-call target n s = elim (Bool-cases (leb n target)) [
  | inl e ↦ rw e tt
  | inr e ↦ rw e (refl, λ u h. rw h refl)
]
