-- ===== src/Cpu/Safe.antt =====
-- Methods that may fail by a write to fixed memory, and in no other way.
pub mod Operands
pub mod Io
pub mod Instructions
pub mod Doubles
pub mod Channels
pub mod Quotient
pub mod Divide
pub mod Execute
pub mod Entry
pub mod Commit
pub mod Finish
pub mod Transition
pub mod Run
use apollo_rs.Prelude.{ℕ, ◌+◌, ◌<◌, ◌≤◌, ◌≡◌, refl, Bool, true, false, if_cases, if◌then◌else◌}
use apollo_rs.Word.{IsRegister}
use apollo_rs.Memory.Store.{MemoryError, fixed_write}
use apollo_rs.Memory.Invariant.{IsValid, write_central_raw-IsValid}
use apollo_rs.Cpu.State.{
  Machine, Cpu, Outcome, done, failed, M, pure, ◌>>=◌, ◌>>◌, CpuError, memory_error, get, modify,
}
use apollo_rs.Cpu.Clock.Timers.{View, view, Calm, Steady, kept}
use apollo_rs.Cpu.Clock.Ends.{Ends}
use apollo_rs.Cpu.Registers.{with_register}

abbrev pub IsFixedWrite : MemoryError → Type 0
IsFixedWrite (fixed_write address) = Unit
IsFixedWrite _ = ⊥

-- No condition on a result.
abbrev pub Anything : {A : Type 0} → A → Type 0
Anything a = Unit

-- The errors that a well-formed processor may meet.
abbrev pub Expected : CpuError → Type 0
Expected (memory_error e) = IsFixedWrite e
Expected _ = ⊥

abbrev pub Holds : {A : Type 0} → (A → Machine → Type 0) → Outcome A → Type 0
Holds P (done a t) = P a t
Holds P (failed e t) = Expected e × IsValid t.cpu.memory

Holds-result :
    {A B : Type 0} (Q : A → Machine → Type 0) (P : B → Machine → Type 0) (f : A → M B)
    (r : Outcome A)
    → Holds Q r
    → ((a : A) (t : Machine) → Q a t → Holds P (f a t))
    → Holds P (elim r [ done a t ↦ f a t | failed e t ↦ failed e t ])
Holds-result Q P f (done a t) h k = k a t h
Holds-result Q P f (failed e t) h k = h

pub Holds-bind :
    {A B : Type 0} (Q : A → Machine → Type 0) (P : B → Machine → Type 0) (m : M A) (f : A → M B)
    (s : Machine)
    → Holds Q (m s)
    → ((a : A) (t : Machine) → Q a t → Holds P (f a t))
    → Holds P ((m >>= f) s)
Holds-bind Q P m f s h k = Holds-result Q P f (m s) h k

pub Holds-weaken :
    {A : Type 0} (Q P : A → Machine → Type 0) (r : Outcome A)
    → Holds Q r
    → ((a : A) (t : Machine) → Q a t → P a t)
    → Holds P r
Holds-weaken Q P (done a t) h k = k a t h
Holds-weaken Q P (failed e t) h k = h

-- What ends holds.
pub Ends-Holds : {A : Type 0} (P : A → Machine → Type 0) (r : Outcome A) → Ends P r → Holds P r
Ends-Holds P (done a t) h = h
Ends-Holds P (failed e t) h = absurd h

module _ (v : View) (n : ℕ) where
  -- The method keeps calm, or fails in the expected way.
  pub record Safe {A : Type 0} (Q : A → Type 0) (m : M A) : Type 0 where
    pub runs : (s : Machine) → Calm v n s → Holds (λ a t. Q a × Calm v n t) (m s)

  pub Safe-bind :
      {A B : Type 0} (Q : A → Type 0) (P : B → Type 0) (m : M A) (f : A → M B)
      → Safe Q m
      → ((a : A) → Q a → Safe P (f a))
      → Safe P (m >>= f)
  Safe-bind Q P m f h k = record {
    runs = λ s c.
        Holds-bind (λ a t. Q a × Calm v n t) (λ b t. P b × Calm v n t) m f s (h.runs s c)
          λ a t q. (k a q.0).runs t q.1;
  }

  -- What only the clock's proofs know is safe too.
  pub Steady-Safe : {A : Type 0} (Q : A → Type 0) (m : M A) → Steady v n Q m → Safe Q m
  Steady-Safe Q m h = record {
    runs = λ s c. Ends-Holds (λ a t. Q a × Calm v n t) (m s) (h.runs s c);
  }

  -- A method that looks at the processor first.
  pub Safe-get :
      {B : Type 0} (P : B → Type 0) (f : Cpu → M B)
      → ((s : Machine) → Calm v n s → Safe P (f s.cpu))
      → Safe P (get >>= f)
  Safe-get P f h = record { runs = λ s c. (h s c).runs s c }

  pub Safe-pure : {A : Type 0} (Q : A → Type 0) (a : A) → Q a → Safe Q (pure a)
  Safe-pure Q a q = record { runs = λ s c. (q, c) }

  -- An update of the processor that leaves memory, debt and log alone.
  pub Safe-modify :
      (f : Cpu → Cpu)
      → ((s : Machine) → Calm v n s → Calm v n (record s { cpu = f s.cpu }))
      → Safe Anything (modify f)
  Safe-modify f h = record { runs = λ s c. (tt, h s c) }

  -- A register is set at its full width.
  pub with_register-Safe :
      (i value : ℕ) → IsRegister value → Safe Anything (modify (with_register i value))
  unfolding with_register
  with_register-Safe i value h = record {
    runs = λ s c. (
      tt,
      record {
        memory_IsValid = write_central_raw-IsValid s.cpu.memory i value c.memory_IsValid h;
        debt_is = c.debt_is;
        view_is = c.view_is;
      },
    );
  }
