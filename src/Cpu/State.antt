-- ===== src/Cpu/State.antt =====
-- crates/agc-cpu/src/lib.rs: the state of the processor, the sets that it keeps, and the monad in
-- which its methods run. A method that fails leaves the state that it had reached.
use apollo_rs.Prelude.{ℕ, ◌+◌, ◌*◌, Bool, true, false, List, [], ◌∷◌, ◌++◌, Option}
use apollo_rs.Prelude.{Result, ok, err, ltb, ◌==◌, if◌then◌else◌}
use apollo_rs.Word.{WordError}
use apollo_rs.Memory.Store.{Memory, MemoryError, MemoryAccess}
use apollo_rs.Trace.{TraceEvent, TraceError, IoEvent, InterruptEvent}

pub data Interrupt : Type 0 where
  time6 time5 time3 time4 key1 key2 uprupt downrupt radar handrupt : Interrupt

-- The discriminant, which is also the priority: the smallest is served first.
abbrev pub number : Interrupt → ℕ
number time6 = 1
number time5 = 2
number time3 = 3
number time4 = 4
number key1 = 5
number key2 = 6
number uprupt = 7
number downrupt = 8
number radar = 9
number handrupt = 10

unfoldable pub vector : Interrupt → ℕ
vector i = 0o4000 + number i * 4

-- A `BTreeSet` is the list of its elements in rising order of `key`.
module _ {A : Type 0} (key : A → ℕ) where
  unfoldable pub contains : List A → A → Bool
  contains [] x = false
  contains (y ∷ ys) x = if key x == key y then true else contains ys x

  unfoldable pub insert : List A → A → List A
  insert [] x = x ∷ []
  insert (y ∷ ys) x =
      if ltb (key x) (key y) then x ∷ y ∷ ys else if key x == key y then y ∷ ys else y ∷ insert ys x

  unfoldable pub remove : List A → A → List A
  remove [] x = []
  remove (y ∷ ys) x = if key x == key y then ys else y ∷ remove ys x

pub data CpuError : Type 0 where
  memory_error : MemoryError → CpuError
  trace_error : TraceError → CpuError
  arithmetic : WordError → CpuError
  -- `unreachable!` in `execute`.
  edrupt_executed : CpuError
  -- The fuel of a loop of the model ran out.
  out_of_fuel : CpuError

pub record Cpu : Type 0 where
  pub memory : Memory
  pub extended : Bool
  pub indexed : Option ℕ
  pub substitute_instruction : Bool
  pub interrupt_enabled : Bool
  pub in_interrupt : Bool
  pub pending_interrupts : List Interrupt
  pub cycles : ℕ
  pub sequence : ℕ
  pub breakpoints : List ℕ
  pub watchpoints : List ℕ
  pub trace : List TraceEvent
  pub scaler_mcts : ℕ
  pub scaler : ℕ
  pub downlink_words : ℕ
  pub schedule_downrupt : Bool
  pub downrupt_due : Option ℕ
  pub trace_sequence : ℕ
  pub trap_31a : Bool
  pub trap_31b : Bool
  pub trap_32 : Bool

-- The processor, and the two values that `step` passes down by reference.
pub record Machine : Type 0 where
  pub cpu : Cpu
  pub event : TraceEvent
  pub watchpoint : Option ℕ

pub data Outcome (A : Type 0) : Type 0 where
  done : A → Machine → Outcome A
  failed : CpuError → Machine → Outcome A

abbrev pub M : Type 0 → Type 0
M A = Machine → Outcome A

abbrev pub pure : {A : Type 0} → A → M A
pure a s = done a s

infixl 5 ◌>>=◌ ◌>>◌
abbrev pub ◌>>=◌ : {A B : Type 0} → M A → (A → M B) → M B
◌>>=◌ m f s = elim (m s) [ done a t ↦ f a t | failed e t ↦ failed e t ]

abbrev pub ◌>>◌ : {B : Type 0} → M (Unit {0}) → M B → M B
m >> k = m >>= λ _. k

abbrev pub throw : {A : Type 0} → CpuError → M A
throw e s = failed e s

abbrev pub get : M Cpu
get s = done s.cpu s

abbrev pub modify : (Cpu → Cpu) → M (Unit {0})
modify f s = done tt (record s { cpu = f s.cpu })

abbrev pub set_memory : Memory → M (Unit {0})
set_memory m = modify λ c. record c { memory = m }

abbrev pub modify_event : (TraceEvent → TraceEvent) → M (Unit {0})
modify_event f s = done tt (record s { event = f s.event })

-- `event.memory.push(memory_event(access))`.
abbrev pub push_memory : MemoryAccess → M (Unit {0})
push_memory a = modify_event λ e. record e {
  memory =
      e.memory
      ++ record { kind = a.kind; logical = a.logical; physical = a.physical; value = a.value } ∷ [];
}

abbrev pub push_io : IoEvent → M (Unit {0})
push_io i = modify_event λ e. record e { io = e.io ++ i ∷ [] }

abbrev pub push_interrupt : InterruptEvent → M (Unit {0})
push_interrupt i = modify_event λ e. record e { interrupts = e.interrupts ++ i ∷ [] }

-- `?` on a result of the memory.
abbrev pub lift_memory : {A : Type 0} → Result MemoryError A → M A
lift_memory (ok a) s = done a s
lift_memory (err e) s = failed (memory_error e) s

-- `.map_err(|error| CpuError::Arithmetic(error.to_string()))?`.
abbrev pub lift_word : {A : Type 0} → Result WordError A → M A
lift_word (ok a) s = done a s
lift_word (err e) s = failed (arithmetic e) s
