-- ===== src/Validation/Compare.antt =====
-- crates/agc-validation/src/lib.rs: `compare_traces` with `compare_event`, and `differential_run`. The
-- printed values of a divergence and its explanation, which is one for each field, are left out.
use apollo_rs.Prelude.{
  ℕ, ◌+◌, Bool, true, false, List, [], ◌∷◌, Option, some, none, Result, ok, err, length, leb, ◌==◌,
  ◌=/=◌, if◌then◌else◌,
}
use Prim.Native.String.{String}
use apollo_rs.Trace.{TraceEvent}
use apollo_rs.Trace.Equality.{
  RegisterSnapshot-discrete, MemoryEvent-discrete, IoEvent-discrete, InterruptEvent-discrete,
  Label-discrete, decided, same_all,
}
use apollo_rs.Runtime.Events.{Runtime, RuntimeEvent, RuntimeError, schedule}
use apollo_rs.Runtime.Machine.{run}

pub data DivergenceClass : Type 0 where
  parsing assembly decode arithmetic addressing banking timing interrupt_class io_class
        interpreter_class scheduler transpilation unknown :
      DivergenceClass

pub record Divergence : Type 0 where
  pub event : ℕ
  pub class : DivergenceClass
  pub field : String

pub record ValidationReport : Type 0 where
  pub left_events : ℕ
  pub right_events : ℕ
  pub first : Option Divergence
  pub equivalent : Bool

pub Bool-discrete : Discrete Bool
Bool-discrete = hlevel

-- The macro `difference`: a divergence, or the comparisons that follow.
unfoldable pub difference :
    ℕ → String → DivergenceClass → Bool → Option Divergence → Option Divergence
difference index field class same next =
    if same then next else some (record { event = index; class = class; field = field })

-- The state after the event.
unfoldable pub compare_result : ℕ → TraceEvent → TraceEvent → Option Divergence
unfolding difference
compare_result index left right =
    difference index "after.eb" banking (left.after.eb == right.after.eb) (
      difference index "after.fb" banking (left.after.fb == right.after.fb) (
        difference index "after.bb" banking (left.after.bb == right.after.bb) (
          difference index "after" arithmetic
            (decided RegisterSnapshot-discrete left.after right.after) (none))))

-- The accesses, and what comes after them.
unfoldable pub compare_effects : ℕ → TraceEvent → TraceEvent → Option Divergence
unfolding difference same_all compare_result
compare_effects index left right =
    difference index "memory" addressing
      (same_all (decided MemoryEvent-discrete) left.memory right.memory)
      (difference index "io" io_class (same_all (decided IoEvent-discrete) left.io right.io) (
        difference index "interrupts" interrupt_class
          (same_all (decided InterruptEvent-discrete) left.interrupts right.interrupts)
          (compare_result index left right)))

-- The state before the event, and what comes after it.
unfoldable pub compare_before : ℕ → TraceEvent → TraceEvent → Option Divergence
unfolding difference compare_effects
compare_before index left right =
    difference index "before.eb" banking (left.before.eb == right.before.eb) (
      difference index "before.fb" banking (left.before.fb == right.before.fb) (
        difference index "before.bb" banking (left.before.bb == right.before.bb) (
          difference index "before" arithmetic
            (decided RegisterSnapshot-discrete left.before right.before)
            (compare_effects index left right))))

-- The cycles, and what comes after them.
unfoldable pub compare_timing : ℕ → TraceEvent → TraceEvent → Option Divergence
unfolding difference compare_before
compare_timing index left right =
    difference index "cycle-start" timing (left.cycle_start == right.cycle_start) (
      difference index "cycle-end" timing (left.cycle_end == right.cycle_end)
        (compare_before index left right))

-- The fields in the order of the source.
unfoldable pub compare_event : ℕ → TraceEvent → TraceEvent → Option Divergence
unfolding difference compare_timing
compare_event index left right =
    difference index "sequence" timing (left.sequence == right.sequence) (
      difference index "pc" decode (left.pc == right.pc) (
        difference index "instruction" decode (left.instruction_word == right.instruction_word) (
          difference index "mnemonic" decode (decided Label-discrete left.mnemonic right.mnemonic) (
            difference index "operand" decode (left.operand == right.operand) (
              difference index "extended" decode
                (decided Bool-discrete left.extended right.extended)
                (compare_timing index left right))))))

-- `find_map` over the shared indices.
unfoldable pub first_divergence : ℕ → List TraceEvent → List TraceEvent → Option Divergence
unfolding compare_event
first_divergence index [] rs = none
first_divergence index (l ∷ ls) [] = none
first_divergence index (l ∷ ls) (r ∷ rs) =
    let rest = first_divergence (index + 1) ls rs in
    elim (compare_event index l r) [ some d ↦ some d | none ↦ rest ]

-- The test of the lengths, where no shared event differs.
unfoldable pub or_length : Option Divergence → List TraceEvent → List TraceEvent → Option Divergence
or_length (some d) ls rs = some d
or_length none ls rs =
    if length ls =/= length rs
    then some (record {
      event = if leb (length ls) (length rs) then length ls else length rs;
      class = timing;
      field = "trace-length";
    })
    else none

abbrev pub is_none : Option Divergence → Bool
is_none none = true
is_none (some d) = false

unfoldable pub compare_traces : List TraceEvent → List TraceEvent → ValidationReport
unfolding first_divergence or_length
compare_traces ls rs =
    let first = or_length (first_divergence 0 ls rs) ls rs in
    record {
      left_events = length ls;
      right_events = length rs;
      first = first;
      equivalent = is_none first;
    }

-- The events of a scenario, each at its cycle.
unfoldable pub schedule_all : List (ℕ × RuntimeEvent) → Runtime → Runtime
schedule_all [] r = r
schedule_all ((cycle, event) ∷ events) r = schedule_all events (schedule r cycle event).1

-- The fuel is that of the runtime's `run`, the same for both.
unfoldable pub differential_run :
    ℕ → Runtime → Runtime → List (ℕ × RuntimeEvent) → ℕ → Result RuntimeError ValidationReport
unfolding schedule_all compare_traces
differential_run fuel left right events instructions =
    let (ran_left, l) = run fuel (schedule_all events left) instructions in
    let (ran_right, r) = run fuel (schedule_all events right) instructions in
    elim ran_left [
      | err e ↦ err e
      | ok o ↦ elim ran_right [ err e ↦ err e | ok p ↦ ok (compare_traces l.cpu.trace r.cpu.trace) ]
    ]

unfoldable pub determinism_check :
    ℕ → Runtime → List (ℕ × RuntimeEvent) → ℕ → Result RuntimeError ValidationReport
unfolding differential_run
determinism_check fuel initialized events instructions =
    differential_run fuel initialized initialized events instructions
