-- ===== src/Validation/Reference.antt =====
-- crates/agc-validation/src/lib.rs: `compare_yaagc_reference` with `compare_yaagc_event`. The reference is
-- the trace of another emulator, given as its events; the reader of its file is left out, as are the
-- printed values and the fixed texts of the report.
use apollo_rs.Prelude.{
  ℕ, ◌+◌, Bool, true, ◌&&◌, List, [], ◌∷◌, Option, some, none, length, leb, ◌==◌, if◌then◌else◌,
}
use native.Mathlib.Decide.{ℕ_discrete}
use apollo_rs.Bits.{low_bits}
use apollo_rs.Trace.{
  TraceEvent, RegisterSnapshot, MachineEventKind, instruction, interrupt_entry, InterruptEvent,
  requested, entered, resumed,
}
use apollo_rs.Trace.Equality.{decided}
use apollo_rs.Validation.Compare.{
  Divergence, decode, arithmetic, banking, timing, interrupt_class, difference, is_none,
}

pub data YaAgcEventKind : Type 0 where
  instruction_row interrupt_entry_row : YaAgcEventKind

pub record YaAgcReferenceEvent : Type 0 where
  pub cycle : ℕ
  pub kind : YaAgcEventKind
  pub pc : ℕ
  pub instruction_word : ℕ
  pub a : ℕ
  pub l : ℕ
  pub q : ℕ
  pub eb : ℕ
  pub fb : ℕ
  pub bb : ℕ
  pub interrupt_vector : Option ℕ
  pub interrupt_number : Option ℕ

pub record ReferenceValidationReport : Type 0 where
  pub apollors_events : ℕ
  pub reference_events : ℕ
  pub matched_events : ℕ
  pub complete : Bool
  pub equivalent : Bool
  pub first : Option Divergence

pub MachineEventKind-discrete : Discrete MachineEventKind
MachineEventKind-discrete = hlevel

pub Entry-discrete : Discrete (Option (ℕ × ℕ))
Entry-discrete = hlevel ℕ_discrete

unfoldable pub expected_kind : YaAgcEventKind → MachineEventKind
expected_kind instruction_row = instruction
expected_kind interrupt_entry_row = interrupt_entry

-- An interrupt is logged on the first of its two cycles.
unfoldable pub expected_cycle : YaAgcReferenceEvent → ℕ
expected_cycle r = elim (r.kind) [ instruction_row ↦ r.cycle | interrupt_entry_row ↦ r.cycle + 1 ]

unfoldable pub logged_registers : TraceEvent → YaAgcEventKind → RegisterSnapshot
logged_registers e instruction_row = e.before
logged_registers e interrupt_entry_row = e.after

-- The first interrupt that an event enters.
unfoldable pub entered_interrupt : List InterruptEvent → Option (ℕ × ℕ)
entered_interrupt [] = none
entered_interrupt (requested number ∷ events) = entered_interrupt events
entered_interrupt (entered number vector ∷ events) = some (number, vector)
entered_interrupt (resumed ∷ events) = entered_interrupt events

-- `Option::zip`.
unfoldable pub zip : Option ℕ → Option ℕ → Option (ℕ × ℕ)
zip (some a) (some b) = some (a, b)
zip (some a) none = none
zip none b = none

-- The last comparison, of an interrupt entry alone.
unfoldable pub same_entry : TraceEvent → YaAgcReferenceEvent → Bool
unfolding entered_interrupt zip
same_entry left right = elim (right.kind) [
  | instruction_row ↦ true
  | interrupt_entry_row ↦
      decided Entry-discrete (entered_interrupt left.interrupts)
        (zip right.interrupt_number right.interrupt_vector)
]

-- The registers and the interrupt.
unfoldable pub compare_yaagc_registers : ℕ → TraceEvent → YaAgcReferenceEvent → Option Divergence
unfolding difference logged_registers same_entry
compare_yaagc_registers index left right =
    difference index "a" arithmetic ((logged_registers left right.kind).a == right.a) (
      difference index "l" arithmetic ((logged_registers left right.kind).l == right.l) (
        difference index "q" arithmetic ((logged_registers left right.kind).q == right.q) (
          difference index "eb" banking ((logged_registers left right.kind).eb == right.eb) (
            difference index "fb" banking ((logged_registers left right.kind).fb == right.fb) (
              difference index "bb" banking ((logged_registers left right.kind).bb == right.bb)
                (difference index "interrupt" interrupt_class (same_entry left right) (none)))))))

unfoldable pub compare_yaagc_event : ℕ → TraceEvent → YaAgcReferenceEvent → Option Divergence
unfolding difference expected_kind expected_cycle compare_yaagc_registers
compare_yaagc_event index left right =
    difference index "event-kind" interrupt_class
      (decided MachineEventKind-discrete left.kind (expected_kind right.kind))
      (difference index "cycle-end" timing (left.cycle_end == expected_cycle right) (
        difference index "pc" decode (left.pc == right.pc) (
          difference index "instruction" decode
            (left.instruction_word == low_bits right.instruction_word 15)
            (compare_yaagc_registers index left right))))

-- The loop: the number of events that match, and the divergence at which it stops.
unfoldable pub match_events : ℕ → List TraceEvent → List YaAgcReferenceEvent → ℕ × Option Divergence
unfolding compare_yaagc_event
match_events matched [] rs = (matched, none)
match_events matched (l ∷ ls) [] = (matched, none)
match_events matched (l ∷ ls) (r ∷ rs) =
    let rest = match_events (matched + 1) ls rs in
    elim (compare_yaagc_event matched l r) [ some d ↦ (matched, some d) | none ↦ rest ]

-- Streams of different lengths diverge, unless the shorter one is accepted.
unfoldable pub or_prefix : Option Divergence → Bool → ℕ → ℕ → ℕ → Option Divergence
or_prefix (some d) allow_stream_prefix matched left_length right_length = some d
or_prefix none allow_stream_prefix matched left_length right_length =
    let shared = if leb left_length right_length then left_length else right_length in
    if left_length == right_length
    then none
    else if allow_stream_prefix && matched == shared
    then none
    else some (record { event = shared; class = timing; field = "trace-length" })

unfoldable pub compare_yaagc_reference :
    List TraceEvent → List YaAgcReferenceEvent → Bool → ReferenceValidationReport
unfolding match_events or_prefix
compare_yaagc_reference apollors reference allow_stream_prefix =
    let (matched, divergence) = match_events 0 apollors reference in
    let first =
      or_prefix divergence allow_stream_prefix matched (length apollors) (length reference) in
    record {
      apollors_events = length apollors;
      reference_events = length reference;
      matched_events = matched;
      complete = length apollors == length reference;
      equivalent = is_none first;
      first = first;
    }
