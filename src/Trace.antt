-- ===== src/Trace.antt =====
-- crates/agc-trace/src/lib.rs: the event that one machine step leaves, and the append-only log. The
-- texts of an event are kept as the values that they print: a physical address, an access kind, and
-- a label in place of the mnemonic.
pub mod Laws
pub mod Equality
use apollo_rs.Prelude.{ℕ, ◌+◌, Bool, true, false, ◌||◌, List, [], ◌∷◌, ◌++◌, Option, some, none}
use apollo_rs.Prelude.{Result, ok, err, ltb, ◌=/=◌, if◌then◌else◌}
use apollo_rs.Isa.Mnemonics.{Mnemonic}
use apollo_rs.Memory.Store.{AccessKind, PhysicalAddress}

abbrev pub trace_schema_version : ℕ
trace_schema_version = 2

pub data MachineEventKind : Type 0 where
  instruction interrupt_entry : MachineEventKind

pub record RegisterSnapshot : Type 0 where
  pub a : ℕ
  pub l : ℕ
  pub q : ℕ
  pub z : ℕ
  pub eb : ℕ
  pub fb : ℕ
  pub bb : ℕ

pub record MemoryEvent : Type 0 where
  pub kind : AccessKind
  pub logical : ℕ
  pub physical : PhysicalAddress
  pub value : ℕ

pub record IoEvent : Type 0 where
  pub write : Bool
  pub channel : ℕ
  pub value : ℕ

pub data InterruptEvent : Type 0 where
  requested : ℕ → InterruptEvent
  entered : ℕ → ℕ → InterruptEvent
  resumed : InterruptEvent

-- The text of the mnemonic field: empty, "INTERRUPT", or a mnemonic.
pub data Label : Type 0 where
  no_label interrupt_label : Label
  named : Mnemonic → Label

pub record TraceEvent : Type 0 where
  pub schema_version : ℕ
  pub sequence : ℕ
  pub kind : MachineEventKind
  pub cycle_start : ℕ
  pub cycle_end : ℕ
  pub pc : ℕ
  pub instruction_word : ℕ
  pub mnemonic : Label
  pub operand : ℕ
  pub extended : Bool
  pub before : RegisterSnapshot
  pub after : RegisterSnapshot
  pub memory : List MemoryEvent
  pub io : List IoEvent
  pub interrupts : List InterruptEvent

abbrev pub no_registers : RegisterSnapshot
no_registers = record { a = 0; l = 0; q = 0; z = 0; eb = 0; fb = 0; bb = 0 }

-- `TraceEvent::new`.
unfoldable pub new_event : ℕ → ℕ → ℕ → ℕ → TraceEvent
new_event sequence cycle_start pc word = record {
  schema_version = trace_schema_version;
  sequence = sequence;
  kind = instruction;
  cycle_start = cycle_start;
  cycle_end = cycle_start;
  pc = pc;
  instruction_word = word;
  mnemonic = no_label;
  operand = 0;
  extended = false;
  before = no_registers;
  after = no_registers;
  memory = [];
  io = [];
  interrupts = [];
}

pub data TraceError : Type 0 where
  schema : ℕ → TraceError
  ordering : ℕ → ℕ → TraceError

abbrev pub last : List TraceEvent → Option TraceEvent
last [] = none
last (e ∷ []) = some e
last (e ∷ f ∷ es) = last (f ∷ es)

-- The ordering test of `TraceLog::push` against the last event of the log.
abbrev pub breaks_order : Option TraceEvent → TraceEvent → Bool
breaks_order none e = e.sequence =/= 0
breaks_order (some p) e = e.sequence =/= p.sequence + 1 || ltb e.cycle_start p.cycle_end

abbrev pub last_sequence : Option TraceEvent → ℕ
last_sequence none = 0
last_sequence (some p) = p.sequence

-- `TraceLog::push`.
unfoldable pub push : List TraceEvent → TraceEvent → Result TraceError (List TraceEvent)
push events e =
    if e.schema_version =/= trace_schema_version
    then err (schema e.schema_version)
    else if breaks_order (last events) e
    then err (ordering (last_sequence (last events)) e.sequence)
    else ok (events ++ e ∷ [])
