-- ===== src/Faults/Recovery.antt =====
-- crates/agc-faults/src/lib.rs, `compare_recovery`.
use apollo_rs.Prelude.{ℕ, Bool, true, false, Option, some, none}
use apollo_rs.Trace.{TraceEvent, last}
use apollo_rs.Trace.Equality.{RegisterSnapshot-discrete, TraceDifference, decided, first_difference}
use apollo_rs.Cpu.Registers.{program_counter}
use apollo_rs.Runtime.Events.{Runtime}

pub record RecoveryComparison : Type 0 where
  pub first_divergence : Option ℕ
  pub baseline_instructions : ℕ
  pub faulted_instructions : ℕ
  pub baseline_pc : ℕ
  pub faulted_pc : ℕ
  pub registers_recovered : Bool

-- The registers after two last events, where there are such.
abbrev same_last : Option TraceEvent → Option TraceEvent → Bool
same_last none none = true
same_last none (some f) = false
same_last (some e) none = false
same_last (some e) (some f) = decided RegisterSnapshot-discrete e.after f.after

abbrev index_of : Option TraceDifference → Option ℕ
index_of none = none
index_of (some d) = some d.index

unfoldable pub compare_recovery : Runtime → Runtime → RecoveryComparison
unfolding first_difference
compare_recovery baseline faulted = record {
  first_divergence = index_of (first_difference baseline.cpu.trace faulted.cpu.trace);
  baseline_instructions = baseline.cpu.sequence;
  faulted_instructions = faulted.cpu.sequence;
  baseline_pc = program_counter baseline.cpu;
  faulted_pc = program_counter faulted.cpu;
  registers_recovered = same_last (last baseline.cpu.trace) (last faulted.cpu.trace);
}
