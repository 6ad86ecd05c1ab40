-- ===== src/Assembler/Diagnostics.antt =====
-- crates/agc-assembler/src/lib.rs, `assemble`: the errors among the diagnostics.
use apollo_rs.Prelude.{ℕ, ◌+◌, Bool, true, false, List, [], ◌∷◌, if◌then◌else◌}
use apollo_rs.Assembler.Records.{Diagnostic, Severity, error, warning}

abbrev pub is_error : Severity → Bool
is_error error = true
is_error warning = false

unfoldable pub count_errors : List Diagnostic → ℕ
count_errors [] = 0
count_errors (d ∷ ds) = (if is_error d.severity then 1 else 0) + count_errors ds
