-- ===== src/Tests/Traces.antt =====
-- Traces that are compared.
use apollo_rs.Prelude.{refl, length, ◌≡◌, ◌↔◌, ◌⊎◌, true, false, none, some, [], ◌∷◌, List}
use apollo_rs.Trace.{TraceEvent, new_event}
use apollo_rs.Validation.Compare.{
  timing, difference, compare_event, first_divergence, or_length, compare_traces,
}
use apollo_rs.Validation.First.{FirstAt, compare_traces-FirstAt}
use apollo_rs.Validation.Reference.{
  YaAgcReferenceEvent, instruction_row, interrupt_entry_row, compare_yaagc_reference,
}
use apollo_rs.Validation.Agreement.{AgreeThrough, compare_yaagc_reference-AgreeThrough}
use apollo_rs.Validation.Laws.{AllAlike, compare_traces-AllAlike}

abbrev one_event : List TraceEvent
one_event = new_event 0 0 0o4000 0o30001 ∷ []

-- The same, and one event more.
abbrev two_events : List TraceEvent
two_events = new_event 0 0 0o4000 0o30001 ∷ (new_event 1 2 0o4001 0o30002 ∷ [])

compare_traces-AllAlike_example :
    ((compare_traces two_events one_event).equivalent ≡ true) ↔ AllAlike two_events one_event
compare_traces-AllAlike_example = compare_traces-AllAlike two_events one_event

-- The row of the reference for the first event.
abbrev first_row : YaAgcReferenceEvent
first_row = record {
  cycle = 0;
  kind = instruction_row;
  pc = 0o4000;
  instruction_word = 0o30001;
  a = 0;
  l = 0;
  q = 0;
  eb = 0;
  fb = 0;
  bb = 0;
  interrupt_vector = none;
  interrupt_number = none;
}

-- The row of an interrupt entry.
abbrev entry_row : YaAgcReferenceEvent
entry_row = record first_row {
  cycle = 1;
  kind = interrupt_entry_row;
  interrupt_vector = some 0o4024;
  interrupt_number = some 5;
}

compare_yaagc_reference-AgreeThrough_example :
    ((compare_yaagc_reference two_events (first_row ∷ (entry_row ∷ [])) false).equivalent ≡ true)
    ↔ (AgreeThrough two_events (first_row ∷ (entry_row ∷ []))
        × ((false ≡ true) ⊎ (length two_events ≡ length (first_row ∷ (entry_row ∷ [])))))
compare_yaagc_reference-AgreeThrough_example =
    compare_yaagc_reference-AgreeThrough two_events (first_row ∷ (entry_row ∷ [])) false

-- The same event with a later number.
abbrev renumbered : List TraceEvent
renumbered = new_event 1 0 0o4000 0o30001 ∷ []

compare_traces-FirstAt_example : FirstAt 0 one_event renumbered
unfolding new_event compare_traces first_divergence compare_event difference or_length
compare_traces-FirstAt_example =
    compare_traces-FirstAt one_event renumbered
      (record { event = 0; class = timing; field = "sequence" }) refl
