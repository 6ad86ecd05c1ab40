-- ===== src/Trace/Laws.antt =====
-- The order of a log.
use apollo_rs.Prelude.{ℕ, ◌+◌, ◌≤◌, ◌≡◌, arith, false, List, [], ◌∷◌, ◌++◌, Option, none, some, ok}
use apollo_rs.Prelude.{IfOk, if_cases, length, length-append, ◌=/=◌}
use apollo_rs.Trace.{TraceEvent, push, last, breaks_order}

-- Events of the current schema, each numbered one above the one before it and not starting before
-- that one ended.
abbrev pub IsOrdered : ℕ → ℕ → List TraceEvent → Type 0
IsOrdered sequence cycle [] = Unit
IsOrdered sequence cycle (e ∷ es) =
    (e.schema_version ≡ 2)
    × (e.sequence ≡ sequence)
    × (cycle ≤ e.cycle_start)
    × IsOrdered (e.sequence + 1) e.cycle_end es

-- An event that keeps the order goes behind a log that has events.
IsOrdered-snoc :
    (sequence cycle : ℕ) (e f : TraceEvent) (es : List TraceEvent)
    → IsOrdered sequence cycle (e ∷ es)
    → f.schema_version ≡ 2
    → breaks_order (last (e ∷ es)) f ≡ false
    → IsOrdered sequence cycle ((e ∷ es) ++ f ∷ [])
IsOrdered-snoc sequence cycle e f [] h v b = (h.0, h.1, h.2, (v, ground arith, ground arith, tt))
IsOrdered-snoc sequence cycle e f (g ∷ es) h v b =
    (h.0, h.1, h.2, IsOrdered-snoc (e.sequence + 1) e.cycle_end g f es h.3 v b)

-- A log that `push` accepts an event into stays numbered from 0 without gaps, and its events stay
-- ordered in time; it has one event more.
pub push-IsOrdered :
    (events : List TraceEvent) (e : TraceEvent)
    → IsOrdered 0 0 events
    → IfOk (λ log. IsOrdered 0 0 log × (length log ≡ length events + 1)) (push events e)
unfolding push
push-IsOrdered [] e h =
    if_cases (IfOk _) (e.schema_version =/= 2) _ _ (λ _. tt)
      λ v.
        if_cases (IfOk _) (breaks_order none e) _ _ (λ _. tt)
          λ b. ((ground arith, ground arith, ground arith, tt), omega arith)
push-IsOrdered (f ∷ es) e h =
    if_cases (IfOk _) (e.schema_version =/= 2) _ _ (λ _. tt)
      λ v.
        if_cases (IfOk _) (breaks_order (last (f ∷ es)) e) _ _ (λ _. tt)
          λ b. (
            IsOrdered-snoc 0 0 f e es h (ground arith) b,
            omega (arith, length-append (f ∷ es) (e ∷ [])),
          )

abbrev pub next_sequence : Option TraceEvent → ℕ
next_sequence none = 0
next_sequence (some p) = p.sequence + 1

abbrev pub last_end : Option TraceEvent → ℕ
last_end none = 0
last_end (some p) = p.cycle_end

next_sequence-length :
    (sequence cycle : ℕ) (e : TraceEvent) (es : List TraceEvent)
    → IsOrdered sequence cycle (e ∷ es)
    → next_sequence (last (e ∷ es)) ≡ sequence + length (e ∷ es)
next_sequence-length sequence cycle e [] h = omega (arith, h.1)
next_sequence-length sequence cycle e (f ∷ es) h =
    omega (arith, h.1, next_sequence-length (e.sequence + 1) e.cycle_end f es h.3)

in_order :
    (o : Option TraceEvent) (e : TraceEvent)
    → e.sequence ≡ next_sequence o
    → last_end o ≤ e.cycle_start
    → breaks_order o e ≡ false
in_order none e s c = ground arith
in_order (some p) e s c = ground arith

-- An event of the current schema whose number is the length of an ordered log, and which does not
-- start before the log's last event ended, is accepted: it is appended to the log.
pub push-accepts :
    (events : List TraceEvent) (e : TraceEvent)
    → IsOrdered 0 0 events
    → e.schema_version ≡ 2
    → e.sequence ≡ length events
    → last_end (last events) ≤ e.cycle_start
    → push events e ≡ ok (events ++ e ∷ [])
unfolding push
push-accepts [] e h v s c = rw (in_order none e s c) (ground arith)
push-accepts (f ∷ es) e h v s c =
    let next : e.sequence ≡ next_sequence (last (f ∷ es)) =
      omega (arith, s, next_sequence-length 0 0 f es h) in
    rw (in_order (last (f ∷ es)) e next c) (ground arith)
