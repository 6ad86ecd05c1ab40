-- ===== src/Runtime/Queue.antt =====
-- crates/agc-runtime/src/lib.rs: the order of the queue, which is by cycle and then by insertion.
use apollo_rs.Prelude.{
  ℕ, ◌+◌, ◌<◌, ◌≤◌, ◌≡◌, refl, ap, arith, true, false, Bool-cases, inl, inr, if◌then◌else◌, leb,
  List, [], ◌∷◌, ◌++◌, ok, err,
}
use apollo_rs.Runtime.Events.{
  Runtime, RuntimeEvent, ScheduledEvent, Ran, and_then, before, insert_event, schedule, apply_event,
  apply_due, apply_due_events,
}
use apollo_rs.Runtime.Safe.{AllHaveWords, IsReady, Kept, KeptRan, apply_event-Kept}

-- The events up to a cycle, and those after it.
abbrev pub due : ℕ → List ScheduledEvent → List ScheduledEvent
due cycle [] = []
due cycle (e ∷ es) = if leb e.cycle cycle then e ∷ due cycle es else due cycle es

abbrev pub later : ℕ → List ScheduledEvent → List ScheduledEvent
later cycle [] = []
later cycle (e ∷ es) = if leb e.cycle cycle then later cycle es else e ∷ later cycle es

-- Events in the order of their cycles, from a given one on, with numbers below the next one.
abbrev pub IsQueue : ℕ → ℕ → List ScheduledEvent → Type 0
IsQueue next cycle [] = Unit
IsQueue next cycle (e ∷ es) = (cycle ≤ e.cycle) × (e.sequence < next) × IsQueue next e.cycle es

all_later :
    (next cycle lo : ℕ) (es : List ScheduledEvent)
    → cycle < lo
    → IsQueue next lo es
    → (due cycle es ≡ []) × (later cycle es ≡ es)
all_later next cycle lo [] h q = (refl, refl)
all_later next cycle lo (e ∷ es) h q =
    let after : leb e.cycle cycle ≡ false = ground (arith, h, q.0) in
    let rest = all_later next cycle e.cycle es (omega (arith, h, q.0)) q.2 in
    rw after (rest.0, ap (λ l. e ∷ l) rest.1)

insert_event-parts :
    (next lo : ℕ) (e : ScheduledEvent) (es : List ScheduledEvent)
    → next ≤ e.sequence
    → IsQueue next lo es
    → insert_event e es ≡ due e.cycle es ++ e ∷ later e.cycle es
unfolding insert_event
insert_event-parts next lo e [] h q = refl
insert_event-parts next lo e (f ∷ fs) h q = elim (Bool-cases (leb f.cycle e.cycle)) [
  | inl b ↦
      let behind : before e f ≡ false = ground (arith, b, h, q.1) in
      let ahead : before f e ≡ true = ground (arith, b, h, q.1) in
      rw (behind, ahead, b) (ap (λ l. f ∷ l) (insert_event-parts next f.cycle e fs h q.2))
  | inr b ↦
      let ahead : before e f ≡ true = ground (arith, b) in
      let none_due = all_later next e.cycle f.cycle fs (ground (arith, b)) q.2 in
      rw (ahead, b, none_due.0, none_due.1) refl
]

insert_event-IsQueue :
    (next lo : ℕ) (e : ScheduledEvent) (es : List ScheduledEvent)
    → next ≡ e.sequence
    → lo ≤ e.cycle
    → IsQueue next lo es
    → IsQueue (next + 1) lo (insert_event e es)
unfolding insert_event
insert_event-IsQueue next lo e [] h l q = (l, omega (arith, h), tt)
insert_event-IsQueue next lo e (f ∷ fs) h l q = elim (Bool-cases (leb f.cycle e.cycle)) [
  | inl b ↦
      let behind : before e f ≡ false = ground (arith, b, h, q.1) in
      let ahead : before f e ≡ true = ground (arith, b, h, q.1) in
      rw (behind, ahead)
        (q.0, omega (arith, q.1), insert_event-IsQueue next f.cycle e fs h (ground (arith, b)) q.2)
  | inr b ↦
      let ahead : before e f ≡ true = ground (arith, b) in
      rw ahead
        (l, omega (arith, h), (ground (arith, b), omega (arith, q.1), widen next f.cycle fs q.2))
]
  where
    widen : (next lo : ℕ) (es : List ScheduledEvent) → IsQueue next lo es → IsQueue (next + 1) lo es
    widen next lo [] q = tt
    widen next lo (g ∷ gs) q = (q.0, omega (arith, q.1), widen next g.cycle gs q.2)

-- In a queue in order, a new event goes behind all events up to its own cycle and in front of all
-- later ones, the queue stays in order, and the returned event is the new one with its number.
pub schedule-order :
    (r : Runtime) (cycle : ℕ) (event : RuntimeEvent)
    → IsQueue r.next_event_sequence 0 r.events
    → let (scheduled, s) = schedule r cycle event in
      (s.events ≡ due cycle r.events ++ scheduled ∷ later cycle r.events)
      × IsQueue s.next_event_sequence 0 s.events
      × (scheduled ≡ record { cycle = cycle; sequence = r.next_event_sequence; event = event })
unfolding schedule
schedule-order r cycle event q =
    let new : ScheduledEvent = record {
      cycle = cycle;
      sequence = r.next_event_sequence;
      event = event;
    } in
    (
      insert_event-parts r.next_event_sequence 0 new r.events (omega arith) q,
      insert_event-IsQueue r.next_event_sequence 0 new r.events refl (omega arith) q,
      refl,
    )

-- A method that succeeds leaves the given events.
abbrev pub Leaves : List ScheduledEvent → Ran → Type 0
Leaves es (ok a, r) = r.events ≡ es
Leaves es (err e, r) = Unit

and_then-Leaves :
    (es left : List ScheduledEvent) (m : Ran) (f : Runtime → Ran)
    → KeptRan es m
    → ((r : Runtime) → Kept es r → Leaves left (f r))
    → Leaves left (and_then m f)
and_then-Leaves es left (ok a, r) f h k = k r h
and_then-Leaves es left (err e, r) f h k = tt

apply_due-Leaves :
    (next lo cycle : ℕ) (es : List ScheduledEvent) (r : Runtime)
    → IsQueue next lo es
    → AllHaveWords es
    → Kept es r
    → Leaves (later cycle es) (apply_due cycle es r)
unfolding apply_due
apply_due-Leaves next lo cycle [] r q w h = h.1
apply_due-Leaves next lo cycle (e ∷ es) r q w h = elim (Bool-cases (leb e.cycle cycle)) [
  | inl b ↦ rw b (
      and_then-Leaves es (later cycle es) (apply_event e.event (record r { events = es }))
        (apply_due cycle es)
        (apply_event-Kept es e.event (record r { events = es }) w.0 (h.0, refl))
        λ s k. apply_due-Leaves next e.cycle cycle es s q.2 w.1 k)
  | inr b ↦
      let others = all_later next cycle e.cycle es (ground (arith, b)) q.2 in rw (b, others.1) h.1
]

-- In a ready runtime whose queue is in order, the delivery of the due events, where none is refused,
-- leaves exactly the events after the cycle at which it began.
pub apply_due_events-later :
    (r : Runtime)
    → IsReady r
    → IsQueue r.next_event_sequence 0 r.events
    → Leaves (later r.cpu.cycles r.events) (apply_due_events r)
unfolding apply_due_events
apply_due_events-later r h q =
    apply_due-Leaves r.next_event_sequence 0 r.cpu.cycles r.events r q h.queue (h.cpu_IsWell, refl)
