-- ===== src/Cpu/Safe/Commit.antt =====
-- crates/agc-cpu/src/lib.rs, `step`: a well-formed processor, and the commit of an event to its log.
use apollo_rs.Prelude.{
  ℕ, ◌+◌, ◌≤◌, ◌≡◌, refl, sym, ◌∙◌, ap, arith, some, List, [], ◌∷◌, ◌++◌, length, ok,
}
use mathlib.Core.Path.{subst}
use apollo_rs.Memory.Invariant.{IsValid}
use apollo_rs.Trace.{TraceEvent, push, last}
use apollo_rs.Trace.Laws.{IsOrdered, push-IsOrdered, push-accepts, last_end}
use apollo_rs.Cpu.State.{Machine, Cpu}
use apollo_rs.Cpu.Registers.{snapshot}
use apollo_rs.Cpu.Step.{commit_event}
use apollo_rs.Cpu.Clock.Timers.{View, view, Calm}
use apollo_rs.Cpu.Safe.{Holds}

-- A valid memory, at most 82 cycles owed to the scaler, and an ordered log that is complete and has
-- ended.
pub record IsWell (c : Cpu) : Type 0 where
  pub memory_IsValid : IsValid c.memory
  pub owes : c.scaler_mcts ≤ 82
  pub ordered : IsOrdered 0 0 c.trace
  pub complete : length c.trace ≡ c.trace_sequence
  pub past : last_end (last c.trace) ≤ c.cycles

-- The view that a transition starts with, where the log takes one more event.
pub record Open (v : View) : Type 0 where
  pub ordered : IsOrdered 0 0 v.log
  pub counted : v.sequence ≡ length v.log
  pub logs : v.logged ≡ length v.log
  pub schema : v.schema_version ≡ 2
  pub past : last_end (last v.log) ≤ v.cycle_start

last-snoc : (es : List TraceEvent) (e : TraceEvent) → last (es ++ e ∷ []) ≡ some e
last-snoc [] e = refl
last-snoc (f ∷ []) e = refl
last-snoc (f ∷ g ∷ es) e = last-snoc (g ∷ es) e

-- A processor whose event is in the log, and not yet counted.
pub record Logged (t : Machine) : Type 0 where
  pub memory_IsValid : IsValid t.cpu.memory
  pub owes : t.cpu.scaler_mcts ≤ 82
  pub ordered : IsOrdered 0 0 t.cpu.trace
  pub ahead : length t.cpu.trace ≡ t.cpu.trace_sequence + 1
  pub past : last_end (last t.cpu.trace) ≤ t.cpu.cycles

pub commit_event-Holds :
    (v : View) (n : ℕ) (s : Machine)
    → Open v
    → n ≤ 82
    → Calm v n s
    → Holds (λ _ t. Logged t) (commit_event s)
unfolding commit_event
commit_event-Holds v n s o h c =
    let w : Open (view s) = subst Open (sym c.view_is) o in
    let closed : TraceEvent = record s.event { cycle_end = s.cpu.cycles; after = snapshot s.cpu } in
    let pushes : push s.cpu.trace closed ≡ ok (s.cpu.trace ++ closed ∷ []) =
      push-accepts s.cpu.trace closed w.ordered w.schema w.counted w.past in
    let logs = rw pushes at (push-IsOrdered s.cpu.trace closed w.ordered) in
    let ends : last_end (last (s.cpu.trace ++ closed ∷ [])) ≡ s.cpu.cycles =
      ap last_end (last-snoc s.cpu.trace closed) in
    rw (pushes, Holds)
      (record {
        memory_IsValid = c.memory_IsValid;
        owes = omega (arith, c.debt_is);
        ordered = logs.0;
        ahead = logs.1 ∙ ap (λ l. l + 1) (sym w.logs);
        past = omega (arith, ends);
      })

-- The event is counted.
pub counted-IsWell :
    (t : Machine)
    → Logged t
    → (c : Cpu) → c.memory ≡ t.cpu.memory
    → c.scaler_mcts ≡ t.cpu.scaler_mcts
    → c.trace ≡ t.cpu.trace
    → c.cycles ≡ t.cpu.cycles
    → c.trace_sequence ≡ t.cpu.trace_sequence + 1
    → IsWell c
counted-IsWell t l c m d r y q = record {
  memory_IsValid = subst IsValid (sym m) l.memory_IsValid;
  owes = omega (arith, d, l.owes);
  ordered = subst (IsOrdered 0 0) (sym r) l.ordered;
  complete = ap length r ∙ l.ahead ∙ sym q;
  past = subst (λ es. last_end (last es) ≤ c.cycles) (sym r) (omega (arith, y, l.past));
}
