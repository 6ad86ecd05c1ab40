-- ===== src/Faults/Audit.antt =====
-- crates/agc-faults/src/lib.rs: what `apply_due` applies and records.
use apollo_rs.Prelude.{
  ℕ, ◌<◌, ◌≡◌, refl, arith, true, false, ltb, leb, if◌then◌else◌, if_cases, List, [], ◌∷◌, ◌++◌,
  Option, Result, ok, err, IfOk, IfOk-bind, inl, inr, ap, sym, ◌∙◌, Bool-cases, Result-cases,
}
use mathlib.Core.List.{append-nil, append_assoc}
use apollo_rs.Runtime.Events.{Runtime}
use apollo_rs.Faults.Effects.{
  Fault, ScheduledFault, AppliedFault, FaultError, FaultEngine, take_effect, apply, with_engine,
  erasable_bit_flip, physical_erasable_bit_flip, rope_bit_flip, register_fault, stuck_channel,
  drop_interrupt, timer_jump, imu_bias, radar_sample,
}
use apollo_rs.Faults.Engine.{Ran, apply_each, apply_due}

-- No fault in front is due.
abbrev pub IsIdle : ℕ → List ScheduledFault → Type 0
IsIdle now [] = Unit
IsIdle now (f ∷ fs) = now < f.instruction

apply_each-idle :
    (now : ℕ) (fs : List ScheduledFault) (e : FaultEngine) (r : Runtime)
    → IsIdle now fs
    → apply_each now fs e r ≡ (ok tt, e, r)
unfolding apply_each
apply_each-idle now [] e r h = refl
apply_each-idle now (f ∷ fs) e r h = ground arith

-- The faults in front that are due, and those behind them.
abbrev pub due_faults : ℕ → List ScheduledFault → List Fault
due_faults now [] = []
due_faults now (f ∷ fs) = if leb f.instruction now then f.fault ∷ due_faults now fs else []

abbrev pub later_faults : ℕ → List ScheduledFault → List ScheduledFault
later_faults now [] = []
later_faults now (f ∷ fs) = if leb f.instruction now then later_faults now fs else f ∷ fs

abbrev pub faults_of : List AppliedFault → List Fault
faults_of [] = []
faults_of (a ∷ rest) = a.fault ∷ faults_of rest

faults_of-append : (xs ys : List AppliedFault) → faults_of (xs ++ ys) ≡ faults_of xs ++ faults_of ys
faults_of-append [] ys = refl
faults_of-append (a ∷ xs) ys = ap (λ fs. a.fault ∷ fs) (faults_of-append xs ys)

-- An effect leaves the schedule and the record of faults to its caller.
abbrev Untouched : FaultEngine → Result FaultError (Option ℕ × FaultEngine × Runtime) → Type 0
Untouched e = IfOk (λ x. (x.1.scheduled ≡ e.scheduled) × (x.1.applied ≡ e.applied))

with_engine-Untouched :
    (e : FaultEngine) (x : Result FaultError (Option ℕ × Runtime)) → Untouched e (with_engine e x)
with_engine-Untouched e (ok x) = (refl, refl)
with_engine-Untouched e (err x) = tt

take_effect-Untouched :
    (f : Fault) (e : FaultEngine) (r : Runtime) → Untouched e (take_effect f e r)
unfolding take_effect
take_effect-Untouched (erasable_bit_flip k mask) e r = with_engine-Untouched e _
take_effect-Untouched (physical_erasable_bit_flip b o mask) e r = with_engine-Untouched e _
take_effect-Untouched (rope_bit_flip b o mask) e r = with_engine-Untouched e _
take_effect-Untouched (register_fault i mask) e r = with_engine-Untouched e _
take_effect-Untouched (stuck_channel c w n) e r =
    if_cases (Untouched e) (ltb 0o777 c) _ _ (λ _. tt) λ _. (refl, refl)
take_effect-Untouched (drop_interrupt i) e r = (refl, refl)
take_effect-Untouched (timer_jump k d) e r = with_engine-Untouched e _
take_effect-Untouched (imu_bias x y z) e r = (refl, refl)
take_effect-Untouched (radar_sample range rate) e r = (refl, refl)

apply-recorded :
    (f : Fault) (e : FaultEngine) (r : Runtime)
    → IfOk
        (λ x.
          (x.0.scheduled ≡ e.scheduled) × (faults_of x.0.applied ≡ faults_of e.applied ++ f ∷ []))
        (apply f e r)
unfolding apply
apply-recorded f e r =
    IfOk-bind (λ x. (x.1.scheduled ≡ e.scheduled) × (x.1.applied ≡ e.applied))
      (λ x. (x.0.scheduled ≡ e.scheduled) × (faults_of x.0.applied ≡ faults_of e.applied ++ f ∷ []))
      (take_effect f e r) _ (take_effect-Untouched f e r)
      λ x k. (k.0, faults_of-append x.1.applied _ ∙ ap (λ rs. faults_of rs ++ f ∷ []) k.1)

-- The faults that a run of the loop adds to the record are those that are due.
abbrev pub Recorded : ℕ → List ScheduledFault → FaultEngine → Ran (Unit {0}) → Type 0
Recorded now fs e (ok done, g, s) =
    (g.scheduled ≡ later_faults now fs)
    × (faults_of g.applied ≡ faults_of e.applied ++ due_faults now fs)
Recorded now fs e (err x, g, s) = Unit

-- A due fault comes before those that the rest of the loop adds.
Recorded-cons :
    (now : ℕ) (f : ScheduledFault) (fs : List ScheduledFault) (e g : FaultEngine)
    (m : Ran (Unit {0}))
    → leb f.instruction now ≡ true
    → faults_of g.applied ≡ faults_of e.applied ++ f.fault ∷ []
    → Recorded now fs g m
    → Recorded now (f ∷ fs) e m
Recorded-cons now f fs e g (err x, k, s) due one h = tt
Recorded-cons now f fs e g (ok done, k, s) due one h = rw due (
  h.0,
  h.1
      ∙ ap (λ rs. rs ++ due_faults now fs) one
      ∙ append_assoc (faults_of e.applied) (f.fault ∷ []) (due_faults now fs),
)

module _ (now : ℕ) (f : ScheduledFault) (fs : List ScheduledFault) (e : FaultEngine)
    (r : Runtime) where
  abbrev without : FaultEngine
  without = record e { scheduled = fs }

  apply_each-later : leb f.instruction now ≡ false → apply_each now (f ∷ fs) e r ≡ (ok tt, e, r)
  unfolding apply_each
  apply_each-later later = ground (arith, later)

  apply_each-failed :
      {x : FaultError}
      → leb f.instruction now ≡ true
      → apply f.fault without r ≡ err x
      → apply_each now (f ∷ fs) e r ≡ (err x, without, r)
  unfolding apply_each
  apply_each-failed due failed = ground (arith, due, failed)

  apply_each-applied :
      {g : FaultEngine} {s : Runtime}
      → leb f.instruction now ≡ true
      → apply f.fault without r ≡ ok (g, s)
      → apply_each now (f ∷ fs) e r ≡ apply_each now fs g s
  unfolding apply_each
  apply_each-applied due done = ground (arith, due, done)

apply_each-Recorded :
    (now : ℕ) (fs : List ScheduledFault) (e : FaultEngine) (r : Runtime)
    → e.scheduled ≡ fs
    → Recorded now fs e (apply_each now fs e r)
apply_each-Recorded now [] e r h =
    rw (apply_each-idle now [] e r tt) (h, sym (append-nil (faults_of e.applied)))
apply_each-Recorded now (f ∷ fs) e r h = elim (Bool-cases (leb f.instruction now)) [
  | inr later ↦
      rw (apply_each-later now f fs e r later, later) (h, sym (append-nil (faults_of e.applied)))
  | inl due ↦ elim (Result-cases (apply f.fault (without now f fs e r) r)) [
    | inl (x, failed) ↦ rw (apply_each-failed now f fs e r due failed) tt
    | inr ((g, s), done) ↦
        let k = rw done at (apply-recorded f.fault (without now f fs e r) r) in
        rw (apply_each-applied now f fs e r due done) (
          Recorded-cons now f fs e g (apply_each now fs g s) due k.1
            (apply_each-Recorded now fs g s k.0))
  ]
]

-- When the due faults of a boundary have been applied with no failure, the faults added to the
-- record are exactly those that were in front and due, in their order, and those behind them stay
-- scheduled.
pub apply_due-Recorded :
    (e : FaultEngine) (r : Runtime) → Recorded r.cpu.sequence e.scheduled e (apply_due e r)
unfolding apply_due
apply_due-Recorded e r = apply_each-Recorded r.cpu.sequence e.scheduled e r refl
