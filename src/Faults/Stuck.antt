-- ===== src/Faults/Stuck.antt =====
-- crates/agc-faults/src/lib.rs, `step`: what a channel that is stuck reads, and for how long.
use apollo_rs.Prelude.{
  ℕ, ◌-◌, ◌≤◌, ◌≡◌, refl, arith, ap, ◌∙◌, ltb, ◌==◌, if◌then◌else◌, List, [], ◌∷◌, Result, ok, err,
  All,
}
use apollo_rs.Word.{IsWord}
use apollo_rs.Memory.Store.{
  Memory, read_channel, write_channel, write_special, write_central_raw, synchronize_banks,
}
use apollo_rs.Memory.ReadWrite.{kept, read_channel-write_channel}
use apollo_rs.Cpu.Step.{StepOutcome}
use apollo_rs.Runtime.Events.{Runtime, RuntimeError, with_memory}
use apollo_rs.Runtime.Machine as Machine
use apollo_rs.Faults.Effects.{runtime_error, ActiveChannelFault, FaultEngine}
use apollo_rs.Faults.Engine.{
  Ran, apply_due, enforce, retain_active, step_runtime, step_forced, step,
}

-- A channel that exists, stuck at a word.
abbrev pub IsStuck : ActiveChannelFault → Type 0
IsStuck f = (f.channel ≤ 0o777) × IsWord f.value

-- What a channel reads under some faults, of which the last on the channel counts.
abbrev pub stuck_at : List ActiveChannelFault → ℕ → ℕ → ℕ
stuck_at [] channel free = free
stuck_at (f ∷ fs) channel free =
    stuck_at fs channel (if f.channel == channel then kept f.channel f.value else free)

-- A memory that differs from another in its channels, which are stuck.
pub record Forces (fs : List ActiveChannelFault) (m n : Memory) : Type 0 where
  pub reads : (channel : ℕ) → read_channel n channel ≡ stuck_at fs channel (read_channel m channel)
  pub same_erasable : (place : ℕ) → n.erasable_words place ≡ m.erasable_words place
  pub same_fixed : (place : ℕ) → n.fixed_words place ≡ m.fixed_words place

-- The faults after a boundary: each has one boundary less to go, and is over when none is left.
abbrev pub outlasting : List ActiveChannelFault → List ActiveChannelFault
outlasting [] = []
outlasting (f ∷ fs) =
    if ltb 1 f.remaining
    then record f { remaining = f.remaining - 1 } ∷ outlasting fs
    else outlasting fs

-- The step of a campaign, from that of the machine: the boundary is over if the machine succeeds.
abbrev pub in_campaign : FaultEngine → Result RuntimeError StepOutcome × Runtime → Ran StepOutcome
in_campaign e (ok o, r) = (ok o, record e { active_channels = outlasting e.active_channels }, r)
in_campaign e (err x, r) = (err (runtime_error x), e, r)

write_channel-Forces :
    (m : Memory) (f : ActiveChannelFault)
    → IsStuck f
    → Forces (f ∷ []) m (write_channel m f.channel f.value)
unfolding write_channel write_special write_central_raw synchronize_banks
write_channel-Forces m f h = record {
  reads = λ channel. read_channel-write_channel m f.channel channel f.value h.1;
  same_erasable = λ place. ground arith;
  same_fixed = λ place. ground arith;
}

enforce-Forces :
    (fs : List ActiveChannelFault) (r : Runtime)
    → All IsStuck fs
    → (m : Memory) × Forces fs r.cpu.memory m × (enforce fs r ≡ (ok tt, with_memory r m))
unfolding enforce
enforce-Forces [] r h = (
  r.cpu.memory,
  record { reads = λ channel. refl; same_erasable = λ place. refl; same_fixed = λ place. refl },
  refl,
)
enforce-Forces (f ∷ fs) r h =
    let n = write_channel r.cpu.memory f.channel f.value in
    let first = write_channel-Forces r.cpu.memory f h.0 in
    let (m, rest, done) = enforce-Forces fs (with_memory r n) h.1 in
    (
      m,
      record {
        reads = λ channel. rest.reads channel ∙ ap (stuck_at fs channel) (first.reads channel);
        same_erasable = λ place. rest.same_erasable place ∙ first.same_erasable place;
        same_fixed = λ place. rest.same_fixed place ∙ first.same_fixed place;
      },
      ground (arith, h.0.0, done),
    )

retain_active-outlasting : (fs : List ActiveChannelFault) → retain_active fs ≡ outlasting fs
unfolding retain_active
retain_active-outlasting [] = refl
retain_active-outlasting (f ∷ fs) = ground (arith, retain_active-outlasting fs)

step_runtime-in_campaign :
    (e : FaultEngine) (r : Runtime) → step_runtime e r ≡ in_campaign e (Machine.step r)
unfolding step_runtime
step_runtime-in_campaign e r = by_step (Machine.step r)
  where
    by_step :
        (x : Result RuntimeError StepOutcome × Runtime)
        → ◌≡◌ {A = Ran StepOutcome}
            (elim (x.0) as (λ _. Ran StepOutcome) [
              | ok outcome ↦
                  (ok outcome, record e { active_channels = retain_active e.active_channels }, x.1)
              | err y ↦ (err (runtime_error y), e, x.1)
            ])
            (in_campaign e x)
    by_step (ok o, s) =
        ap (λ channels. (ok o, record e { active_channels = channels }, s))
          (retain_active-outlasting e.active_channels)
    by_step (err y, s) = refl

step_forced-in_campaign :
    (e : FaultEngine) (r : Runtime)
    → All IsStuck e.active_channels
    → (m : Memory) × Forces e.active_channels r.cpu.memory m
      × (step_forced e r ≡ in_campaign e (Machine.step (with_memory r m)))
unfolding step_forced
step_forced-in_campaign e r h =
    let (m, forces, done) = enforce-Forces e.active_channels r h in
    (
      m,
      forces,
      (let forced : step_forced e r ≡ step_runtime e (with_memory r m) = ground (arith, done) in
            forced)
          ∙ step_runtime-in_campaign e (with_memory r m),
    )

step-due :
    (e f : FaultEngine) (r s : Runtime) → apply_due e r ≡ (ok tt, f, s) → step e r ≡ step_forced f s
unfolding step
step-due e f r s due = ground (arith, due)

-- A step of a campaign, when the faults that are due have been applied with no failure and the
-- channels that are then stuck exist and are stuck at words, is a step of the machine with a memory
-- in which every channel reads what the last fault on it is stuck at, of which channel 7 keeps its
-- three bits, or what it read before where none is, and in which no erasable or fixed word of the
-- arrays differs. If the machine succeeds, each fault has one boundary less to go, and is over when
-- none is left; if it fails, they stay as they were.
pub step-Forces :
    (e f : FaultEngine) (r s : Runtime)
    → apply_due e r ≡ (ok tt, f, s)
    → All IsStuck f.active_channels
    → (m : Memory) × Forces f.active_channels s.cpu.memory m
      × (step e r ≡ in_campaign f (Machine.step (with_memory s m)))
step-Forces e f r s due h =
    let (m, forces, done) = step_forced-in_campaign f s h in
    (m, forces, step-due e f r s due ∙ done)
