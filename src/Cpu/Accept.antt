-- ===== src/Cpu/Accept.antt =====
-- When an interrupt is accepted, and which.
use apollo_rs.Prelude.{ℕ, ◌<◌, ◌≤◌, ◌≡◌, refl, sym, ap, ◌∙◌, Bool, true, false}
use apollo_rs.Prelude.{◌||◌, List, [], ◌∷◌, Option, some, none, not, ◌&&◌}
use mathlib.Core.Path.{subst}
use apollo_rs.Isa.Mnemonics.{DecodedInstruction}
use apollo_rs.Cpu.State.{Machine, Outcome, done, failed, Interrupt, number, contains, ◌>>=◌}
use apollo_rs.Cpu.Sets.{IsRising, first_least}
use apollo_rs.Cpu.Step.{rest, accept_interrupt, is_maskable, is_edrupt, vector_of, first}
use apollo_rs.Cpu.Interrupts.{Entered, enter_interrupt_total}

abbrev pub is_empty : List Interrupt → Bool
is_empty [] = true
is_empty (i ∷ is) = false

-- What `accept_interrupt` may return: nothing, with nothing changed, when the instruction is no
-- EDRUPT and the entry is masked or nothing is pending; or, in every other case, the entry of the
-- first pending request, if there is one, which is pending no more.
abbrev pub Accepted :
    DecodedInstruction → ℕ → Machine → Option (Option Interrupt × ℕ) → Machine → Type 0
Accepted d pc s none t =
    (t ≡ s)
    × (is_edrupt d.mnemonic ≡ false)
    × ((is_maskable s.cpu d && not (is_empty s.cpu.pending_interrupts)) ≡ false)
Accepted d pc s (some (i, target)) t =
    Entered d pc i t
    × (target ≡ vector_of i)
    × (i ≡ first s.cpu.pending_interrupts)
    × (t.cpu.pending_interrupts ≡ rest s.cpu.pending_interrupts)
    × ((is_edrupt d.mnemonic || is_maskable s.cpu d && not (is_empty s.cpu.pending_interrupts))
        ≡ true)

-- The state with the given requests pending.
abbrev pending : Machine → List Interrupt → Machine
pending s is = record s { cpu = record s.cpu { pending_interrupts = is } }

module _ (d : DecodedInstruction) (pc : ℕ) (s : Machine) (h : pc < 4096) where
  abbrev Outcomes : List Interrupt → Type 0
  Outcomes is =
      (r : Option (Option Interrupt × ℕ)) × (t : Machine) × (accept_interrupt d pc (pending s is)
        ≡ done r t)
      × Accepted d pc (pending s is) r t

  by_tests :
      (e m : Bool) (is : List Interrupt)
      → is_edrupt d.mnemonic ≡ e
      → is_maskable (pending s is).cpu d ≡ m
      → Outcomes is
  unfolding accept_interrupt
  by_tests false false is e m = (none, pending s is, rw (e, m), (refl, e, rw m))
  by_tests false true [] e m = (none, pending s [], rw (e, m), (refl, e, rw m))
  by_tests false true (i ∷ is) e m =
      let (t, run, entered, kept) = enter_interrupt_total d pc (some i) (pending s is) h in
      (
        some (some i, vector_of (some i)),
        t,
        rw (e, m, run, ◌>>=◌),
        (entered, refl, refl, kept, rw (e, m)),
      )
  by_tests true m [] e f =
      let (t, run, entered, kept) = enter_interrupt_total d pc none (pending s []) h in
      (some (none, 0), t, rw (e, run, ◌>>=◌), (entered, refl, refl, kept, rw e))
  by_tests true m (i ∷ is) e f =
      let (t, run, entered, kept) = enter_interrupt_total d pc (some i) (pending s is) h in
      (some (some i, vector_of (some i)), t, rw (e, run, ◌>>=◌), (entered, refl, refl, kept, rw e))

-- For any twelve-bit address `accept_interrupt` never fails. It declines, changing nothing, only when
-- the instruction is no EDRUPT and the entry is masked or nothing is pending; otherwise it enters,
-- with the first pending request if there is one, takes it out of the requests, and returns it
-- and its vector.
pub accept_interrupt_total :
    (d : DecodedInstruction) (pc : ℕ) (s : Machine)
    → pc < 4096
    → (r : Option (Option Interrupt × ℕ)) × (t : Machine) × (accept_interrupt d pc s ≡ done r t)
      × Accepted d pc s r t
accept_interrupt_total d pc s h =
    by_tests d pc s h (is_edrupt d.mnemonic) (is_maskable s.cpu d) s.cpu.pending_interrupts refl
      refl

abbrev outcome_or :
    Option (Option Interrupt × ℕ)
    → Outcome (Option (Option Interrupt × ℕ))
    → Option (Option Interrupt × ℕ)
outcome_or r (done a t) = a
outcome_or r (failed e t) = r

first-least :
    (is : List Interrupt) (i j : Interrupt)
    → IsRising number 0 is
    → some i ≡ first is
    → contains number is j ≡ true
    → number i ≤ number j
first-least [] i j r e c = cc
first-least (k ∷ is) i j r e c = let same : i ≡ k = cc in rw same (first_least number 0 k j is r c)

-- With the requests in rising order of their numbers, the one that `accept_interrupt` takes at a
-- twelve-bit address has the smallest number of all that are
-- pending, which is the highest priority.
pub accept_interrupt-least :
    (d : DecodedInstruction) (pc target : ℕ) (s t : Machine) (i j : Interrupt)
    → pc < 4096
    → IsRising number 0 s.cpu.pending_interrupts
    → accept_interrupt d pc s ≡ done (some (some i, target)) t
    → contains number s.cpu.pending_interrupts j ≡ true
    → number i ≤ number j
accept_interrupt-least d pc target s t i j h rising run c =
    let (r, u, run', accepted) = accept_interrupt_total d pc s h in
    let same : r ≡ some (some i, target) = ap (outcome_or none) (sym run' ∙ run) in
    let known : Accepted d pc s (some (some i, target)) u =
      subst (λ x. Accepted d pc s x u) same accepted in
    first-least s.cpu.pending_interrupts i j rising known.2 c
