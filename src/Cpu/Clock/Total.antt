-- ===== src/Cpu/Clock/Total.antt =====
-- The loops of the clock end: `service_scaler` and `advance_to_ready_mct`.
use apollo_rs.Prelude.{
  ℕ, zero, suc, ◌+◌, ◌-◌, ◌*◌, ◌<◌, ◌≤◌, ◌≡◌, refl, arith, true, false, leb, ◌==◌, if_cases,
  Bool-cases, inl, inr, leb→le,
}
use apollo_rs.Memory.Invariant.{IsValid}
use apollo_rs.Cpu.State.{Machine, Outcome, done, failed, M, ◌>>=◌, modify}
use apollo_rs.Cpu.Clock.{
  service_downrupt_due, scaler_tick, service_scaler, service_scaler_loop, clock_deferred_mct,
  clock_deferred_mcts, advance_loop, advance_to_ready_mct,
}
use apollo_rs.Cpu.Clock.Ends.{Ends, Ends-bind, Ends-weaken}
use apollo_rs.Cpu.Clock.Timers.{View, view, Calm, Any, tick-Steady, service_downrupt_due-Steady}

module _ (v : View) where
  scaler_tick-Ends :
      (n : ℕ) (s : Machine) → Calm v n s → Ends (λ d t. (d ≤ 4) × Calm v (n - 80) t) (scaler_tick s)
  unfolding scaler_tick
  scaler_tick-Ends n s c = (tick-Steady v (n - 80)).runs _ (record {
    memory_IsValid = c.memory_IsValid;
    debt_is = omega (arith, c.debt_is);
    view_is = c.view_is;
  })

  -- The memory is valid, less than a tick of cycles is owed, and the view is the given one.
  abbrev pub Ready : Machine → Type 0
  Ready t = IsValid t.cpu.memory × (t.cpu.scaler_mcts < 80) × (view t ≡ v)

  Calm-Ready : (n : ℕ) (t : Machine) → n < 80 → Calm v n t → Ready t
  Calm-Ready n t h c = (c.memory_IsValid, omega (arith, c.debt_is), c.view_is)

  -- Below 80 the loop is over.
  loop_quiet :
      (fuel d n : ℕ) (s : Machine)
      → n < 80
      → Calm v n s
      → service_scaler_loop (suc fuel) d s ≡ done d s
  unfolding service_scaler_loop
  loop_quiet fuel d n s h c =
      let under : leb 80 s.cpu.scaler_mcts ≡ false = ground (arith, c.debt_is) in rw under refl

  service_scaler-quiet : (n : ℕ) (s : Machine) → n < 80 → Calm v n s → service_scaler s ≡ done 0 s
  unfolding service_scaler
  service_scaler-quiet n s h c =
      let more : s.cpu.scaler_mcts + 1 ≡ suc s.cpu.scaler_mcts = omega arith in
      rw more (loop_quiet s.cpu.scaler_mcts 0 n s h c)

  service_scaler-busy :
      (n : ℕ) (s : Machine)
      → 80 ≤ n
      → n < 160
      → Calm v n s
      → Ends (λ d t. (d ≤ 4) × Calm v (n - 80) t) (service_scaler s)
  unfolding service_scaler service_scaler_loop
  service_scaler-busy n s lo hi c =
      let more : s.cpu.scaler_mcts + 1 ≡ suc (suc (n - 1)) = omega (arith, c.debt_is) in
      let over : leb 80 s.cpu.scaler_mcts ≡ true = ground (arith, c.debt_is) in
      rw (more, over)
        (Ends-bind (λ d t. (d ≤ 4) × Calm v (n - 80) t) (λ d t. (d ≤ 4) × Calm v (n - 80) t)
          scaler_tick (λ d. service_scaler_loop (suc (n - 1)) (0 + d)) s (scaler_tick-Ends n s c)
          λ d t q. rw (loop_quiet (n - 1) (0 + d) (n - 80) t (omega arith) q.1) (omega arith, q.1))

  pub clock_deferred_mct-Ends :
      (n : ℕ) (s : Machine) → Calm v n s → Ends (λ _ t. Calm v (n + 3) t) (clock_deferred_mct s)
  unfolding clock_deferred_mct
  clock_deferred_mct-Ends n s c =
      Ends-bind (λ a t. Any v n a × Calm v n t) (λ _ t. Calm v (n + 3) t) service_downrupt_due
        (λ _. modify λ c. record c { cycles = c.cycles + 1; scaler_mcts = c.scaler_mcts + 3 }) s
        ((service_downrupt_due-Steady v n).runs s c)
        λ _ t d. record {
          memory_IsValid = d.1.memory_IsValid;
          debt_is = omega (arith, d.1.debt_is);
          view_is = d.1.view_is;
        }

  pub clock_deferred_mcts-Ends :
      (k n : ℕ) (s : Machine)
      → Calm v n s
      → Ends (λ _ t. Calm v (n + 3 * k) t) (clock_deferred_mcts k s)
  unfolding clock_deferred_mcts
  clock_deferred_mcts-Ends zero n s c = record {
    memory_IsValid = c.memory_IsValid;
    debt_is = omega (arith, c.debt_is);
    view_is = c.view_is;
  }
  clock_deferred_mcts-Ends (suc k) n s c =
      Ends-bind (λ _ t. Calm v (n + 3) t) (λ _ t. Calm v (n + 3 * suc k) t) clock_deferred_mct
        (λ _. clock_deferred_mcts k) s (clock_deferred_mct-Ends n s c)
        λ _ t d.
          Ends-weaken (λ _ u. Calm v (n + 3 + 3 * k) u) (λ _ u. Calm v (n + 3 * suc k) u)
            (clock_deferred_mcts k t) (clock_deferred_mcts-Ends k (n + 3) t d)
            λ _ u e. record {
              memory_IsValid = e.memory_IsValid;
              debt_is = omega (arith, e.debt_is);
              view_is = e.view_is;
            }

  advance_quiet :
      (fuel n : ℕ) (s : Machine)
      → n + 3 < 80
      → Calm v n s
      → Ends (λ _ t. Ready t) (advance_loop (suc fuel) s)
  unfolding advance_loop
  advance_quiet fuel n s h c =
      Ends-bind (λ _ t. Calm v (n + 3) t) (λ _ t. Ready t) clock_deferred_mct _ s
        (clock_deferred_mct-Ends n s c)
        λ _ t d. rw (service_scaler-quiet (n + 3) t h d, ◌>>=◌) (Calm-Ready (n + 3) t h d)

  advance_busy :
      (n : ℕ) (s : Machine)
      → 80 ≤ n + 3
      → n ≤ 100
      → Calm v n s
      → Ends (λ _ t. Ready t) (advance_loop 8 s)
  unfolding advance_loop
  advance_busy n s lo hi c =
      Ends-bind (λ _ t. Calm v (n + 3) t) (λ _ t. Ready t) clock_deferred_mct _ s
        (clock_deferred_mct-Ends n s c)
        λ _ t d.
          Ends-bind (λ delay u. (delay ≤ 4) × Calm v (n + 3 - 80) u) (λ _ u. Ready u) service_scaler
            _ t (service_scaler-busy (n + 3) t lo (omega arith) d)
            λ delay u q.
              if_cases {A = M (Unit {0})} (λ m. Ends (λ _ w. Ready w) (m u)) (delay == 0) _ _
                (λ _. Calm-Ready (n + 3 - 80) u (omega arith) q.1)
                λ _.
                  Ends-bind (λ _ w. Calm v (n + 3 - 80 + 3 * (delay - 1)) w) (λ _ w. Ready w)
                    (clock_deferred_mcts (delay - 1)) (λ _. advance_loop 7) u
                    (clock_deferred_mcts-Ends (delay - 1) (n + 3 - 80) u q.1)
                    λ _ w e. advance_quiet 6 (n + 3 - 80 + 3 * (delay - 1)) w (omega arith) e

-- Waiting for the next free cycle ends, with nothing changed that the clock leaves alone.
pub advance_to_ready_mct-Ends :
    (s : Machine)
    → IsValid s.cpu.memory
    → s.cpu.scaler_mcts ≤ 100
    → Ends (λ _ t. Ready (view s) t) (advance_to_ready_mct s)
unfolding advance_to_ready_mct
advance_to_ready_mct-Ends s v h = elim (Bool-cases (leb 80 (s.cpu.scaler_mcts + 3))) [
  | inl e ↦
      advance_busy (view s) s.cpu.scaler_mcts s (leb→le _ _ e) h
        (record { memory_IsValid = v; debt_is = refl; view_is = refl })
  | inr e ↦
      advance_quiet (view s) 7 s.cpu.scaler_mcts s (ground arith)
        (record { memory_IsValid = v; debt_is = refl; view_is = refl })
]

-- From a state whose memory is valid and that owes at most 100 cycles to the scaler, waiting for the
-- next cycle that is free of counter work ends: it runs out of no fuel and no access fails. The
-- memory is valid again, and less than one tick is owed.
pub advance_to_ready_mct_total :
    (s : Machine)
    → IsValid s.cpu.memory
    → s.cpu.scaler_mcts ≤ 100
    → (t : Machine) × (advance_to_ready_mct s ≡ done tt t)
      × IsValid t.cpu.memory
      × (t.cpu.scaler_mcts < 80)
advance_to_ready_mct_total s v h = ended (advance_to_ready_mct s) (advance_to_ready_mct-Ends s v h)
  where
    ended :
        (r : Outcome (Unit {0}))
        → Ends (λ _ t. Ready (view s) t) r
        → (t : Machine) × (r ≡ done tt t) × IsValid t.cpu.memory × (t.cpu.scaler_mcts < 80)
    ended (done a t) q = (t, refl, q.0, q.1)
    ended (failed e t) q = absurd q
