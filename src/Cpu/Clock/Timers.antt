-- ===== src/Cpu/Clock/Timers.antt =====
-- crates/agc-cpu/src/lib.rs: the parts of a scaler tick end, with the memory valid and the cycles
-- owed unchanged.
use apollo_rs.Prelude.{ℕ, ◌+◌, ◌<◌, ◌≤◌, ◌≡◌, refl, sym, ◌∙◌, arith}
use apollo_rs.Prelude.{List, ◌==◌, ◌&&◌, if_cases, none}
use mathlib.Core.Path.{subst}
use apollo_rs.Bits.{low_bits, bit_is_set}
use apollo_rs.Word.{IsWord, is_zero, from_raw_truncate}
use apollo_rs.Word.Sum.{wrapping_add-IsWord}
use apollo_rs.Memory.Store
use apollo_rs.Memory.Store.{Memory, MemoryAccess, read_access}
use apollo_rs.Memory.Invariant.{IsValid}
use apollo_rs.Memory.Keeps.{write_channel-IsValid, read-IsWord}
use apollo_rs.Memory.Total.{write_safe}
use apollo_rs.Memory.Bounds.{read_total}
use apollo_rs.Cpu.Arithmetic.{counter_pinc}
use apollo_rs.Cpu.State.{
  Machine, M, pure, ◌>>=◌, ◌>>◌, Interrupt, number, lift_memory, modify, push_memory,
  push_interrupt, contains, insert, time6, time5, time4, time3, handrupt, downrupt,
}
use apollo_rs.Trace.{TraceEvent, requested}
use apollo_rs.Cpu.Access.{memory_read, memory_write}
use apollo_rs.Cpu.Clock.{request_interrupt_event, is_due, service_downrupt_due}
use apollo_rs.Cpu.Clock.{
  increment_timer, increment_time1, publish_scaler, service_timers, service_time6, count_time6,
  service_handrupt_traps,
}
use apollo_rs.Cpu.Clock.Ends.{Ends, Ends-bind}

pub from_raw_truncate-IsWord : (x : ℕ) → IsWord (from_raw_truncate x)
unfolding from_raw_truncate
from_raw_truncate-IsWord x = omega arith

counter_pinc-IsWord : (w : ℕ) → IsWord (counter_pinc w).0
unfolding counter_pinc
counter_pinc-IsWord w = ground arith

-- What the clock and the instructions leave alone: the log and its count, and the start of the event.
pub record View : Type 0 where
  pub log : List TraceEvent
  pub logged : ℕ
  pub sequence : ℕ
  pub schema_version : ℕ
  pub cycle_start : ℕ

abbrev pub view : Machine → View
view s = record {
  log = s.cpu.trace;
  logged = s.cpu.trace_sequence;
  sequence = s.event.sequence;
  schema_version = s.event.schema_version;
  cycle_start = s.event.cycle_start;
}

-- The memory is valid, and the view and the debt of cycles are the given ones.
pub record Calm (v : View) (debt : ℕ) (t : Machine) : Type 0 where
  pub memory_IsValid : IsValid t.cpu.memory
  pub debt_is : t.cpu.scaler_mcts ≡ debt
  pub view_is : view t ≡ v

module _ (v : View) (n : ℕ) where
  -- The method ends, and keeps calm.
  pub record Steady {A : Type 0} (Q : A → Type 0) (m : M A) : Type 0 where
    pub runs : (s : Machine) → Calm v n s → Ends (λ a t. Q a × Calm v n t) (m s)

  pub Steady-bind :
      {A B : Type 0} (Q : A → Type 0) (P : B → Type 0) (m : M A) (f : A → M B)
      → Steady Q m
      → ((a : A) → Q a → Steady P (f a))
      → Steady P (m >>= f)
  Steady-bind Q P m f h k = record {
    runs = λ s c.
        Ends-bind (λ a t. Q a × Calm v n t) (λ b t. P b × Calm v n t) m f s (h.runs s c)
          λ a t q. (k a q.0).runs t q.1;
  }

  abbrev pub Any : {A : Type 0} → A → Type 0
  Any a = Unit

  abbrev pub Word-in : MemoryAccess → Type 0
  Word-in a = IsWord a.value

  pub kept :
      (s t : Machine)
      → t.cpu.memory ≡ s.cpu.memory
      → t.cpu.scaler_mcts ≡ s.cpu.scaler_mcts
      → view t ≡ view s
      → Calm v n s
      → Calm v n t
  kept s t m d e c = record {
    memory_IsValid = subst IsValid (sym m) c.memory_IsValid;
    debt_is = d ∙ c.debt_is;
    view_is = e ∙ c.view_is;
  }

  pub request_interrupt_event-Steady : (i : Interrupt) → Steady Any (request_interrupt_event i)
  unfolding request_interrupt_event
  request_interrupt_event-Steady i = record {
    runs = λ s c.
        (if_cases {A = M (Unit {0})} (Steady Any) (contains number s.cpu.pending_interrupts i)
            (pure tt) (push_interrupt (requested (number i)))
            (λ _. record { runs = λ t d. (tt, d) })
            (λ _. record { runs = λ t d. (tt, kept t _ refl refl refl d) })).runs
          (record s {
            cpu = record s.cpu { pending_interrupts = insert number s.cpu.pending_interrupts i };
          })
          (kept s _ refl refl refl c);
  }

  pub memory_read-Steady : (address : ℕ) → address ≤ 0o7777 → Steady Word-in (memory_read address)
  unfolding memory_read
  memory_read-Steady address h = record {
    runs = λ s c.
        let (w, _, reads) = read_total s.cpu.memory address read_access h in
        let word : IsWord w =
          rw reads at (read-IsWord s.cpu.memory address read_access c.memory_IsValid) in
        rw (reads, ◌>>=◌, lift_memory) (word, c);
  }

  pub memory_write-Steady :
      (address w : ℕ) → address < 0o2000 → IsWord w → Steady Any (memory_write address w)
  unfolding memory_write
  memory_write-Steady address w h word = record {
    runs = λ s c.
        let (a, m, writes, valid) = write_safe s.cpu.memory address w c.memory_IsValid word h in
        rw (writes, ◌>>=◌, lift_memory)
          (tt, record { memory_IsValid = valid; debt_is = c.debt_is; view_is = c.view_is });
  }

  pub push_memory-Steady : (a : MemoryAccess) → Steady Any (push_memory a)
  push_memory-Steady a = record { runs = λ s c. (tt, kept s _ refl refl refl c) }

  increment_timer-Steady :
      (address : ℕ) (i : Interrupt) → address < 0o2000 → Steady Any (increment_timer address i)
  unfolding increment_timer
  increment_timer-Steady address i h =
      Steady-bind Word-in Any _ _ (memory_read-Steady address (omega arith)) λ current word.
        Steady-bind Any Any _ _
          (if_cases (Steady Any) (counter_pinc current.value).1 _ _
            (λ _. request_interrupt_event-Steady i) λ _. record { runs = λ t d. (tt, d) })
          λ _ _.
            Steady-bind Any Any _ _
              (memory_write-Steady address _ h (counter_pinc-IsWord current.value))
              λ a _. push_memory-Steady a

  -- At most the given number of cycles.
  abbrev pub UpTo : ℕ → ℕ → Type 0
  UpTo k d = d ≤ k

  pub pure-Steady : {A : Type 0} (Q : A → Type 0) (a : A) → Q a → Steady Q (pure a)
  pure-Steady Q a q = record { runs = λ s c. (q, c) }

  increment_time1-Steady : Steady (UpTo 2) increment_time1
  unfolding increment_time1
  increment_time1-Steady =
      Steady-bind Word-in (UpTo 2) _ _ (memory_read-Steady 0o25 (omega arith)) λ time1 _.
        Steady-bind Any (UpTo 2) _ _
          (memory_write-Steady 0o25 _ (omega arith) (counter_pinc-IsWord time1.value))
          λ a _. Steady-bind Any (UpTo 2) _ _ (push_memory-Steady a) λ _ _.
            if_cases (Steady (UpTo 2)) (counter_pinc time1.value).1 _ _
              (λ _.
                Steady-bind Word-in (UpTo 2) _ _ (memory_read-Steady 0o24 (omega arith)) λ time2 _.
                  Steady-bind Any (UpTo 2) _ _
                    (memory_write-Steady 0o24 _ (omega arith) (counter_pinc-IsWord time2.value))
                    λ b _.
                      Steady-bind Any (UpTo 2) _ _ (push_memory-Steady b)
                        λ _ _. pure-Steady (UpTo 2) 2 (omega arith))
              λ _. pure-Steady (UpTo 2) 1 (omega arith)

  service_timers-Steady : Steady (UpTo 3) service_timers
  unfolding service_timers
  service_timers-Steady = record {
    runs = λ s c.
        let one : (address : ℕ) (i : Interrupt)
            → address < 0o2000
            → Steady (UpTo 3) (increment_timer address i >> pure 1) =
          λ address i h.
            Steady-bind Any (UpTo 3) _ _ (increment_timer-Steady address i h)
              λ _ _. pure-Steady (UpTo 3) 1 (omega arith) in
        (if_cases (Steady (UpTo 3)) (low_bits s.cpu.scaler 5 == 0) _ _
            (λ _. one 0o30 time5 (omega arith))
            (λ _.
              if_cases (Steady (UpTo 3)) (low_bits s.cpu.scaler 5 == 8) _ _
                (λ _. one 0o27 time4 (omega arith))
                λ _.
                  if_cases (Steady (UpTo 3)) (low_bits s.cpu.scaler 5 == 16) _ _
                    (λ _. Steady-bind (UpTo 2) (UpTo 3) _ _ increment_time1-Steady λ d h.
                      Steady-bind Any (UpTo 3) _ _ (increment_timer-Steady 0o26 time3 (omega arith))
                        λ _ _. pure-Steady (UpTo 3) (d + 1) (omega arith))
                    λ _. pure-Steady (UpTo 3) 0 (omega arith))).runs
          s c;
  }

  publish_scaler-Steady : Steady Any publish_scaler
  unfolding publish_scaler
  publish_scaler-Steady = record {
    runs = λ s c.
        let first =
          write_channel-IsValid s.cpu.memory 4 _ c.memory_IsValid
            (from_raw_truncate-IsWord s.cpu.scaler) in
        (
          tt,
          record {
            memory_IsValid =
                if_cases IsValid (s.cpu.scaler == 0) _ _
                  (λ _. write_channel-IsValid _ 3 _ first (from_raw_truncate-IsWord _)) λ _. first;
            debt_is = c.debt_is;
            view_is = c.view_is;
          },
        );
  }

  count_time6-Steady : (channel13 : ℕ) → Steady Any (count_time6 channel13)
  unfolding count_time6
  count_time6-Steady channel13 =
      Steady-bind Word-in Any _ _ (memory_read-Steady 0o31 (omega arith)) λ access word.
        if_cases (Steady Any) (is_zero access.value) _ _
          (λ _. Steady-bind Any Any _ _ (request_interrupt_event-Steady time6) λ _ _. record {
            runs = λ t d. (
              tt,
              record {
                memory_IsValid =
                    write_channel-IsValid t.cpu.memory 11 _ d.memory_IsValid
                      (from_raw_truncate-IsWord _);
                debt_is = d.debt_is;
                view_is = d.view_is;
              },
            );
          })
          λ _.
            Steady-bind Any Any _ _
              (memory_write-Steady 0o31 _ (omega arith) (wrapping_add-IsWord access.value _))
              λ a _. push_memory-Steady a

  service_time6-Steady : Steady (UpTo 1) service_time6
  unfolding service_time6
  service_time6-Steady = record {
    runs = λ s c.
        (if_cases (Steady (UpTo 1))
            (bit_is_set s.cpu.scaler 0 && bit_is_set (Store.read_channel s.cpu.memory 0o13) 14) _ _
            (λ _.
              Steady-bind Any (UpTo 1) _ _ (count_time6-Steady _)
                λ _ _. pure-Steady (UpTo 1) 1 (omega arith))
            (λ _. pure-Steady (UpTo 1) 0 (omega arith))).runs
          s c;
  }

  service_handrupt_traps-Steady : Steady Any service_handrupt_traps
  unfolding service_handrupt_traps
  service_handrupt_traps-Steady = record {
    runs = λ s c.
        (if_cases (Steady Any) _ _ _ (λ _. request_interrupt_event-Steady handrupt)
            (λ _. pure-Steady Any tt tt)).runs
          _ (kept s _ refl refl refl c);
  }

  pub service_downrupt_due-Steady : Steady Any service_downrupt_due
  unfolding service_downrupt_due
  service_downrupt_due-Steady = record {
    runs = λ s c.
        (if_cases {A = M (Unit {0})} (Steady Any) (is_due s.cpu.downrupt_due s.cpu.cycles) _ _
            (λ _.
              Steady-bind Any Any (modify λ c. record c { downrupt_due = none }) _
                (record { runs = λ t d. (tt, kept t _ refl refl refl d) })
                λ _ _. request_interrupt_event-Steady downrupt)
            (λ _. pure-Steady Any tt tt)).runs
          s c;
  }

  -- The work of a tick after the scaler is counted.
  pub tick-Steady : Steady (UpTo 4) (do
    publish_scaler
    timers ← service_timers
    counted ← service_time6
    service_handrupt_traps
    pure (timers + counted))
  tick-Steady = Steady-bind Any (UpTo 4) _ _ publish_scaler-Steady λ _ _.
      Steady-bind (UpTo 3) (UpTo 4) _ _ service_timers-Steady λ timers h.
        Steady-bind (UpTo 1) (UpTo 4) _ _ service_time6-Steady λ counted k.
          Steady-bind Any (UpTo 4) _ _ service_handrupt_traps-Steady
            λ _ _. pure-Steady (UpTo 4) (timers + counted) (omega arith)
