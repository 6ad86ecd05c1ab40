-- ===== src/Cpu/Requests.antt =====
-- crates/agc-cpu/src/lib.rs, `request_interrupt` and `cancel_interrupt`.
use apollo_rs.Prelude.{◌≡◌, refl, arith, true, false, ◌==◌, if◌then◌else◌}
use apollo_rs.Cpu.State.{Cpu, Interrupt, number, contains}
use apollo_rs.Cpu.Sets.{
  IsRising, insert-IsRising, remove-IsRising, contains-insert, contains-remove,
}
use apollo_rs.Cpu.Step.{request_interrupt, cancel_interrupt}

-- After a request, that interrupt is pending and each other is pending just when it was before, and
-- the requests stay in rising order of their numbers if they were.
pub request_interrupt-pending :
    (c : Cpu) (i j : Interrupt)
    → IsRising number 0 c.pending_interrupts
    → IsRising number 0 (request_interrupt c i).pending_interrupts
      × (contains number (request_interrupt c i).pending_interrupts j
          ≡ (if number j == number i then true else contains number c.pending_interrupts j))
unfolding request_interrupt
request_interrupt-pending c i j r = (
  insert-IsRising number 0 c.pending_interrupts i (omega arith) r,
  contains-insert number c.pending_interrupts i j,
)

-- After a cancellation, with the requests in rising order of their numbers, that interrupt is not
-- pending and each other is pending just when it was before; the order stays, and the returned flag
-- tells whether the interrupt was pending.
pub cancel_interrupt-pending :
    (c : Cpu) (i j : Interrupt)
    → IsRising number 0 c.pending_interrupts
    → IsRising number 0 (cancel_interrupt c i).0.pending_interrupts
      × (contains number (cancel_interrupt c i).0.pending_interrupts j
          ≡ (if number j == number i then false else contains number c.pending_interrupts j))
      × ((cancel_interrupt c i).1 ≡ contains number c.pending_interrupts i)
unfolding cancel_interrupt
cancel_interrupt-pending c i j r = (
  remove-IsRising number 0 c.pending_interrupts i r,
  contains-remove number 0 c.pending_interrupts i j r,
  refl,
)
