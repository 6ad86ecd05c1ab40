-- ===== src/Tests/Devices.antt =====
-- The keyboard, the display, the runtime and the interpreter at concrete states.
use apollo_rs.Prelude.{
  ℕ, ◌≡◌, refl, arith, ◌+◌, ◌*◌, some, none, [], ◌∷◌, ◌++◌, ok, IfOk, if◌then◌else◌, ◌==◌, ◌-◌, ◌/◌,
  ◌%◌,
}
use apollo_rs.Bits.{shr, low_bits}
use apollo_rs.Memory.Store.{blank}
use apollo_rs.Memory.Total.{blank-IsValid}
use apollo_rs.Cpu.State.{key1}
use apollo_rs.Cpu.Step.{new}
use apollo_rs.Cpu.Safe.Run.{new-IsWell}
use apollo_rs.Dsky.Keys.{digit}
use apollo_rs.Dsky.Pinball.{initial, accept_all}
use apollo_rs.Dsky.Spelled.{Entered, v37, accept_all-spelled}
use apollo_rs.Dsky.Display.{blank_display, decode_digit, write_relay}
use apollo_rs.Dsky.Digits.{place_of, write_relay-registers}
use apollo_rs.Runtime.Events.{
  Runtime, interrupt_event, dsky_key, idle_hardware, schedule, apply_due_events,
}
use apollo_rs.Runtime.Machine.{step, run}
use apollo_rs.Runtime.Safe.{IsReady, StepEnds, step-IsReady}
use apollo_rs.Runtime.Queue.{due, later, IsQueue, Leaves, schedule-order, apply_due_events-later}
use apollo_rs.Runtime.Downlink.{run-no_downlink}
use apollo_rs.Prelude.{List}
use apollo_rs.Prelude.Int.{pos}
use apollo_rs.Interpreter.Values.{scalar}
use apollo_rs.Interpreter.Root.{integer_sqrt, IsRoot, integer_sqrt-IsRoot}
use apollo_rs.Interpreter.Machine.{
  Instruction, State, literal, push, multiply, square_root, call, return, exit, initial_state,
  perform,
}
use apollo_rs.Interpreter.Machine as Interpreter
use apollo_rs.Interpreter.Laws.{return-call}

accept_all-spelled_example :
    IfOk (Entered (v37 ++ digit 6 ∷ [])) (accept_all initial (v37 ++ digit 6 ∷ []))
accept_all-spelled_example = accept_all-spelled (v37 ++ digit 6 ∷ [])

-- Relay 7 with the codes of 1 and 2.
abbrev relay_word : ℕ
relay_word = 7 * 2048 + 0o03 * 32 + 0o31

write_relay-registers_example : (write_relay blank_display relay_word).registers 0 1 ≡ (
    if low_bits (shr relay_word 11) 4 == (16 - place_of 0 1) / 2
    then decode_digit
        (if place_of 0 1 % 2 == 1 then low_bits (shr relay_word 5) 5 else low_bits relay_word 5)
    else none)
write_relay-registers_example =
    write_relay-registers blank_display relay_word 0 1 (omega arith) (omega arith)

-- A runtime after power-up with a key and an interrupt waiting.
abbrev waiting : Runtime
waiting = record {
  cpu = new blank;
  events =
      record { cycle = 0; sequence = 0; event = dsky_key 0o21 }
      ∷ record { cycle = 5; sequence = 1; event = interrupt_event key1 }
      ∷ [];
  next_event_sequence = 2;
  hardware = idle_hardware;
  observer = record { executive_slots = []; waitlist_slots = [] };
}

waiting-IsReady : IsReady waiting
waiting-IsReady = record { cpu_IsWell = new-IsWell blank blank-IsValid; queue = (tt, (tt, tt)) }

waiting-IsQueue : IsQueue 2 0 waiting.events
waiting-IsQueue = (omega arith, omega arith, (omega arith, omega arith, tt))

step-IsReady_example : StepEnds (step waiting)
step-IsReady_example = step-IsReady waiting waiting-IsReady

schedule-order_example :
    let (scheduled, s) = schedule waiting 3 (dsky_key 1) in
    (s.events ≡ due 3 waiting.events ++ scheduled ∷ later 3 waiting.events)
    × IsQueue s.next_event_sequence 0 s.events
    × (scheduled ≡ record { cycle = 3; sequence = 2; event = dsky_key 1 })
schedule-order_example = schedule-order waiting 3 (dsky_key 1) waiting-IsQueue

apply_due_events-later_example :
    Leaves (later waiting.cpu.cycles waiting.events) (apply_due_events waiting)
apply_due_events-later_example = apply_due_events-later waiting waiting-IsReady waiting-IsQueue

run-no_downlink_example : (run 9 waiting 4).1.hardware.downlink ≡ []
run-no_downlink_example = run-no_downlink 9 4 waiting refl refl

integer_sqrt-IsRoot_example : (r : ℕ) × (integer_sqrt 17 ≡ some r) × IsRoot 17 r
integer_sqrt-IsRoot_example = integer_sqrt-IsRoot 17

-- The root of 3 times 4.
abbrev rooted : List Instruction
rooted =
    literal (scalar (pos 3))
    ∷ push
    ∷ literal (scalar (pos 4))
    ∷ multiply 0
    ∷ square_root
    ∷ exit
    ∷ []

return-call_example :
    IfOk
      (λ t.
        (t.pc ≡ 4)
        × ((u : State)
            → u.calls ≡ t.calls
            → perform return 6 u ≡ ok (record u { pc = 0; calls = [] })))
      (perform (call 4) 6 initial_state)
return-call_example = return-call 4 6 initial_state
