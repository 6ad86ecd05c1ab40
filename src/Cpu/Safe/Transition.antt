-- ===== src/Cpu/Safe/Transition.antt =====
-- crates/agc-cpu/src/lib.rs, `step`: a well-formed processor stays well-formed.
use apollo_rs.Prelude.{
  ℕ, ◌^◌, ◌<◌, ◌≤◌, ◌≡◌, refl, sym, arith, Bool, true, false, Option, none, some,
}
use apollo_rs.Word.{IsWord}
use apollo_rs.Word.Sum.{wrapping_add-IsWord}
use apollo_rs.Isa.Mnemonics.{DecodedInstruction}
use apollo_rs.Isa.Decode.{decode, decode_basic, decode_extended}
use apollo_rs.Isa.RoundTrip.{bits, decode-fits}
use apollo_rs.Memory.Store.{fetch}
use apollo_rs.Memory.Invariant.{IsValid}
use apollo_rs.Memory.Bounds.{read_total}
use apollo_rs.Memory.Keeps.{read-IsWord}
use apollo_rs.Trace.{new_event}
use apollo_rs.Cpu.State.{Machine, Cpu, M, ◌>>=◌, Interrupt}
use apollo_rs.Cpu.Registers.{program_counter}
use apollo_rs.Cpu.Clock.{advance_to_ready_mct}
use apollo_rs.Cpu.Step.{
  StepOutcome, finish_interrupt, finish_instruction, accept_interrupt, step_fetched, step,
  indexed_word, fetch_address,
}
use apollo_rs.Cpu.Clock.Timers.{View, view, Calm}
use apollo_rs.Cpu.Safe.{Holds, Holds-bind}
use apollo_rs.Cpu.Safe.Entry.{accept_interrupt-Safe, Declined}
use apollo_rs.Cpu.Safe.Commit.{IsWell, Open}
use apollo_rs.Cpu.Safe.Finish.{
  Well, Waited, advance-Holds, finish_interrupt-Holds, finish_instruction-Holds,
}

module _ (v : View) (open_v : Open v) where
  -- An interrupt is entered, or the instruction finished.
  abbrev proceed : DecodedInstruction → ℕ → Bool → Option (Option Interrupt × ℕ) → M StepOutcome
  proceed d pc x entry = elim entry [
    | some (i, target) ↦ finish_interrupt x i target
    | none ↦ finish_instruction d pc
  ]

  proceed-Holds :
      (d : DecodedInstruction) (pc n : ℕ) (x : Bool) (a : Option (Option Interrupt × ℕ))
      (t : Machine)
      → n < 80
      → d.cycles ≤ 6
      → d.operand < 2 ^ bits d.mnemonic d.extended
      → Declined d a × Calm v n t
      → Holds Well (proceed d pc x a t)
  proceed-Holds d pc n x none t h k f q = finish_instruction-Holds v open_v d pc n t h k q.0 f q.1
  proceed-Holds d pc n x (some (i, target)) t h k f q =
      finish_interrupt-Holds v open_v n x i target t h q.1

  step_fetched-Holds :
      (d : DecodedInstruction) (pc : ℕ) (s : Machine)
      → IsValid s.cpu.memory
      → s.cpu.scaler_mcts ≤ 100
      → view s ≡ v
      → IsWord d.raw
      → d.cycles ≤ 6
      → d.operand < 2 ^ bits d.mnemonic d.extended
      → Holds Well (step_fetched pc d s)
  unfolding step_fetched
  step_fetched-Holds d pc s m h e w k f =
      Holds-bind (Waited v open_v) Well advance_to_ready_mct
        (λ _. accept_interrupt d pc >>= proceed d pc s.cpu.extended) s
        (advance-Holds v open_v s m h e)
        λ _ t (n, lo, c).
          Holds-bind (λ a u. Declined d a × Calm v n u) Well (accept_interrupt d pc)
            (proceed d pc s.cpu.extended) t ((accept_interrupt-Safe v n d pc w).runs t c)
            λ a u q. proceed-Holds d pc n s.cpu.extended a u lo k f q

decode-cycles : (w : ℕ) (x : Bool) → IsWord w → (decode w x).cycles ≤ 6
unfolding decode decode_basic decode_extended
decode-cycles w true h = ground arith
decode-cycles w false h = ground arith

indexed_word-IsWord : (i : Option ℕ) (w : ℕ) → IsWord w → IsWord (indexed_word i w)
unfolding indexed_word
indexed_word-IsWord none w h = h
indexed_word-IsWord (some i) w h = wrapping_add-IsWord w i

fetch_address-bound : (c : Cpu) → fetch_address c ≤ 0o7777
unfolding fetch_address program_counter
fetch_address-bound c = ground arith

-- A transition from a well-formed processor ends in a well-formed one, or fails with a memory that is
-- still valid, and only by a write to fixed memory.
pub step-IsWell : (c : Cpu) → IsWell c → Holds (λ o t. IsWell t.cpu) (step c)
unfolding step decode new_event
step-IsWell c h =
    let (w, there, reads) = read_total c.memory (fetch_address c) fetch (fetch_address-bound c) in
    let word : IsWord w =
      rw reads at (read-IsWord c.memory (fetch_address c) fetch h.memory_IsValid) in
    let code = indexed_word c.indexed w in
    let d = decode code c.extended in
    let coded : IsWord code = indexed_word-IsWord c.indexed w word in
    let v : View = record {
      log = c.trace;
      logged = c.trace_sequence;
      sequence = c.trace_sequence;
      schema_version = 2;
      cycle_start = c.cycles;
    } in
    let opens : Open v = record {
      ordered = h.ordered;
      counted = sym h.complete;
      logs = sym h.complete;
      schema = refl;
      past = h.past;
    } in
    rw (reads, Holds)
      (step_fetched-Holds v opens d (program_counter c) _ h.memory_IsValid (omega (arith, h.owes))
        refl coded (decode-cycles code c.extended coded) (decode-fits code c.extended coded).1)
