-- ===== src/Lib.antt =====
-- ApolloRS: a Rust model of the Apollo 11 Block II guidance computer.
--
-- The machine is built from the word up. `agc-word` has the one's complement words, the sixteen-bit
-- registers and the double words; `agc-isa` decodes a word to an instruction and encodes it again;
-- `agc-memory` has the registers, the banked erasable and fixed memory and the channels; `agc-trace`
-- has the log of events; `agc-cpu` fetches, decodes, takes interrupts, counts time and executes, and
-- pushes one event to the log for each transition. `agc-dsky` shows what the processor writes to its
-- channels and encodes its keys, and `agc-runtime` delivers events from outside to the processor and
-- steps it. `agc-interpreter` is a machine of its own, for vectors and scalars. `agc-loader` reads and
-- writes images of the fixed memory; `agc-symbols` has the symbols of a program, and `agc-assembler`
-- makes an image of records of `agc-ir`, with the mnemonics and encodings of `agc-isa`. `agc-faults`
-- runs the machine of `agc-runtime` under a schedule of faults, and `agc-validation` compares the traces
-- of two runs. The development follows this order.
--
-- Word          crates/agc-word/src/lib.rs, `AgcWord`: a word is a number below 2 ^ 15 (`IsWord`), and
--               `Overflow`, `AddResult` and `WordError` are the enums and structs of the crate.
-- Register      the same file, `AgcRegister`, a number below 2 ^ 16 (`IsRegister`).
-- Double        the same file, `AgcDoubleWord`.
-- Fixed         crates/agc-fixed/src/lib.rs, `AgcFixed`: a word at a binary scale.
-- Isa           crates/agc-isa/src/lib.rs: `Mnemonics` has the enum, `Decode` has `decode`, `Encode`
--               has `encode` and `encode_with_context`; `RoundTrip` sets them against each other.
--               `Names` has `as_str` and `parse`.
-- Memory        crates/agc-memory/src/lib.rs: `Central` has the register numbers and `Store` the
--               `Memory` and all of its operations. The arrays of the struct are functions of the
--               index, `MemoryError` is the crate's enum, and a method that fails leaves its memory
--               as it was, so that it returns no memory with the error. `Invariant` says what a valid
--               memory is, `Keeps`, `Total`, `Bounds`, `Banks`, `Edit`, `ReadWrite` and `Physical`
--               what holds of the operations.
-- Trace         crates/agc-trace/src/lib.rs: the event types and `TraceLog::push`; `Equality` has the
--               equality of events and `first_difference`. A text in an event
--               that is one of a fixed set is a value (`Label`).
-- Cpu           crates/agc-cpu/src/lib.rs: `State` has the struct `Cpu`, the interrupts, the sets and
--               the monad of the methods, which take and return the processor, the event and the
--               watchpoint of the step; `Registers` and `Access` have the registers and the operands,
--               `Arithmetic` the free functions, `Operations` and `Divide` the methods of `execute`,
--               `Execute` its match, `Clock` the scaler and timers, and `Step` the constructor, the
--               interrupt entry, `step` and `run`. `Arithmetic.Laws` and `Product` compare the
--               arithmetic with the integers, `Sets` and `Requests` are about the pending
--               interrupts, `Interrupts` and `Accept` about the entry and the return,
--               and `Clock.Timers` and `Clock.Total` about the end of the clock's loops. `Safe` goes
--               through every method: what it may fail with, and that it keeps the memory valid and
--               the log as it was, up to `step` (`Safe.Transition`) and `run` (`Safe.Run`); `Safe.Commit` says
--               what a well-formed processor is.
-- Dsky          crates/agc-dsky/src/lib.rs: `Keys` has the key codes, `Pinball` the protocol of V37 and
--               `Display` the display state; `Spelled` and `Digits` are about the protocol and the
--               digits. A refused key leaves the protocol as it was, so that no state comes with the
--               error.
-- Runtime       crates/agc-runtime/src/lib.rs: `Events` has the state, `schedule` and the delivery of
--               events, `Machine` has `step`, `run` and `capture_output`, `Observer` the
--               observer of jobs and tasks; `Safe`, `Queue` and `Downlink` are about them. The
--               `BTreeMap` of events is a list in the order of its keys. A method returns its state
--               with an error too.
-- Interpreter   crates/agc-interpreter/src/lib.rs: `Values` has the values and the checked arithmetic,
--               `Root` the integer square root, `Machine` the instructions, `step` and `run`, and `Laws`
--               is about them. An `i128` is an integer, with its width written out where a result may
--               pass it, and a shift by 128 places or more takes its count modulo 128.
-- Rope          crates/agc-loader/src/lib.rs: `Bytes` has `encode_yayul`, `Image` has `decode_bytes` and
--               `into_memory`; `RoundTrip`, `Loaded` and `Parity` are about them. An image is a function
--               of the index, and a file a list of bytes.
-- Symbols       crates/agc-symbols/src/lib.rs: `Table` has the symbol table, a list in the order of
--               definition in place of the `IndexMap`; `Laws` and `Addresses` are about it. `Span` is of
--               crates/agc-ast/src/lib.rs and `SourceLocation` of crates/agc-ir/src/lib.rs.
-- Assembler     crates/agc-assembler/src/lib.rs: `Operands` has the evaluation of operands, `Location`
--               the location counter, `Emission` the words of a record, `Assign` the first pass,
--               `Equates` the equates between the passes, `Fill` the second pass and `Image` has
--               `assemble` and `to_yayul_bytes`; `Records` has the diagnostics, and the records and
--               `parse_operand` of crates/agc-ir/src/lib.rs. `Words`, `Instructions`, `Values`,
--               `Kept`, `Placed`, `Assembled`, `Settled`, `InBank`, `Defined`, `Labels` and
--               `Addressed` are about them. A diagnostic has its severity, code
--               and location, and an equate that waits holds its record in place of its index.
-- Faults        crates/agc-faults/src/lib.rs: `Effects` has the faults and what they do, `Engine` the
--               engine, `Recovery` has `compare_recovery`; `Keeps`, `Safe`, `Audit` and
--               `Stuck` are about them. The `BTreeMap` of scheduled faults is
--               a list in the order of its keys. A method returns its state with an error too.
-- Validation    crates/agc-validation/src/lib.rs: `Compare` has `compare_traces` and the runs that it
--               compares, and `Reference` the comparison with a reference trace; `Laws`,
--               `First`, `Rows` and `Agreement` are about them. A divergence has its event, class and field.
-- Bits          shifts, masks and `|` on machine integers as arithmetic on natural numbers.
-- Prelude       the names that the modules share: Boolean tests, results, arrays, integers.
-- Text          texts as lists of character codes, with the methods of `str` that are used.
-- Tests         the theorems at concrete states.
--
-- Integers. A `u16` or `u32` keeps its width in the definitions: `low_bits x 16` stands where the
-- source wraps or masks, and `wrapping_sub` adds the modulus first. An `i32` or `i64` is an integer
-- (`Prelude.Int`), since the values that meet here are within its width. The counters `cycles`,
-- `sequence` and `trace_sequence`, which are `u64`, have no upper bound.
--
-- Fuel. `run_loop`, of the processor and of the runtime, counts transitions, because an interrupt
-- entry commits no instruction, and any fuel
-- may be given. `service_scaler` takes one more than `scaler_mcts` rounds, and each of its rounds
-- takes 80 from `scaler_mcts`. `advance_to_ready_mct` has 8 rounds, of which two are used when at most
-- 100 cycles are owed (`Cpu.Clock.Total`). `simulate_divide` has the
-- 14 rounds of the source. `sqrt_loop` has one round more than its
-- argument, which falls in each round (`Interpreter.Root`), and the interpreter's `run` has its limit as
-- fuel. A loop that runs out has an error of its own, `out_of_fuel`. `Faults.run_loop` counts transitions
-- too. `resolve_equates` has as many rounds as there are equates, since each round but the last defines
-- one (`Assembler.Settled`), and `split_fields` takes the length of its text.
--
-- Not modelled: texts that are shown (`Display`, `FromStr`, `disassemble`, the messages of
-- diagnostics) and JSON, which are presentation; the `expect`s on the fixed register numbers, in place of
-- which the register is read or written; the rendering of the display as text; an overflow of the `i32`
-- sums of IMU pulses and of the `i64` sums of operands; the state that an error of the interpreter
-- leaves, and the division of the least `i128` by -1; files, so that `load_file` and the inclusion of
-- sources are left out; the external assembler and the reader of reference traces; and the other crates.
mod Prelude
pub mod Bits
pub mod Text
pub mod Word
pub mod Register
pub mod Double
pub mod Isa
pub mod Fixed
pub mod Memory
pub mod Rope
pub mod Symbols
pub mod Assembler
pub mod Trace
pub mod Cpu
pub mod Dsky
pub mod Runtime
pub mod Faults
pub mod Validation
pub mod Interpreter
mod Tests
