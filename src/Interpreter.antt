-- ===== src/Interpreter.antt =====
-- crates/agc-interpreter/src/lib.rs: the interpretive vector and scalar machine.
pub mod Values
pub mod Root
pub mod Machine
pub mod Laws
