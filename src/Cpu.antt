-- ===== src/Cpu.antt =====
-- crates/agc-cpu/src/lib.rs: the Block II processor.
pub mod Arithmetic
pub mod State
pub mod Registers
pub mod Access
pub mod Operations
pub mod Divide
pub mod Execute
pub mod Clock
pub mod Step
pub mod Sets
pub mod Product
pub mod Safe
pub mod Requests
pub mod Interrupts
pub mod Accept
