-- ===== src/Faults.antt =====
-- crates/agc-faults/src/lib.rs: faults that are applied to a running machine.
pub mod Effects
pub mod Engine
pub mod Keeps
pub mod Safe
pub mod Audit
pub mod Stuck
pub mod Recovery
