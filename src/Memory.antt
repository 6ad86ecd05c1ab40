-- ===== src/Memory.antt =====
-- crates/agc-memory/src/lib.rs: address translation, banked memory, channels and edit registers.
-- An array is a function of its index. `Memory.Store` has the state and its operations.
pub mod Central
pub mod Store
pub mod Edit
pub mod Invariant
pub mod Keeps
pub mod Bounds
pub mod ReadWrite
pub mod Banks
pub mod Total
pub mod Physical
