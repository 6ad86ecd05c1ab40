-- ===== src/Validation.antt =====
-- crates/agc-validation/src/lib.rs: the comparison of two traces.
pub mod Compare
pub mod Laws
pub mod Reference
pub mod Rows
pub mod Agreement
pub mod First
