-- ===== src/Assembler.antt =====
-- crates/agc-assembler/src/lib.rs and crates/agc-ir/src/lib.rs: from records with unresolved operands
-- to the words of a rope.
pub mod Records
pub mod Operands
pub mod Diagnostics
pub mod Location
pub mod Emission
pub mod Assign
pub mod Equates
pub mod Fill
pub mod Image
pub mod Words
pub mod Values
pub mod Instructions
pub mod Kept
pub mod Placed
pub mod Assembled
pub mod Settled
pub mod InBank
pub mod Defined
pub mod Labels
pub mod Addressed
