-- ===== src/Symbols.antt =====
-- crates/agc-symbols/src/lib.rs: symbols, their values and the table of them.
pub mod Table
pub mod Laws
pub mod Addresses
