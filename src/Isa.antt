-- ===== src/Isa.antt =====
-- crates/agc-isa/src/lib.rs: the Block II mnemonics, and the encoding and decoding table.
pub mod Mnemonics
pub mod Decode
pub mod Encode
pub mod Names
pub mod RoundTrip
