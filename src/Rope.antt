-- ===== src/Rope.antt =====
-- crates/agc-loader/src/lib.rs: rope images, the files that hold the fixed memory. `Bytes` has the
-- layout of a file and `Image` the decoder; `RoundTrip` sets them against each other.
pub mod Bytes
pub mod Image
pub mod RoundTrip
pub mod Loaded
pub mod Parity
