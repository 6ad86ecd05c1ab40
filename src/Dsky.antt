-- ===== src/Dsky.antt =====
-- crates/agc-dsky/src/lib.rs: the codes of the keyboard, the display and the entry protocol of V37.
pub mod Keys
pub mod Pinball
pub mod Spelled
pub mod Display
pub mod Digits
