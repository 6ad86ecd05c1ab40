-- ===== src/Runtime.antt =====
-- crates/agc-runtime/src/lib.rs: the event queue and the peripherals around the processor.
pub mod Events
pub mod Machine
pub mod Queue
pub mod Safe
pub mod Downlink
pub mod Observer
