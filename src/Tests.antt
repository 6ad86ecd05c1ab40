-- ===== src/Tests.antt =====
-- Runs of the model on small inputs, and each theorem that has hypotheses at an input that meets them.
mod Words
mod Memories
mod Machines
mod Devices
mod Ropes
mod Campaigns
mod Traces
