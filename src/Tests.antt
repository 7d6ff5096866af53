-- ===== src/Tests.antt =====
-- Runs of the model on small CPUs, and the properties at concrete inputs.
pub mod Cases
pub mod Flushes
pub mod Points
pub mod Host
pub mod Flags
pub mod Walks
pub mod Optimizer
pub mod Faults
