-- ===== src/Contracts.antt =====
-- packages/datadirector-contracts: the types and rules that the rest of the program stands on.
pub mod Primitives
pub mod Payload
pub mod Sensitivity
pub mod Events
pub mod Gate
pub mod Policy
pub mod Exposure
pub mod Retention
pub mod Intents
pub mod Ownership
