-- ===== src/Drift.antt =====
-- The drift workload: the contract, the deterministic classifier and the validator.
pub mod Models
pub mod Contract
pub mod Secrets
pub mod Validator
pub mod Classifier
