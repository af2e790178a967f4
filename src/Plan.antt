-- ===== src/Plan.antt =====
-- The policy over OpenTofu plans.
pub mod Denylist
pub mod Classify
