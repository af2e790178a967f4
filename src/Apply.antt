-- ===== src/Apply.antt =====
-- workers/tofu_apply: the worker that applies approved plans.
pub mod Guard
pub mod Drift
pub mod Sequence
pub mod Fetch
pub mod Gates
pub mod Worker
pub mod Propose
