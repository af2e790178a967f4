-- ===== src/Examples.antt =====
-- Runs of the models on small inputs, and instances of the theorems at them.
mod Plan
mod Drift
mod Approval
mod Autonomy
mod Apply
mod Signed
mod Worker
mod Editor
