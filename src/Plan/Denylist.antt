-- ===== src/Plan/Denylist.antt =====
-- driftscribe_lib/iac_plan_denylist.py: the rules, the pass over a plan, and the proofs about them.
pub mod Names
pub mod Rules
pub mod Checks
pub mod Evaluate
pub mod Protected
pub mod Screens
pub mod Silent
pub mod Settled
pub mod Admission
pub mod Accepted
pub mod Pass
pub mod Nodes
pub mod Parity
pub mod Returns
pub mod Total
pub mod Raises
