-- ===== src/Rollback.antt =====
-- workers/rollback/main.py: the handlers, what they call, and the proofs about them.
pub mod Http
pub mod CloudRun
pub mod Execute
pub mod Deny
pub mod Reconcile
pub mod Propose
pub mod Steps
pub mod Handlers
pub mod Outcome
pub mod Settles
pub mod Service
pub mod Denied
pub mod Sent
