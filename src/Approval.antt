-- ===== src/Approval.antt =====
-- The rollback half of driftscribe_lib/approvals.py: approval documents, the store, and its history.
pub mod Doc
pub mod Store
pub mod History
pub mod Honest
pub mod Once
