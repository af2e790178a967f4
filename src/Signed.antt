-- ===== src/Signed.antt =====
-- The plan approvals of driftscribe_lib/approvals.py, each bound to one plan artifact.
pub mod Metadata
pub mod Payload
pub mod Window
pub mod Store
pub mod Minted
pub mod Once
