-- ===== src/Editor.antt =====
-- What the worker that edits the infrastructure may write: driftscribe_lib/iac_editor_policy.py.
pub mod Path
pub mod Writes
