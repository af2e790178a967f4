-- ===== src/Approval/Doc.antt =====
-- driftscribe_lib/approvals.py: an approval document and the phases of a rollback. A time is a
-- number of microseconds. Every document has been written by `create`, so it has all the fields of
-- `Approval` and no other; its key, the approval's id, is not part of it.
use driftscribe.Base.{ℕ, String, Bool, false, Option, none, some, List, [], ◌∷◌}
use driftscribe.Base.Text.{contains}
use driftscribe.Base.Json.{Fields, end, field}

abbrev pub phase_claimed : String
phase_claimed = "claimed"

abbrev pub phase_applying : String
phase_applying = "applying"

abbrev pub phase_applied : String
phase_applied = "applied"

abbrev pub phase_failed : String
phase_failed = "failed"

abbrev pub phase_outcome_unknown : String
phase_outcome_unknown = "outcome_unknown"

abbrev pub rollback_phases : List String
rollback_phases =
    phase_claimed ∷ phase_applying ∷ phase_applied ∷ phase_failed ∷ phase_outcome_unknown ∷ []

abbrev pub terminal_rollback_phases : List String
terminal_rollback_phases = phase_applied ∷ phase_failed ∷ []

-- The map `{"phase": ..., "phase_at": ..., "detail": {...}}`.
pub record Audit : Type 0 where
  pub phase : String
  pub phase_at : ℕ
  pub detail : Option Fields

pub record Doc : Type 0 where
  pub target_revision : String
  pub reason : String
  pub token_hmac : String
  pub expires_at : ℕ
  pub created_at : ℕ
  pub created_by : String
  pub status : String
  pub resolved_at : Option ℕ
  pub apply_audit : Option Audit
  pub env_snapshot : Option Fields

-- `Approval`: a document with its key.
pub record Approval : Type 0 where
  pub approval_id : String
  pub body : Doc

-- `existing.get("phase") in TERMINAL_ROLLBACK_PHASES`
unfoldable pub is_settled : Option Audit → Bool
is_settled none = false
is_settled (some audit) = contains terminal_rollback_phases audit.phase

-- `if detail: audit["detail"] = detail`: an empty map is left out.
unfoldable pub kept_detail : Option Fields → Option Fields
kept_detail none = none
kept_detail (some end) = none
kept_detail (some (field k v rest)) = some (field k v rest)
