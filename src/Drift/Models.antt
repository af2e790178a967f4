-- ===== src/Drift/Models.antt =====
-- agent/models.py
use driftscribe.Base.{ℕ, String, Bool, false, Option, List, leb}

pub data ContractStatus : Type 0 where
  absent present_allow_manual present_disallow_manual match : ContractStatus

pub data DecisionAction : Type 0 where
  docs_pr drift_issue escalation no_op rollback upgrade_pr : DecisionAction

-- A confidence in thousandths: a number that is not negative, a negative one, or not a number.
pub data Confidence : Type 0 where
  thousandths : ℕ → Confidence
  negative nan : Confidence

pub record EnvDiff : Type 0 where
  pub name : String
  pub expected : Option String
  pub live : Option String
  pub contract_status : ContractStatus
  pub debug_config_value : Option String
  pub recent_pr_match : Option String

pub record DecisionProposal : Type 0 where
  pub action : DecisionAction
  pub env_diffs : List EnvDiff
  pub target_docs_file : Option String
  pub target_docs_section : Option String
  pub target_revision : Option String
  pub rationale : String
  pub confidence : Confidence
  pub requires_human_review : Bool
  pub blocked_reason : Option String

-- `0.0 <= confidence <= 1.0`, which no NaN satisfies.
abbrev pub in_unit_range : Confidence → Bool
in_unit_range (thousandths n) = leb n 1000
in_unit_range negative = false
in_unit_range nan = false
