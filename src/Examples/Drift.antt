-- ===== src/Examples/Drift.antt =====
-- A rollback of a service whose payment mode was changed by hand.
use driftscribe.Base.{
  ℕ, String, Bool, leb, ◌==◌, ◌||◌, ◌&&◌, true, false, none, some, [], ◌∷◌, ok, ◌≡◌, refl, ◌↔◌,
}
use driftscribe.Drift.Models.{
  DecisionProposal, rollback, thousandths, in_unit_range, present_disallow_manual,
}
use driftscribe.Drift.Contract.{
  OpsContract, check_rules, no_path_traversal, operator_note_required_when_manual, escapes, parts,
}
use driftscribe.Drift.Classifier.{classify}
use driftscribe.Drift.Classifier.Rounds.{Violated, Unexplained, Sanctioned}
use driftscribe.Drift.Classifier.Judged.{Ranked, Reviewed, classify-Ranked}
use driftscribe.Base.Text.{starts_with, strip_prefix?, contains, has_infix, after_first?}
use driftscribe.Drift.Validator.{is_digit, is_lower, LiveEnv, validate, validate_path}
use driftscribe.Drift.Validator.Rollback.{Justified, validate-rollback_iff}

abbrev contract : OpsContract
contract = record {
  service = "payment-demo";
  environment = "prod";
  cloud_run_service = "payment-demo";
  region = "asia-northeast1";
  github_repo = "acme/ops";
  expected_env =
      (
        "PAYMENT_MODE",
        record {
          value = "mock";
          docs = record { file = "docs/runbook.md"; section = "Modes" };
          allow_manual_change = false;
          operator_note = none;
        },
      )
      ∷ [];
}

abbrev proposal : DecisionProposal
proposal = record {
  action = rollback;
  env_diffs =
      record {
        name = "PAYMENT_MODE";
        expected = some "mock";
        live = some "live";
        contract_status = present_disallow_manual;
        debug_config_value = none;
        recent_pr_match = none;
      }
      ∷ [];
  target_docs_file = none;
  target_docs_section = none;
  target_revision = some "payment-demo-00007-abc";
  rationale = "the mode was changed";
  confidence = thousandths 900;
  requires_human_review = true;
  blocked_reason = none;
}

abbrev live_env : LiveEnv
live_env = ("PAYMENT_MODE", "live") ∷ []

validate-rollback_iff_example : (validate proposal contract (some live_env) ≡ ok tt) ↔ (
    (in_unit_range proposal.confidence ≡ true)
    × (validate_path proposal.target_docs_file ≡ ok tt)
    × Justified proposal contract (some live_env))
validate-rollback_iff_example = validate-rollback_iff proposal contract (some live_env) refl

abbrev is_word : ℕ → Bool
is_word c = is_lower c || is_digit c || leb b'A' c && leb c b'Z' || c == b'_'

classify-Ranked_example :
    (p : DecisionProposal) × (classify is_word contract live_env [] ≡ ok p)
    × Ranked
        ((name : String) × Violated contract live_env name)
        ((name : String) × Unexplained is_word contract live_env [] name)
        ((name : String) × Sanctioned is_word contract live_env [] name)
        p
    × Reviewed contract (some live_env) p
unfolding check_rules no_path_traversal operator_note_required_when_manual escapes parts starts_with
    strip_prefix? contains has_infix after_first?
classify-Ranked_example = classify-Ranked is_word contract live_env [] (some live_env) refl
