-- ===== src/Plan/Denylist/Rules.antt =====
-- The rule ids of driftscribe_lib/iac_plan_denylist.py and the `Violation` record. Of a violation's
-- message the model keeps the addresses that it names; the fixed wording is left out.
use driftscribe.Base.{String, List}
use driftscribe.Base.Json.{Json}

pub data Rule : Type 0 where
  plan_json_unparseable plan_json_missing_resource_changes plan_json_malformed_change : Rule
  control_plane_service control_plane_sa control_plane_bucket : Rule
  service_managed_bucket service_managed_pubsub : Rule
  control_plane_secret control_plane_kms wif_config_change iam_change_forbidden : Rule
  import_with_changes_forbidden import_type_not_adoptable : Rule
  import_mixed_plan_forbidden import_batch_forbidden : Rule
  delete_action_forbidden forget_action_forbidden replace_action_forbidden : Rule
  unknown_action_forbidden : Rule

pub record Violation : Type 0 where
  pub rule : Rule
  pub subject : List Json

-- The short machine identifier of a rule, which keys `RULE_DESCRIPTIONS`.
unfoldable pub rule_id : Rule → String
rule_id plan_json_unparseable = "plan-json-unparseable"
rule_id plan_json_missing_resource_changes = "plan-json-missing-resource-changes"
rule_id plan_json_malformed_change = "plan-json-malformed-change"
rule_id control_plane_service = "control-plane-service"
rule_id control_plane_sa = "control-plane-sa"
rule_id control_plane_bucket = "control-plane-bucket"
rule_id service_managed_bucket = "service-managed-bucket"
rule_id service_managed_pubsub = "service-managed-pubsub"
rule_id control_plane_secret = "control-plane-secret"
rule_id control_plane_kms = "control-plane-kms"
rule_id wif_config_change = "wif-config-change"
rule_id iam_change_forbidden = "iam-change-forbidden-v1"
rule_id import_with_changes_forbidden = "import-with-changes-forbidden-v1"
rule_id import_type_not_adoptable = "import-type-not-adoptable-v1"
rule_id import_mixed_plan_forbidden = "import-mixed-plan-forbidden-v1"
rule_id import_batch_forbidden = "import-batch-forbidden-v1"
rule_id delete_action_forbidden = "delete-action-forbidden-v1"
rule_id forget_action_forbidden = "forget-action-forbidden-v1"
rule_id replace_action_forbidden = "replace-action-forbidden-v1"
rule_id unknown_action_forbidden = "unknown-action-forbidden-v1"
