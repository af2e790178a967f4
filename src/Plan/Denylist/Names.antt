-- ===== src/Plan/Denylist/Names.antt =====
-- The constants of driftscribe_lib/iac_plan_denylist.py: the vocabulary of actions, and the names
-- that the control plane reserves.
use driftscribe.Base.{String, List, [], ◌∷◌, ◌++◌}

abbrev pub Actions : Type 0
Actions = List String

abbrev pub no_op_action_tuples : List Actions
no_op_action_tuples = ("no-op" ∷ []) ∷ ("read" ∷ []) ∷ []

abbrev pub delete_action_tuples : List Actions
delete_action_tuples = ("delete" ∷ []) ∷ []

abbrev pub forget_action_tuples : List Actions
forget_action_tuples = ("forget" ∷ []) ∷ []

abbrev pub replace_action_tuples : List Actions
replace_action_tuples = ("delete" ∷ "create" ∷ []) ∷ ("create" ∷ "delete" ∷ []) ∷ []

abbrev pub mutation_known_tuples : List Actions
mutation_known_tuples =
    (("create" ∷ []) ∷ ("update" ∷ []) ∷ [])
    ++ (delete_action_tuples ++ (forget_action_tuples ++ replace_action_tuples))

abbrev pub all_known_tuples : List Actions
all_known_tuples = no_op_action_tuples ++ mutation_known_tuples

abbrev pub cloud_run_service_types : List String
cloud_run_service_types = "google_cloud_run_v2_service" ∷ "google_cloud_run_service" ∷ []

abbrev pub control_plane_service_names : List String
control_plane_service_names =
    "driftscribe-agent" ∷ "driftscribe-reader" ∷ "driftscribe-docs" ∷ "driftscribe-rollback"
    ∷ "driftscribe-notifier" ∷ "driftscribe-upgrade-reader" ∷ "driftscribe-upgrade-docs"
    ∷ "driftscribe-infra-reader" ∷ "driftscribe-tofu-apply" ∷ "driftscribe-tofu-editor"
    ∷ "tofu-apply" ∷ "tofu-editor" ∷ "driftscribe-plan-builder" ∷ []

abbrev pub control_plane_sa_account_ids : List String
control_plane_sa_account_ids =
    "driftscribe-agent" ∷ "reader-agent-sa" ∷ "docs-agent-sa" ∷ "rollback-agent-sa"
    ∷ "notifier-agent-sa" ∷ "upgrade-reader-sa" ∷ "upgrade-docs-sa" ∷ "infra-reader-sa"
    ∷ "tofu-plan-builder" ∷ "eventarc-trigger-sa" ∷ "tofu-apply-sa" ∷ "tofu-editor-sa" ∷ []

abbrev pub control_plane_bucket_suffixes : List String
control_plane_bucket_suffixes = "-tofu-state" ∷ "-tofu-artifacts" ∷ []

abbrev pub service_managed_bucket_suffixes : List String
service_managed_bucket_suffixes = "_cloudbuild" ∷ ".appspot.com" ∷ []

abbrev pub service_managed_bucket_prefixes : List String
service_managed_bucket_prefixes =
    "gcf-sources-" ∷ "gcf-v2-sources-" ∷ "gcf-v2-uploads-" ∷ "run-sources-" ∷ []

abbrev pub service_managed_pubsub_prefixes : List String
service_managed_pubsub_prefixes = "eventarc-" ∷ []

abbrev pub control_plane_secret_ids : List String
control_plane_secret_ids =
    "approval-hmac-key" ∷ "coordinator-shared-token" ∷ "plan-hmac-key" ∷ "github-pat"
    ∷ "docs-agent-github-pat" ∷ "upgrade-reader-github-pat" ∷ "upgrade-docs-github-pat"
    ∷ "developer-knowledge-api-key" ∷ "driftscribe-webhook-url" ∷ "tofu-editor-github-pat" ∷ []

abbrev pub control_plane_kms_key_names : List String
control_plane_kms_key_names = "tofu-state" ∷ []

abbrev pub control_plane_kms_keyring_names : List String
control_plane_kms_keyring_names = "driftscribe-tofu" ∷ []

abbrev pub wif_resource_types : List String
wif_resource_types =
    "google_iam_workload_identity_pool" ∷ "google_iam_workload_identity_pool_provider" ∷ []

abbrev pub iam_extra_types : List String
iam_extra_types =
    ("google_service_account" ∷ "google_service_account_key" ∷ "google_project_iam_audit_config"
      ∷ "google_project_iam_custom_role" ∷ "google_organization_iam_custom_role" ∷ [])
    ++ wif_resource_types

abbrev pub adoptable_resource_types : List String
adoptable_resource_types =
    "google_storage_bucket" ∷ "google_pubsub_topic" ∷ "google_pubsub_subscription"
    ∷ "google_cloud_run_v2_service" ∷ []

abbrev pub pubsub_resource_types : List String
pubsub_resource_types = "google_pubsub_topic" ∷ "google_pubsub_subscription" ∷ []
