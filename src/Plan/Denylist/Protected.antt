-- ===== src/Plan/Denylist/Protected.antt =====
-- When a change leaves the control plane alone, stated by the resource types and the names that
-- they reserve.
use driftscribe.Base.{String, true, false, List, [], ◌≡◌, ◌⊎◌}
use driftscribe.Base.Text.{contains, starts_with_any, ends_with_any, ◌=ₛ◌}
use driftscribe.Base.Json.{Json, str, arr, obj, Fields, get, is_str}
use driftscribe.Plan.Denylist.Names.{
  cloud_run_service_types, control_plane_service_names, control_plane_sa_account_ids,
  control_plane_bucket_suffixes, service_managed_bucket_suffixes, service_managed_bucket_prefixes,
  service_managed_pubsub_prefixes, control_plane_secret_ids, control_plane_kms_key_names,
  control_plane_kms_keyring_names, pubsub_resource_types,
}
use driftscribe.Plan.Denylist.Checks.{of_option, sa_account_id, version_secret_id, is_iam_type}

-- A value that is no reserved name, and that can be looked up in a set.
abbrev pub Spared : List String → Json → Type 0
Spared names (str s) = contains names s ≡ false
Spared names (arr _) = ⊥
Spared names (obj _) = ⊥
Spared names _ = Unit

-- A value that is no text ending or starting as given.
abbrev pub Unlike : List String → List String → Json → Type 0
Unlike suffixes prefixes (str s) =
    (ends_with_any s suffixes ≡ false) × (starts_with_any s prefixes ≡ false)
Unlike suffixes prefixes _ = Unit

-- One side of the change carries a text, and both sides are as asked.
abbrev pub BothSides : (Json → Type 0) → Json → Json → Type 0
BothSides P b a = ((is_str b ≡ true) ⊎ (is_str a ≡ true)) × P b × P a

-- What a change of an entry of one type must not touch. Each part speaks of the types that it names.
pub record Unprotected (rtype : String) (before after : Fields) : Type 0 where
  pub service :
      contains cloud_run_service_types rtype ≡ true
      → BothSides (Spared control_plane_service_names) (get before "name") (get after "name")
  pub account :
      (rtype =ₛ "google_service_account") ≡ true
      → BothSides
          (Spared control_plane_sa_account_ids)
          (of_option (sa_account_id before))
          (of_option (sa_account_id after))
  pub bucket :
      (rtype =ₛ "google_storage_bucket") ≡ true
      → BothSides (Unlike control_plane_bucket_suffixes []) (get before "name") (get after "name")
  pub bucket_object :
      (rtype =ₛ "google_storage_bucket_object") ≡ true
      → BothSides
          (Unlike control_plane_bucket_suffixes [])
          (get before "bucket")
          (get after "bucket")
  pub managed_bucket :
      (rtype =ₛ "google_storage_bucket") ≡ true
      → Unlike service_managed_bucket_suffixes service_managed_bucket_prefixes (get before "name")
        × Unlike service_managed_bucket_suffixes service_managed_bucket_prefixes (get after "name")
  pub pubsub :
      contains pubsub_resource_types rtype ≡ true
      → BothSides (Unlike [] service_managed_pubsub_prefixes) (get before "name") (get after "name")
  pub secret :
      (rtype =ₛ "google_secret_manager_secret") ≡ true
      → BothSides (Spared control_plane_secret_ids) (get before "secret_id") (get after "secret_id")
  pub secret_version :
      (rtype =ₛ "google_secret_manager_secret_version") ≡ true
      → BothSides
          (Spared control_plane_secret_ids)
          (of_option (version_secret_id before))
          (of_option (version_secret_id after))
  pub kms_key :
      (rtype =ₛ "google_kms_crypto_key") ≡ true
      → BothSides (Spared control_plane_kms_key_names) (get before "name") (get after "name")
  pub kms_keyring :
      (rtype =ₛ "google_kms_key_ring") ≡ true
      → BothSides (Spared control_plane_kms_keyring_names) (get before "name") (get after "name")
  pub no_iam : is_iam_type rtype ≡ false
