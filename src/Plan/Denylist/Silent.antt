-- ===== src/Plan/Denylist/Silent.antt =====
-- Each identity rule finds nothing exactly when the change leaves what it guards alone.
use driftscribe.Base.{String, true, false, [], ok, ◌≡◌, refl, ◌↔◌, arith, ◌||◌}
use driftscribe.Base.Text.{contains, ◌=ₛ◌}
use driftscribe.Base.Json.{Fields, get}
use driftscribe.Plan.Denylist.Names.{
  cloud_run_service_types, control_plane_service_names, control_plane_sa_account_ids,
  control_plane_bucket_suffixes, service_managed_bucket_suffixes, service_managed_bucket_prefixes,
  service_managed_pubsub_prefixes, control_plane_secret_ids, control_plane_kms_key_names,
  control_plane_kms_keyring_names, pubsub_resource_types, wif_resource_types,
}
use driftscribe.Plan.Denylist.Rules.{
  control_plane_service, control_plane_sa, control_plane_bucket, service_managed_bucket,
  service_managed_pubsub, control_plane_secret, control_plane_kms, wif_config_change,
  iam_change_forbidden,
}
use driftscribe.Plan.Denylist.Checks.{
  check_control_plane_service, check_control_plane_sa, check_control_plane_bucket,
  check_service_managed_bucket, check_service_managed_pubsub, check_control_plane_secret,
  check_control_plane_kms, check_wif, check_iam, of_option, sa_account_id, version_secret_id,
  is_iam_type, is_service_managed_bucket_name,
}
use driftscribe.Plan.Denylist.Protected.{Spared, Unlike, BothSides, Unprotected}
use driftscribe.Plan.Denylist.Screens.{
  flag-eq-nil, screen-eq-nil, names-eq-nil, protected_bucket-eq-false, managed_bucket-eq-false,
  managed_pubsub-eq-false, gather-eq-nil, Silent, when-Silent, either-Silent, apart,
}
use driftscribe.Plan.Denylist.Evaluate.{identity_rules}

is_iam_type-wif :
    (rtype : String) → is_iam_type rtype ≡ false → contains wif_resource_types rtype ≡ false
unfolding is_iam_type contains
is_iam_type-wif rtype h = ground arith

module _ (rc : Fields) (rtype : String) (before after : Fields) where
  service-Silent : Silent (check_control_plane_service rc rtype before after) ↔ (
      contains cloud_run_service_types rtype ≡ true
      → BothSides (Spared control_plane_service_names) (get before "name") (get after "name"))
  unfolding check_control_plane_service
  service-Silent = when-Silent _ _ _ (names-eq-nil control_plane_service rc _ _ _)

  sa-Silent : Silent (check_control_plane_sa rc rtype before after) ↔ (
      (rtype =ₛ "google_service_account") ≡ true
      → BothSides
          (Spared control_plane_sa_account_ids)
          (of_option (sa_account_id before))
          (of_option (sa_account_id after)))
  unfolding check_control_plane_sa
  sa-Silent = when-Silent _ _ _ (names-eq-nil control_plane_sa rc _ _ _)

  bucket-Silent : Silent (check_control_plane_bucket rc rtype before after) ↔ (
      ((rtype =ₛ "google_storage_bucket") ≡ true
        → BothSides
            (Unlike control_plane_bucket_suffixes [])
            (get before "name")
            (get after "name"))
      × ((rtype =ₛ "google_storage_bucket_object") ≡ true
          → BothSides
              (Unlike control_plane_bucket_suffixes [])
              (get before "bucket")
              (get after "bucket")))
  unfolding check_control_plane_bucket
  bucket-Silent =
      either-Silent _ _ _ _ _ _ (apart rtype _ _ refl)
        (screen-eq-nil control_plane_bucket rc _ _ protected_bucket-eq-false _ _)
        (screen-eq-nil control_plane_bucket rc _ _ protected_bucket-eq-false _ _)

  managed_bucket-Silent : Silent (check_service_managed_bucket rc rtype before after) ↔ (
      (rtype =ₛ "google_storage_bucket") ≡ true
      → Unlike service_managed_bucket_suffixes service_managed_bucket_prefixes (get before "name")
        × Unlike service_managed_bucket_suffixes service_managed_bucket_prefixes (get after "name"))
  unfolding check_service_managed_bucket
  managed_bucket-Silent = when-Silent _ _ _ (
      let flagged = flag-eq-nil service_managed_bucket rc (
        ok (
          is_service_managed_bucket_name (get before "name")
          || is_service_managed_bucket_name (get after "name"))) in
      let b = managed_bucket-eq-false (get before "name") in
      let a = managed_bucket-eq-false (get after "name") in
      (
        (λ e. let f = flagged.0 e in (b.0 (ground arith), a.0 (ground arith))),
        λ p. flagged.1 (let x = b.1 p.0 in let y = a.1 p.1 in ground arith),
      ))

  pubsub-Silent : Silent (check_service_managed_pubsub rc rtype before after) ↔ (
      contains pubsub_resource_types rtype ≡ true
      → BothSides
          (Unlike [] service_managed_pubsub_prefixes)
          (get before "name")
          (get after "name"))
  unfolding check_service_managed_pubsub
  pubsub-Silent =
      when-Silent _ _ _ (screen-eq-nil service_managed_pubsub rc _ _ managed_pubsub-eq-false _ _)

  secret-Silent : Silent (check_control_plane_secret rc rtype before after) ↔ (
      ((rtype =ₛ "google_secret_manager_secret") ≡ true
        → BothSides
            (Spared control_plane_secret_ids)
            (get before "secret_id")
            (get after "secret_id"))
      × ((rtype =ₛ "google_secret_manager_secret_version") ≡ true
          → BothSides
              (Spared control_plane_secret_ids)
              (of_option (version_secret_id before))
              (of_option (version_secret_id after))))
  unfolding check_control_plane_secret
  secret-Silent =
      either-Silent _ _ _ _ _ _ (apart rtype _ _ refl) (names-eq-nil control_plane_secret rc _ _ _)
        (names-eq-nil control_plane_secret rc _ _ _)

  kms-Silent : Silent (check_control_plane_kms rc rtype before after) ↔ (
      ((rtype =ₛ "google_kms_crypto_key") ≡ true
        → BothSides (Spared control_plane_kms_key_names) (get before "name") (get after "name"))
      × ((rtype =ₛ "google_kms_key_ring") ≡ true
          → BothSides
              (Spared control_plane_kms_keyring_names)
              (get before "name")
              (get after "name")))
  unfolding check_control_plane_kms
  kms-Silent =
      either-Silent _ _ _ _ _ _ (apart rtype _ _ refl) (names-eq-nil control_plane_kms rc _ _ _)
        (names-eq-nil control_plane_kms rc _ _ _)

  -- A WIF type is an IAM type, so the second rule alone decides.
  iam-Silent :
      (Silent (check_wif rc rtype) × Silent (check_iam rc rtype)) ↔ (is_iam_type rtype ≡ false)
  unfolding check_wif check_iam
  iam-Silent =
      let wif = flag-eq-nil wif_config_change rc (ok (contains wif_resource_types rtype)) in
      let iam = flag-eq-nil iam_change_forbidden rc (ok (is_iam_type rtype)) in
      (
        (λ e. let f = iam.0 e.1 in ground arith),
        λ p. (wif.1 (let q = is_iam_type-wif rtype p in ground arith), iam.1 (ground arith)),
      )

  parts :
      Silent (identity_rules rc rtype (before, after))
      → Silent (check_control_plane_service rc rtype before after)
        × Silent (check_control_plane_sa rc rtype before after)
        × Silent (check_control_plane_bucket rc rtype before after)
        × Silent (check_service_managed_bucket rc rtype before after)
        × Silent (check_service_managed_pubsub rc rtype before after)
        × Silent (check_control_plane_secret rc rtype before after)
        × Silent (check_control_plane_kms rc rtype before after)
        × (Silent (check_wif rc rtype) × Silent (check_iam rc rtype))
  unfolding identity_rules
  parts e =
      let (service, (account, (buckets, (managed, (pubsub, (secrets, (kms, (wif, (iam, _))))))))) =
        (gather-eq-nil _).0 e in
      (service, account, buckets, managed, pubsub, secrets, kms, (wif, iam))

  pub identity_rules-Silent :
      Silent (identity_rules rc rtype (before, after)) ↔ Unprotected rtype before after
  unfolding identity_rules
  identity_rules-Silent = (
    (λ e.
        let (service, account, buckets, managed, pubsub, secrets, kms, iam) = parts e in
        record {
          service = service-Silent.0 service;
          account = sa-Silent.0 account;
          bucket = (bucket-Silent.0 buckets).0;
          bucket_object = (bucket-Silent.0 buckets).1;
          managed_bucket = managed_bucket-Silent.0 managed;
          pubsub = pubsub-Silent.0 pubsub;
          secret = (secret-Silent.0 secrets).0;
          secret_version = (secret-Silent.0 secrets).1;
          kms_key = (kms-Silent.0 kms).0;
          kms_keyring = (kms-Silent.0 kms).1;
          no_iam = iam-Silent.0 iam;
        }),
    λ u. (gather-eq-nil _).1 (
      service-Silent.1 u.service,
      (
        sa-Silent.1 u.account,
        (
          bucket-Silent.1 (u.bucket, u.bucket_object),
          (
            managed_bucket-Silent.1 u.managed_bucket,
            (
              pubsub-Silent.1 u.pubsub,
              (
                secret-Silent.1 (u.secret, u.secret_version),
                (
                  kms-Silent.1 (u.kms_key, u.kms_keyring),
                  ((iam-Silent.1 u.no_iam).0, ((iam-Silent.1 u.no_iam).1, tt)),
                ),
              ),
            ),
          ),
        ),
      ),
    ),
  )
