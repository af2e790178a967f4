-- ===== src/Plan/Denylist/Returns.antt =====
-- driftscribe_lib/iac_plan_denylist.py: when the rules for one change return, and raise nothing.
use driftscribe.Base.{
  String, Bool, true, false, List, [], ◌∷◌, ◌++◌, Option, none, some, ◌≡◌, refl, All, ok, raised,
  Result, or_else, if◌then◌else◌,
}
use driftscribe.Base.Text.{◌=ₛ◌}
use driftscribe.Base.Json.{Json, str, arr, obj, Fields, get, member}
use driftscribe.Plan.Denylist.Names.{
  control_plane_service_names, control_plane_sa_account_ids, control_plane_secret_ids,
  control_plane_kms_key_names, control_plane_kms_keyring_names,
}
use driftscribe.Plan.Denylist.Rules.{
  Rule, Violation, control_plane_service, control_plane_sa, control_plane_bucket,
  service_managed_bucket, service_managed_pubsub, control_plane_secret, control_plane_kms,
  wif_config_change, iam_change_forbidden,
}
use driftscribe.Plan.Denylist.Checks.{
  flag, screen, check_control_plane_service, check_control_plane_sa, check_control_plane_bucket,
  check_service_managed_bucket, check_service_managed_pubsub, check_control_plane_secret,
  check_control_plane_kms, check_wif, check_iam, of_option, sa_account_id, version_secret_id,
  names_in, is_protected_bucket_name, is_service_managed_pubsub_name,
}
use driftscribe.Plan.Denylist.Evaluate.{gather, identity_rules}

-- A value that has a hash.
abbrev pub Hashable : Json → Type 0
Hashable (arr _) = ⊥
Hashable (obj _) = ⊥
Hashable _ = Unit

abbrev pub Returns {ℓ} : {A : Type ℓ} → Result A → Type ℓ
Returns {A} r = (a : A) × (r ≡ ok a)

member-Returns : (j : Json) (names : List String) → Hashable j → Returns (member j names)
unfolding member
member-Returns (str s) names h = (_, refl)
member-Returns (arr _) names h = absurd h
member-Returns (obj _) names h = absurd h
member-Returns _ names h = (false, refl)

or_else-Returns : (a b : Result Bool) → Returns a → Returns b → Returns (or_else a b)
or_else-Returns (ok true) b ra rb = (true, refl)
or_else-Returns (ok false) b ra rb = rb
or_else-Returns (raised e) b ra rb = absurd (let f = ra.1 in cc)

flag-Returns : (rule : Rule) (rc : Fields) (r : Result Bool) → Returns r → Returns (flag rule rc r)
unfolding flag
flag-Returns rule rc (ok true) h = (_, refl)
flag-Returns rule rc (ok false) h = (_, refl)
flag-Returns rule rc (raised e) h = absurd (let f = h.1 in cc)

pub if-Returns {ℓ} :
    {A : Type ℓ} (t : Bool) {x y : Result A} → Returns x → Returns y → Returns (if t then x else y)
if-Returns true hx hy = hx
if-Returns false hx hy = hy

screen-Returns :
    (rule : Rule) (rc : Fields) (test : Json → Result Bool) (b a : Json)
    → Returns (test b)
    → Returns (test a)
    → Returns (screen rule rc test b a)
unfolding screen
screen-Returns rule rc test b a hb ha =
    if-Returns _ (_, refl) (flag-Returns rule rc _ (or_else-Returns _ _ hb ha))

of_option-Hashable : (o : Option String) → Hashable (of_option o)
of_option-Hashable none = tt
of_option-Hashable (some s) = tt

names-Returns :
    (rule : Rule) (rc : Fields) (names : List String) (b a : Json)
    → Hashable b
    → Hashable a
    → Returns (screen rule rc (names_in names) b a)
names-Returns rule rc names b a hb ha =
    screen-Returns rule rc (names_in names) b a (member-Returns b names hb)
      (member-Returns a names ha)

gather-Returns : (rs : List (Result (List Violation))) → All Returns rs → Returns (gather rs)
unfolding gather
gather-Returns [] h = (_, refl)
gather-Returns (r ∷ rs) ((v, e), h) = let (vs, f) = gather-Returns rs h in (v ++ vs, rw (e, f))

-- The two sides of a change hold values with a hash where a rule looks a name up in a set.
pub record HashableNames (before after : Fields) : Type 0 where
  pub name_before : Hashable (get before "name")
  pub name_after : Hashable (get after "name")
  pub secret_before : Hashable (get before "secret_id")
  pub secret_after : Hashable (get after "secret_id")

tested-Returns :
    (rule : Rule) (rc : Fields) (p : Json → Bool) (b a : Json)
    → Returns (screen rule rc (λ j. ok (p j)) b a)
tested-Returns rule rc p b a = screen-Returns rule rc (λ j. ok (p j)) b a (p b, refl) (p a, refl)

module _ (rc : Fields) (rtype : String) (before after : Fields) where
  bucket-Returns : Returns (check_control_plane_bucket rc rtype before after)
  unfolding check_control_plane_bucket
  bucket-Returns =
      if-Returns (rtype =ₛ "google_storage_bucket")
        (tested-Returns control_plane_bucket rc is_protected_bucket_name (get before "name")
          (get after "name"))
        (if-Returns (rtype =ₛ "google_storage_bucket_object")
          (tested-Returns control_plane_bucket rc is_protected_bucket_name (get before "bucket")
            (get after "bucket"))
          ([], refl))

  managed_bucket-Returns : Returns (check_service_managed_bucket rc rtype before after)
  unfolding check_service_managed_bucket
  managed_bucket-Returns =
      if-Returns _ (flag-Returns service_managed_bucket rc (ok _) (_, refl)) ([], refl)

  pubsub-Returns : Returns (check_service_managed_pubsub rc rtype before after)
  unfolding check_service_managed_pubsub
  pubsub-Returns =
      if-Returns _ (tested-Returns service_managed_pubsub rc is_service_managed_pubsub_name _ _)
        ([], refl)

  sa-Returns : Returns (check_control_plane_sa rc rtype before after)
  unfolding check_control_plane_sa
  sa-Returns =
      if-Returns _
        (names-Returns control_plane_sa rc control_plane_sa_account_ids _ _
          (of_option-Hashable (sa_account_id before)) (of_option-Hashable (sa_account_id after)))
        ([], refl)

  module _ (h : HashableNames before after) where
    service-Returns : Returns (check_control_plane_service rc rtype before after)
    unfolding check_control_plane_service
    service-Returns =
        if-Returns _
          (names-Returns control_plane_service rc control_plane_service_names _ _ h.name_before
            h.name_after)
          ([], refl)

    secret-Returns : Returns (check_control_plane_secret rc rtype before after)
    unfolding check_control_plane_secret
    secret-Returns =
        if-Returns _
          (names-Returns control_plane_secret rc control_plane_secret_ids _ _ h.secret_before
            h.secret_after)
          (if-Returns _
            (names-Returns control_plane_secret rc control_plane_secret_ids _ _
              (of_option-Hashable (version_secret_id before))
              (of_option-Hashable (version_secret_id after)))
            ([], refl))

    kms-Returns : Returns (check_control_plane_kms rc rtype before after)
    unfolding check_control_plane_kms
    kms-Returns =
        if-Returns _
          (names-Returns control_plane_kms rc control_plane_kms_key_names _ _ h.name_before
            h.name_after)
          (if-Returns _
            (names-Returns control_plane_kms rc control_plane_kms_keyring_names _ _ h.name_before
              h.name_after)
            ([], refl))

    pub identity_rules-Returns : Returns (identity_rules rc rtype (before, after))
    unfolding identity_rules check_wif check_iam
    identity_rules-Returns = gather-Returns _ (
      service-Returns,
      (
        sa-Returns,
        (
          bucket-Returns,
          (
            managed_bucket-Returns,
            (
              pubsub-Returns,
              (
                secret-Returns,
                (
                  kms-Returns,
                  (
                    flag-Returns wif_config_change rc (ok _) (_, refl),
                    (flag-Returns iam_change_forbidden rc (ok _) (_, refl), tt),
                  ),
                ),
              ),
            ),
          ),
        ),
      ),
    )
