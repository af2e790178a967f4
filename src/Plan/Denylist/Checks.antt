-- ===== src/Plan/Denylist/Checks.antt =====
-- The identity rules of driftscribe_lib/iac_plan_denylist.py. A `_check_…` function appends to the
-- caller's list; here it returns what it appends, or the exception that it raises.
use driftscribe.Base.{
  String, Bool, true, false, not, ◌&&◌, ◌||◌, Option, none, some, List, [], ◌∷◌, Result, ok, raised,
  or_else, if◌then◌else◌,
}
use driftscribe.Base.Text.{
  contains, starts_with, starts_with_any, ends_with_any, has_infix, after_first?, until, ◌=ₛ◌,
}
use driftscribe.Base.Json.{Json, null, str, Fields, get, get_or, is_str, dict_of, member}
use driftscribe.Plan.Denylist.Names.{
  Actions, no_op_action_tuples, cloud_run_service_types, control_plane_service_names,
  control_plane_sa_account_ids, control_plane_bucket_suffixes, service_managed_bucket_suffixes,
  service_managed_bucket_prefixes, service_managed_pubsub_prefixes, control_plane_secret_ids,
  control_plane_kms_key_names, control_plane_kms_keyring_names, wif_resource_types, iam_extra_types,
  pubsub_resource_types,
}
use driftscribe.Plan.Denylist.Rules.{
  Rule, Violation, plan_json_malformed_change, control_plane_service, control_plane_sa,
  control_plane_bucket, service_managed_bucket, service_managed_pubsub, control_plane_secret,
  control_plane_kms, wif_config_change, iam_change_forbidden,
}

-- `rc.get('address', '<unknown>')`
unfoldable pub address_of : Fields → Json
address_of rc = get_or rc "address" (str "<unknown>")

-- One violation that names the entry.
abbrev pub violation : Rule → Fields → Violation
violation rule rc = record { rule = rule; subject = address_of rc ∷ [] }

-- `actions == t` for tuples of texts.
unfoldable pub tuple_eq : Actions → Actions → Bool
tuple_eq [] [] = true
tuple_eq [] (_ ∷ _) = false
tuple_eq (_ ∷ _) [] = false
tuple_eq (a ∷ as') (b ∷ bs) = a =ₛ b && tuple_eq as' bs

-- `actions in tuples`
unfoldable pub in_tuples : Actions → List Actions → Bool
in_tuples actions [] = false
in_tuples actions (t ∷ ts) = tuple_eq actions t || in_tuples actions ts

unfoldable pub is_mutation : Actions → Bool
is_mutation actions = not (in_tuples actions no_op_action_tuples)

-- `_identity_dicts`: the `before` and `after` of a change, `{}` where they are no dicts.
unfoldable pub identity_dicts : Fields → Fields × Fields
identity_dicts change = (dict_of (get change "before"), dict_of (get change "after"))

-- Append the violation if the test passed.
unfoldable pub flag : Rule → Fields → Result Bool → Result (List Violation)
flag rule rc (ok true) = ok (violation rule rc ∷ [])
flag rule rc (ok false) = ok []
flag rule rc (raised e) = raised e

-- The pattern of an identity rule: an entry with no text on either side is malformed, any other
-- is flagged if the test holds of `before`'s value or of `after`'s.
unfoldable pub screen : Rule → Fields → (Json → Result Bool) → Json → Json → Result (List Violation)
unfolding flag
screen rule rc test b a =
    if not (is_str b) && not (is_str a)
    then ok (violation plan_json_malformed_change rc ∷ [])
    else flag rule rc (or_else (test b) (test a))

abbrev pub names_in : List String → Json → Result Bool
names_in names j = member j names

unfoldable pub check_control_plane_service :
    Fields → String → Fields → Fields → Result (List Violation)
unfolding screen
check_control_plane_service rc rtype before after =
    if contains cloud_run_service_types rtype
    then screen control_plane_service rc (names_in control_plane_service_names) (get before "name")
        (get after "name")
    else ok []

-- A text or `None`, as a JSON value.
abbrev pub of_option : Option String → Json
of_option none = null
of_option (some s) = str s

-- The local part of an address, if it is one.
abbrev pub local_part : Json → Option String
local_part (str email) = if has_infix email "@" then some (until b'@' email) else none
local_part _ = none

abbrev pub account_or : Json → Option String → Option String
account_or (str aid) fallback = some aid
account_or _ fallback = fallback

unfoldable pub sa_account_id : Fields → Option String
sa_account_id identity = account_or (get identity "account_id") (local_part (get identity "email"))

unfoldable pub check_control_plane_sa : Fields → String → Fields → Fields → Result (List Violation)
unfolding screen
check_control_plane_sa rc rtype before after =
    if rtype =ₛ "google_service_account"
    then screen control_plane_sa rc (names_in control_plane_sa_account_ids)
        (of_option (sa_account_id before)) (of_option (sa_account_id after))
    else ok []

unfoldable pub is_protected_bucket_name : Json → Bool
is_protected_bucket_name (str name) = ends_with_any name control_plane_bucket_suffixes
is_protected_bucket_name _ = false

unfoldable pub is_service_managed_bucket_name : Json → Bool
is_service_managed_bucket_name (str name) =
    ends_with_any name service_managed_bucket_suffixes
    || starts_with_any name service_managed_bucket_prefixes
is_service_managed_bucket_name _ = false

unfoldable pub is_service_managed_pubsub_name : Json → Bool
is_service_managed_pubsub_name (str name) = starts_with_any name service_managed_pubsub_prefixes
is_service_managed_pubsub_name _ = false

unfoldable pub check_control_plane_bucket :
    Fields → String → Fields → Fields → Result (List Violation)
unfolding screen
check_control_plane_bucket rc rtype before after =
    if rtype =ₛ "google_storage_bucket"
    then screen control_plane_bucket rc (λ j. ok (is_protected_bucket_name j)) (get before "name")
        (get after "name")
    else if rtype =ₛ "google_storage_bucket_object"
    then screen control_plane_bucket rc (λ j. ok (is_protected_bucket_name j)) (get before "bucket")
        (get after "bucket")
    else ok []

unfoldable pub check_service_managed_bucket :
    Fields → String → Fields → Fields → Result (List Violation)
unfolding flag
check_service_managed_bucket rc rtype before after =
    if rtype =ₛ "google_storage_bucket"
    then flag service_managed_bucket rc (
        ok (
          is_service_managed_bucket_name (get before "name")
          || is_service_managed_bucket_name (get after "name")))
    else ok []

unfoldable pub check_service_managed_pubsub :
    Fields → String → Fields → Fields → Result (List Violation)
unfolding screen
check_service_managed_pubsub rc rtype before after =
    if contains pubsub_resource_types rtype
    then screen service_managed_pubsub rc (λ j. ok (is_service_managed_pubsub_name j))
        (get before "name") (get after "name")
    else ok []

abbrev pub text_or_none : String → Option String
text_or_none s = if s =ₛ "" then none else some s

abbrev pub id_after_secrets : Option String → Option String
id_after_secrets none = none
id_after_secrets (some rest) = text_or_none (until b'/' rest)

unfoldable pub secret_id_from_version_path : Json → Option String
secret_id_from_version_path (str value) = id_after_secrets (after_first? value "/secrets/")
secret_id_from_version_path _ = none

-- `a or b`: the ids are never empty texts.
abbrev pub first_some : Option String → Option String → Option String
first_some none b = b
first_some (some a) b = some a

unfoldable pub version_secret_id : Fields → Option String
unfolding secret_id_from_version_path
version_secret_id identity =
    first_some (secret_id_from_version_path (get identity "secret"))
      (secret_id_from_version_path (get identity "name"))

unfoldable pub check_control_plane_secret :
    Fields → String → Fields → Fields → Result (List Violation)
unfolding screen
check_control_plane_secret rc rtype before after =
    if rtype =ₛ "google_secret_manager_secret"
    then screen control_plane_secret rc (names_in control_plane_secret_ids) (get before "secret_id")
        (get after "secret_id")
    else if rtype =ₛ "google_secret_manager_secret_version"
    then screen control_plane_secret rc (names_in control_plane_secret_ids)
        (of_option (version_secret_id before)) (of_option (version_secret_id after))
    else ok []

unfoldable pub check_control_plane_kms : Fields → String → Fields → Fields → Result (List Violation)
unfolding screen
check_control_plane_kms rc rtype before after =
    if rtype =ₛ "google_kms_crypto_key"
    then screen control_plane_kms rc (names_in control_plane_kms_key_names) (get before "name")
        (get after "name")
    else if rtype =ₛ "google_kms_key_ring"
    then screen control_plane_kms rc (names_in control_plane_kms_keyring_names) (get before "name")
        (get after "name")
    else ok []

unfoldable pub is_iam_type : String → Bool
is_iam_type rtype =
    contains iam_extra_types rtype || (starts_with rtype "google_" && has_infix rtype "_iam_")

unfoldable pub check_wif : Fields → String → Result (List Violation)
unfolding flag
check_wif rc rtype = flag wif_config_change rc (ok (contains wif_resource_types rtype))

unfoldable pub check_iam : Fields → String → Result (List Violation)
unfolding flag is_iam_type
check_iam rc rtype = flag iam_change_forbidden rc (ok (is_iam_type rtype))
