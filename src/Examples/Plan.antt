-- ===== src/Examples/Plan.antt =====
-- A plan that updates one bucket in place, one that imports a bucket, and the two theorems about
-- refusals at plans that touch a reserved name.
use Prim.Native.String.{String}
use driftscribe.Base.{true, false, [], List, ok, raised, type_error, ◌≡◌, ◌≢◌, refl, ◌↔◌, inl}
use driftscribe.Base.Text.{
  contains, ends_with_any, ends_with, starts_with, strip_prefix?, has_infix, after_first?,
  starts_with_any, until,
}
use driftscribe.Base.Json.{Json, str, arr, obj, nil, cons, Fields, end, field, get, get_or, member}
use driftscribe.Plan.Denylist.Rules.{Violation}
use driftscribe.Plan.Denylist.Evaluate.{
  evaluate, read_entry, texts, evaluate_changes, scan, visit, admission, floors, gather,
  identity_rules, row_violations, entry_violations, importing_of, mutation_of, join_addresses,
  batch_rule, mixed_rule, finish,
}
use driftscribe.Plan.Denylist.Checks.{
  in_tuples, tuple_eq, is_mutation, identity_dicts, flag, screen, address_of,
  check_control_plane_service, sa_account_id, check_control_plane_sa, is_protected_bucket_name,
  is_service_managed_bucket_name, is_service_managed_pubsub_name, check_control_plane_bucket,
  check_service_managed_bucket, check_service_managed_pubsub, secret_id_from_version_path,
  version_secret_id, check_control_plane_secret, check_control_plane_kms, is_iam_type, check_wif,
  check_iam,
}
use driftscribe.Plan.Denylist.Admission.{Passes}
use driftscribe.Plan.Denylist.Pass.{evaluate_iff}
use driftscribe.Plan.Denylist.Nodes.{node_matches, is_control_plane_node}
use driftscribe.Plan.Denylist.Parity.{bucket, flagged_never_passes}
use driftscribe.Plan.Denylist.Total.{evaluate-returns}
use driftscribe.Plan.Denylist.Raises.{list_name-raises}
use driftscribe.Plan.Classify.{plan_has_create, plan_has_import, any_imports, imports}
use driftscribe.Plan.Classify.Routes.{AllInPlace, evaluate-has_create, has_import-has_create}

abbrev change_to : String → Json → Json → Fields → Json
change_to action before after more = obj (
    field "actions" (arr (cons (str action) nil))
      (field "before" before (field "after" after more)))

abbrev named : Json → Json
named name = obj (field "name" name end)

abbrev entry : String → Json → Json
entry rtype change =
    obj (field "address" (str "a.b") (field "type" (str rtype) (field "change" change end)))

abbrev plan_with : Json → Fields
plan_with j = field "resource_changes" (arr (cons j nil)) end

abbrev update_bucket : Fields
update_bucket = plan_with (
    entry "google_storage_bucket"
      (change_to "update" (named (str "app-data")) (named (str "app-data")) end))

abbrev import_bucket : Fields
import_bucket = plan_with (
    entry "google_storage_bucket" (
      change_to "no-op" (named (str "app-data")) (named (str "app-data"))
        (field "importing" (obj end) end)))

abbrev state_change : Json
state_change =
    change_to "update" (named (str "acme-tofu-state")) (named (str "acme-tofu-state")) end

abbrev state_bucket : Fields
state_bucket = plan_with (entry "google_storage_bucket" state_change)

evaluate_iff_example :
    (evaluate update_bucket ≡ ok []) ↔ Passes (get update_bucket "resource_changes")
evaluate_iff_example = evaluate_iff update_bucket

has_import-has_create_example : plan_has_create (obj import_bucket) ≡ true
unfolding plan_has_import get any_imports imports
has_import-has_create_example = has_import-has_create (obj import_bucket) refl

evaluate-has_create_example :
    (plan_has_create (obj update_bucket) ≡ false)
    ↔ AllInPlace (get update_bucket "resource_changes")
unfolding evaluate read_entry texts get get_or member contains ends_with_any ends_with starts_with
    strip_prefix? has_infix after_first? starts_with_any until evaluate_changes scan visit admission
    floors gather identity_rules row_violations entry_violations importing_of mutation_of
    join_addresses batch_rule mixed_rule finish in_tuples tuple_eq is_mutation identity_dicts flag
    screen address_of check_control_plane_service sa_account_id check_control_plane_sa
    is_protected_bucket_name is_service_managed_bucket_name is_service_managed_pubsub_name
    check_control_plane_bucket check_service_managed_bucket check_service_managed_pubsub
    secret_id_from_version_path version_secret_id check_control_plane_secret check_control_plane_kms
    is_iam_type check_wif check_iam
evaluate-has_create_example = evaluate-has_create update_bucket refl

evaluate-returns_example : (vs : List Violation) × (evaluate state_bucket ≡ ok vs)
unfolding get read_entry texts address_of get_or
evaluate-returns_example = evaluate-returns state_bucket (
  (record { name_before = tt; name_after = tt; secret_before = tt; secret_after = tt }, refl),
  tt,
)

abbrev renamed_bucket : Fields
renamed_bucket = plan_with (
    entry "google_storage_bucket"
      (change_to "update" (named (str "acme-tofu-state")) (named (str "acme-other")) end))

flagged_never_passes_example : evaluate renamed_bucket ≢ ok []
unfolding get read_entry texts is_mutation in_tuples tuple_eq is_control_plane_node node_matches
    contains ends_with_any ends_with
flagged_never_passes_example =
    flagged_never_passes renamed_bucket _ [] _ [] _ _ _ "acme-tofu-state" _ _ refl refl refl
      (inl refl) bucket (inl refl) refl

abbrev list_named : Fields
list_named = plan_with (
    entry "google_cloud_run_v2_service"
      (change_to "update" (named (str "payment-demo")) (named (arr nil)) end))

list_name-raises_example : evaluate list_named ≡ raised type_error
unfolding get read_entry texts contains in_tuples tuple_eq is_mutation
list_name-raises_example =
    list_name-raises list_named _ nil _ _ _ _ "payment-demo" nil refl refl refl refl refl refl refl
      refl
