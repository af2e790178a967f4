-- ===== src/Examples/Signed.antt =====
-- One plan approval, created, claimed and applied, with simple functions for the hashes and for JSON.
use driftscribe.Base.{String, true, Option, none, some, ok, ◌≡◌, refl, if◌then◌else◌}
use driftscribe.Base.Text.{◌=ₛ◌, starts_with, strip_prefix?, until, after_first?}
use driftscribe.Base.Sorted.{sorted_names, insert, precedes}
use driftscribe.Base.Json.{Json, num, str, arr, obj, nil, Fields, end, field, get}
use driftscribe.Base.Value.{find?}
use driftscribe.Signed.Metadata.{
  MetadataInput, check_fields, metadata_of, build_metadata, is_repo, check_number, check_match,
  check_text, is_hex_of, is_digits, is_positive_digits, is_semver, semver_rest, each_char,
  text_length, spells_positive, expected_prefix,
}
use driftscribe.Signed.Payload.{
  Calendar, Binding, build_plan_approval_payload, payload_of, check_metadata, keys, same_texts,
  fold_type_error, check_binding, check_locator, check_window, check_span, parse_rfc3339_utc,
  is_rfc3339_utc, has_form, before_last_slash?,
}
use driftscribe.Signed.Payload.Rebuilt.{
  ShortWindow, build_plan_approval_payload-again, build_plan_approval_payload-Short,
}
use driftscribe.Signed.Store.{
  Crypto, PlanDoc, PlanApproval, PlanDocs, put, create, check_payload, parse_item, metadata_item,
  new_doc, get_plan_approval, verify_plan_approval, signed_payload, canonicalize_payload,
  compute_plan_approval_hmac, digest_canonical,
}
use driftscribe.Signed.Minted.{create-verifies}

abbrev pub inputs : MetadataInput
inputs = record {
  repo = str "owner/repo";
  pr_number = num "7";
  head_sha = str "aaaaaaaaaaaaaaaaaaaaaaaaaaaaaaaaaaaaaaaa";
  base_sha = str "aaaaaaaaaaaaaaaaaaaaaaaaaaaaaaaaaaaaaaaa";
  workflow_run_id = str "1";
  workflow_run_attempt = str "1";
  artifact_uri_plan =
      str
        "gs://driftscribe-hack-2026-tofu-artifacts/pr-7/aaaaaaaaaaaaaaaaaaaaaaaaaaaaaaaaaaaaaaaa/run-1-1/plan.tfplan";
  artifact_uri_json =
      str
        "gs://driftscribe-hack-2026-tofu-artifacts/pr-7/aaaaaaaaaaaaaaaaaaaaaaaaaaaaaaaaaaaaaaaa/run-1-1/plan.json";
  generation_plan = str "5";
  generation_json = str "6";
  plan_sha256 = str "bbbbbbbbbbbbbbbbbbbbbbbbbbbbbbbbbbbbbbbbbbbbbbbbbbbbbbbbbbbbbbbb";
  plan_json_sha256 = str "bbbbbbbbbbbbbbbbbbbbbbbbbbbbbbbbbbbbbbbbbbbbbbbbbbbbbbbbbbbbbbbb";
  opentofu_version = str "1.10.0";
  provider_lockfile_sha256 = str "bbbbbbbbbbbbbbbbbbbbbbbbbbbbbbbbbbbbbbbbbbbbbbbbbbbbbbbbbbbbbbbb";
}

abbrev pub binding : Binding
binding = record {
  artifact_uri_metadata =
      "gs://driftscribe-hack-2026-tofu-artifacts/pr-7/aaaaaaaaaaaaaaaaaaaaaaaaaaaaaaaaaaaaaaaa/run-1-1/metadata.json";
  generation_metadata = "4";
  approver = "op@example.com";
  issued_at = "2026-06-01T10:00:00+00:00";
  expires_at = "2026-06-01T10:15:00+00:00";
}

abbrev pub calendar : Calendar
calendar = record {
  is_decimal = λ c. true;
  fromisoformat = λ s. if s =ₛ "2026-06-01T10:00:00+00:00" then some 1000 else some 900001000;
}

abbrev pub payload : Fields
payload = payload_of (metadata_of inputs) binding

payload_built : build_plan_approval_payload calendar (obj (metadata_of inputs)) binding ≡ ok payload
unfolding build_plan_approval_payload build_metadata check_fields check_metadata is_repo
    check_number check_match check_text is_hex_of is_digits is_positive_digits is_semver semver_rest
    each_char text_length spells_positive expected_prefix keys same_texts fold_type_error
    check_binding check_locator check_window check_span parse_rfc3339_utc is_rfc3339_utc has_form
    before_last_slash? sorted_names insert precedes get starts_with strip_prefix? until after_first?
payload_built = refl

build_plan_approval_payload-again_example :
    (i : MetadataInput) × (check_fields i ≡ ok tt)
    × (get payload "metadata" ≡ obj (metadata_of i))
    × (build_plan_approval_payload calendar (get payload "metadata") binding ≡ ok payload)
build_plan_approval_payload-again_example =
    build_plan_approval_payload-again calendar (obj (metadata_of inputs)) binding payload
      payload_built

build_plan_approval_payload-Short_example :
    (get payload "issued_at" ≡ str binding.issued_at)
    × (get payload "expires_at" ≡ str binding.expires_at)
    × ShortWindow calendar binding
build_plan_approval_payload-Short_example =
    build_plan_approval_payload-Short calendar (obj (metadata_of inputs)) binding payload
      payload_built

abbrev pub plan : Fields
plan = field "resource_changes" (arr nil) end

abbrev pub loads : String → Option Json
loads s = if s =ₛ "payload" then some (obj payload) else some (obj plan)

abbrev pub crypto : Crypto
crypto = record {
  sha256 = λ s. "bbbbbbbbbbbbbbbbbbbbbbbbbbbbbbbbbbbbbbbbbbbbbbbbbbbbbbbbbbbbbbbb";
  hmac_sha256 = λ key s. s;
  dumps = λ fs. "payload";
  loads = loads;
  calendar = calendar;
}

abbrev pub no_docs : PlanDocs
no_docs key = none

abbrev pub doc : PlanDoc
doc = record {
  status = "pending";
  token_hmac =
      "driftscribe-plan-approval-v1|token|id-1|bbbbbbbbbbbbbbbbbbbbbbbbbbbbbbbbbbbbbbbbbbbbbbbbbbbbbbbbbbbbbbbb";
  payload_canonical = "payload";
  payload_sha256 = "bbbbbbbbbbbbbbbbbbbbbbbbbbbbbbbbbbbbbbbbbbbbbbbbbbbbbbbbbbbbbbbb";
  expires_at = 900001000;
  created_at = 1000;
  created_by = "coordinator";
  pr_number = num "7";
  head_sha = str "aaaaaaaaaaaaaaaaaaaaaaaaaaaaaaaaaaaaaaaa";
  artifact_uri_metadata = str binding.artifact_uri_metadata;
  generation_metadata = str "4";
  used_at = none;
  used_by = none;
  denied_at = none;
  denied_by = none;
  apply_audit = none;
}

abbrev pub approval : PlanApproval
approval = record { approval_id = "id-1"; body = doc }

unfoldable pub docs : PlanDocs
unfolding put
docs = put "id-1" doc no_docs

create-verifies_example :
    (get_plan_approval "id-1" docs ≡ some approval)
    × (verify_plan_approval crypto "token" approval "key" ≡ true)
    × (signed_payload crypto approval ≡ some (obj payload))
unfolding docs create check_payload parse_item metadata_item new_doc put canonicalize_payload
    compute_plan_approval_hmac digest_canonical parse_rfc3339_utc keys same_texts sorted_names
    insert precedes get find?
create-verifies_example =
    create-verifies crypto payload "key" "coordinator" "id-1" "token" 1000 no_docs docs approval
      "token" refl refl

abbrev denied_approval : PlanApproval
denied_approval = record {
  approval_id = "id-1";
  body = record doc { status = "denied"; denied_by = some "worker"; denied_at = some 7 };
}
