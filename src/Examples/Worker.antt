-- ===== src/Examples/Worker.antt =====
-- The approval of Examples/Signed, applied by a worker for which OpenTofu succeeds.
use driftscribe.Base.{
  if◌then◌else◌, ◌==◌, ℕ, Option, String, true, none, some, [], ◌≡◌, refl, arith,
}
use driftscribe.Base.Text.{starts_with, strip_prefix?, ends_with, contains, until, after_first?}
use driftscribe.Base.Sorted.{sorted_names, insert, precedes}
use driftscribe.Base.Json.{str, obj, get}
use driftscribe.Base.Value.{find?}
use driftscribe.Rollback.Http.{answered}
use driftscribe.Plan.Denylist.Evaluate.{
  evaluate, evaluate_changes, load_plan_json, scan, finish, batch_rule, mixed_rule,
}
use driftscribe.Plan.Classify.{plan_has_create, any_creates}
use driftscribe.Signed.Metadata.{
  metadata_of, build_metadata, check_fields, is_repo, check_number, check_match, check_text,
  is_hex_of, is_digits, is_positive_digits, is_semver, semver_rest, each_char, text_length,
  spells_positive, expected_prefix,
}
use driftscribe.Signed.Payload.{
  build_plan_approval_payload, check_metadata, keys, same_texts, fold_type_error, check_binding,
  check_locator, check_window, check_span, parse_rfc3339_utc, is_rfc3339_utc, has_form,
  before_last_slash?,
}
use driftscribe.Signed.Store.{
  PlanApproval, create, check_payload, metadata_item, new_doc, put, parse_item, get_plan_approval,
  verify_plan_approval, signed_payload, plan_approval_is_expired, claim_pending, claim, claim_read,
  mark_used, verify_artifact_integrity, canonicalize_payload, compute_plan_approval_hmac,
  digest_canonical, set_apply_audit,
}
use driftscribe.Apply.Guard.{resource_set_guard, guard_entries, assert_fidelity}
use driftscribe.Apply.Sequence.{
  run_apply_sequence, apply_saved_plan, initialize, freshness, after_init, after_refresh,
  after_apply, attempt, run_tofu, state_serial_lineage, reading_of,
}
use driftscribe.Apply.Sequence.Gate.{applies}
use driftscribe.Apply.Fetch.{
  fetch_artifact, validate_artifact_uri, parse_gs_uri, partition, is_artifact_object,
  fetch_object_pinned,
}
use driftscribe.Apply.Gates.{
  Site, version, item, signed_text, binding_of, fetched, reproduced, fetch_and_verify_artifacts,
  denylist_or_raise, fidelity_or_raise, gates,
}
use driftscribe.Apply.Worker.{
  Worker, ApplyRequest, Claim, verify_operator, opened, authorize, conclude, after_gates, burned,
  claim_for, apply,
}
use driftscribe.Apply.Worker.Sent.{Authorized, Backed, apply-Backed}
use driftscribe.Apply.Worker.Ends.{Ends, apply-Ends}
use driftscribe.Examples.Apply.{python, quiet_world}
use driftscribe.Apply.Propose.{ProposeRequest, examined, payload_for, propose}
use driftscribe.Apply.Propose.Minted.{Carries, propose-Carries}
use driftscribe.Signed.Window.{new_approval_window}
use driftscribe.Examples.Signed.{binding, no_docs, doc, inputs, payload, crypto, approval, docs}

abbrev site : Site
site = record {
  crypto = crypto;
  py = python;
  bucket = record { generation_of = λ j. some "5"; download = λ object generation. some "bytes" };
  loads_bytes = λ bytes. some (obj (metadata_of inputs));
  decode = λ bytes. some "plan";
  probe = version "1.10.0";
  lockfile_sha256 = "bbbbbbbbbbbbbbbbbbbbbbbbbbbbbbbbbbbbbbbbbbbbbbbbbbbbbbbbbbbbbbbb";
  declared = [];
  iac_tree_hash = none;
}

abbrev worker : Worker
worker = record {
  site = site;
  world = λ bytes. quiet_world;
  hmac_key = "key";
  e2e = true;
  verified_email = λ jwt. none;
  attempt_id = "attempt-1";
  clock = λ m. 2000;
  others = λ m docs. docs;
}

abbrev request : ApplyRequest
request = record {
  approval_id = "id-1";
  approval_token = "token";
  operator_jwt = none;
  generation_iac_tree = none;
}

abbrev caller : String
caller = "op@example.com"

abbrev claimed : Claim
claimed = record { stored = approval; payload = payload; operator_email = none }

apply_ran :
    (applies (apply worker request caller docs).commands ≡ 1)
    × ((apply worker request caller docs).reply ≡ answered "applied")
unfolding apply authorize opened verify_operator claim_for burned after_gates conclude gates
    reproduced item signed_text binding_of fetched fetch_and_verify_artifacts denylist_or_raise
    fidelity_or_raise fetch_artifact validate_artifact_uri parse_gs_uri partition is_artifact_object
    fetch_object_pinned run_apply_sequence apply_saved_plan initialize freshness after_init
    after_refresh after_apply attempt run_tofu state_serial_lineage reading_of applies
    resource_set_guard guard_entries assert_fidelity put parse_item get_plan_approval
    verify_plan_approval signed_payload plan_approval_is_expired claim_pending claim claim_read
    mark_used verify_artifact_integrity canonicalize_payload compute_plan_approval_hmac
    digest_canonical set_apply_audit build_plan_approval_payload check_metadata keys same_texts
    fold_type_error check_binding check_locator check_window check_span parse_rfc3339_utc
    is_rfc3339_utc has_form before_last_slash? build_metadata check_fields is_repo check_number
    check_match check_text is_hex_of is_digits is_positive_digits is_semver semver_rest each_char
    text_length spells_positive expected_prefix plan_has_create any_creates evaluate
    evaluate_changes load_plan_json scan finish batch_rule mixed_rule docs find? get sorted_names
    insert precedes starts_with strip_prefix? ends_with contains until after_first?
apply_ran = (refl, refl)

claim_authorized :
    authorize worker request caller (get_plan_approval "id-1" docs) ≡ answered claimed
unfolding authorize opened verify_operator get_plan_approval verify_plan_approval signed_payload
    plan_approval_is_expired compute_plan_approval_hmac digest_canonical parse_item
    parse_rfc3339_utc docs put get find?
claim_authorized = refl

apply-Backed_example :
    (c : Claim) × Authorized worker request caller (get_plan_approval "id-1" docs) c
    × Backed worker request caller docs c (apply worker request caller docs).commands
apply-Backed_example = apply-Backed worker request caller docs (omega (arith, apply_ran.0))

apply-Ends_example : Ends worker "id-1" caller none (apply worker request caller docs)
apply-Ends_example =
    apply-Ends worker request caller docs claimed (λ m d. refl) claim_authorized
      (λ e. let f = apply_ran.1 in cc)

abbrev iso : ℕ → String
iso now = if now == 2000 then "2026-06-01T10:00:00+00:00" else "2026-06-01T10:15:00+00:00"

abbrev proposal : ProposeRequest
proposal = record {
  artifact_uri_metadata = binding.artifact_uri_metadata;
  generation_metadata = "4";
  approver = caller;
  operator_jwt = none;
  generation_iac_tree = none;
}

abbrev minted_approval : PlanApproval
minted_approval = record {
  approval_id = "id-1";
  body = record doc { created_at = 2000; created_by = caller };
}

propose_ran : propose worker iso proposal caller "id-1" "token" no_docs ≡ (
  (propose worker iso proposal caller "id-1" "token" no_docs).0,
  answered (minted_approval, "token"),
)
unfolding apply authorize opened verify_operator claim_for burned after_gates conclude gates
    reproduced item signed_text binding_of fetched fetch_and_verify_artifacts denylist_or_raise
    fidelity_or_raise fetch_artifact validate_artifact_uri parse_gs_uri partition is_artifact_object
    fetch_object_pinned run_apply_sequence apply_saved_plan initialize freshness after_init
    after_refresh after_apply attempt run_tofu state_serial_lineage reading_of applies
    resource_set_guard guard_entries assert_fidelity put parse_item get_plan_approval
    verify_plan_approval signed_payload plan_approval_is_expired claim_pending claim claim_read
    mark_used verify_artifact_integrity canonicalize_payload compute_plan_approval_hmac
    digest_canonical set_apply_audit build_plan_approval_payload check_metadata keys same_texts
    fold_type_error check_binding check_locator check_window check_span parse_rfc3339_utc
    is_rfc3339_utc has_form before_last_slash? build_metadata check_fields is_repo check_number
    check_match check_text is_hex_of is_digits is_positive_digits is_semver semver_rest each_char
    text_length spells_positive expected_prefix plan_has_create any_creates evaluate
    evaluate_changes load_plan_json scan finish batch_rule mixed_rule docs find? get sorted_names
    insert precedes starts_with strip_prefix? ends_with contains until after_first? propose examined
    payload_for new_approval_window create check_payload metadata_item new_doc
propose_ran = refl

propose-Carries_example :
    ((email : Option String) × (verify_operator worker none (str caller) caller ≡ answered email))
    × Carries worker proposal minted_approval
propose-Carries_example =
    propose-Carries worker iso proposal caller "id-1" "token" no_docs
      (propose worker iso proposal caller "id-1" "token" no_docs).0 minted_approval "token"
      propose_ran
