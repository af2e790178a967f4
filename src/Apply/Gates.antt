-- ===== src/Apply/Gates.antt =====
-- workers/tofu_apply/main.py: the checks of `/apply` between the claim and OpenTofu. A check that fails
-- is refused under the phase that the handler records; `crash` stands for an exception that it does not
-- catch. What the image holds, and the probe of OpenTofu's version, are given.
pub mod Approved
use driftscribe.Base.{
  String, Bool, true, false, not, ◌&&◌, Option, none, some, List, [], ◌∷◌, Result, ok, raised,
  if◌then◌else◌, is_empty,
}
use driftscribe.Base.Text.{◌=ₛ◌}
use driftscribe.Base.Json.{Json, str, obj, Fields, get}
use driftscribe.Base.Value.{Python, find?, json_eq}
use driftscribe.Plan.Denylist.Rules.{Violation}
use driftscribe.Plan.Denylist.Evaluate.{evaluate, load_plan_json}
use driftscribe.Plan.Classify.{plan_has_create}
use driftscribe.Signed.Metadata.{is_hex_of}
use driftscribe.Signed.Payload.{Binding, build_plan_approval_payload}
use driftscribe.Signed.Store.{Crypto, Integrity, canonicalize_payload, verify_artifact_integrity}
use driftscribe.Apply.Guard.{
  Infidelity, version_mismatch, lockfile_mismatch, refused_by_guard, is_text, assert_fidelity,
}
use driftscribe.Apply.Fetch.{Bucket, fetch_artifact, derive_sidecar_uri}

pub data Refused : Type 0 where
  integrity_refused tree_mismatch_refused fidelity_refused probe_failed verify_refused : Refused

pub data Gate (A : Type 0) : Type 0 where
  pass : A → Gate A
  refuse : Refused → Gate A
  crash : Gate A

infixl 5 ◌>>=◌ ◌>>◌
abbrev pub ◌>>=◌ : {A B : Type 0} → Gate A → (A → Gate B) → Gate B
pass x >>= next = next x
refuse r >>= next = refuse r
crash >>= next = crash

abbrev pub ◌>>◌ : {B : Type 0} → Gate (Unit {0}) → Gate B → Gate B
first >> next = first >>= λ _. next

-- `_baked_tofu_version`: the version, a failed step, output that does not parse, or another exception.
pub data Probe : Type 0 where
  version : String → Probe
  step_failed unreadable broke : Probe

-- `json.loads` on bytes and on text, and the decoding of UTF-8, are `none` where they raise.
pub record Site : Type 0 where
  pub crypto : Crypto
  pub py : Python
  pub bucket : Bucket
  pub loads_bytes : String → Option Json
  pub decode : String → Option String
  pub probe : Probe
  pub lockfile_sha256 : String
  pub declared : List String
  pub iac_tree_hash : Option String

-- A value that is missing is refused under a phase.
abbrev pub or_refuse : {A : Type 0} → Refused → Option A → Gate A
or_refuse r none = refuse r
or_refuse r (some x) = pass x

abbrev pub check : Refused → Bool → Gate (Unit {0})
check r true = pass tt
check r false = refuse r

-- `d[key]`: a `KeyError` is caught.
unfoldable pub item : Fields → String → Gate Json
item d key = or_refuse verify_refused (find? d key)

-- What is given for a text that is signed; of any other value the payload's builder raises ValueError.
abbrev pub text_or_refuse : Json → Gate String
text_or_refuse (str s) = pass s
text_or_refuse _ = refuse verify_refused

abbrev pub caught : {A : Type 0} → Result A → Gate A
caught (ok x) = pass x
caught (raised e) = refuse verify_refused

abbrev pub dict_or_refuse : Refused → Json → Gate Fields
dict_or_refuse r (obj d) = pass d
dict_or_refuse r _ = refuse r

unfoldable pub signed_text : Fields → String → Gate String
signed_text sp key = item sp key >>= text_or_refuse

unfoldable pub binding_of : Fields → Gate Binding
binding_of sp = do
  uri ← signed_text sp "artifact_uri_metadata"
  generation ← signed_text sp "generation_metadata"
  approver ← signed_text sp "approver"
  issued_at ← signed_text sp "issued_at"
  expires_at ← signed_text sp "expires_at"
  pass (record {
    artifact_uri_metadata = uri;
    generation_metadata = generation;
    approver = approver;
    issued_at = issued_at;
    expires_at = expires_at;
  })

-- An artifact at the place and the generation that an object names.
unfoldable pub fetched : Site → Fields → String → String → String → Gate String
fetched w d uri_key generation_key basename = do
  uri ← item d uri_key
  generation ← item d generation_key
  or_refuse integrity_refused (fetch_artifact w.bucket uri generation basename)

-- The metadata, fetched again, must give the payload that was signed.
unfoldable pub reproduced : Site → Fields → String → Gate (Unit {0})
reproduced w sp payload_canonical = do
  meta_bytes ← fetched w sp "artifact_uri_metadata" "generation_metadata" "metadata.json"
  metadata ← or_refuse verify_refused (w.loads_bytes meta_bytes)
  binding ← binding_of sp
  rebuilt ← caught (build_plan_approval_payload w.crypto.calendar metadata binding)
  check verify_refused (canonicalize_payload w.crypto rebuilt =ₛ payload_canonical)

abbrev pub intact : Option Integrity → Gate (Unit {0})
intact none = pass tt
intact (some e) = refuse integrity_refused

abbrev pub parsed : Option Fields × Option Violation → Gate Fields
parsed (some plan, none) = pass plan
parsed _ = refuse verify_refused

-- The two artifacts, fetched, with the two digests, looked up, in this order.
abbrev pub verified_parts :
    Site → Gate String → Gate String → Gate Json → Gate Json → Gate (Fields × String)
verified_parts w plan_fetched json_fetched plan_digest json_digest = do
  plan_bytes ← plan_fetched
  json_bytes ← json_fetched
  plan_sha256 ← plan_digest
  plan_json_sha256 ← json_digest
  integrity ←
      caught (verify_artifact_integrity w.crypto plan_bytes json_bytes plan_sha256 plan_json_sha256)
  intact integrity
  text ← or_refuse verify_refused (w.decode json_bytes)
  plan ← parsed (load_plan_json w.crypto.loads text)
  pass (plan, plan_bytes)

-- `_fetch_and_verify_artifacts`: the parsed plan and the bytes of the saved plan.
unfoldable pub fetch_and_verify_artifacts : Site → Fields → Gate (Fields × String)
fetch_and_verify_artifacts w md =
    verified_parts w (fetched w md "artifact_uri_plan" "generation_plan" "plan.tfplan")
      (fetched w md "artifact_uri_json" "generation_json" "plan.json") (item md "plan_sha256")
      (item md "plan_json_sha256")

abbrev pub unviolated : Result (List Violation) → Gate (Unit {0})
unviolated (ok []) = pass tt
unviolated (ok (v ∷ vs)) = refuse verify_refused
unviolated (raised e) = refuse verify_refused

-- `_denylist_or_raise`
unfoldable pub denylist_or_raise : Fields → Gate (Unit {0})
denylist_or_raise plan = unviolated (evaluate plan)

abbrev pub sidecar_crosscheck_fields : List String
sidecar_crosscheck_fields =
    "repo" ∷ "pr_number" ∷ "head_sha" ∷ "base_sha" ∷ "workflow_run_id" ∷ "workflow_run_attempt"
    ∷ "plan_sha256" ∷ "plan_json_sha256" ∷ []

unfoldable pub same_fields : Python → Fields → Fields → List String → Bool
same_fields py sidecar md [] = true
same_fields py sidecar md (k ∷ ks) =
    json_eq py (get sidecar k) (get md k) && same_fields py sidecar md ks

abbrev pub is_wanted : Json → String → Bool
is_wanted (str want) have = is_hex_of 64 want && want =ₛ have
is_wanted _ have = false

-- `if not generation_iac_tree`
abbrev pub given_generation : Option String → Gate String
given_generation none = refuse tree_mismatch_refused
given_generation (some g) = if g =ₛ "" then refuse tree_mismatch_refused else pass g

-- `_verify_iac_tree_or_raise`
unfoldable pub verify_iac_tree_or_raise : Site → Fields → Json → Option String → Gate (Unit {0})
verify_iac_tree_or_raise w md metadata_uri generation_iac_tree = do
  generation ← given_generation generation_iac_tree
  uri ← or_refuse tree_mismatch_refused (derive_sidecar_uri metadata_uri)
  raw ←
      or_refuse tree_mismatch_refused
        (fetch_artifact w.bucket (str uri) (str generation) "iac-tree.json")
  loaded ← or_refuse tree_mismatch_refused (w.loads_bytes raw)
  sidecar ← dict_or_refuse tree_mismatch_refused loaded
  check tree_mismatch_refused (is_text (get sidecar "schema_version") "c6.v1")
  check tree_mismatch_refused (same_fields w.py sidecar md sidecar_crosscheck_fields)
  have ← or_refuse tree_mismatch_refused w.iac_tree_hash
  check tree_mismatch_refused (is_wanted (get sidecar "iac_tree_hash") have)

abbrev pub probed : Probe → Gate String
probed (version v) = pass v
probed step_failed = refuse probe_failed
probed unreadable = refuse verify_refused
probed broke = crash

abbrev pub faithful : Option Infidelity → Gate (Unit {0})
faithful none = pass tt
faithful (some e) = refuse fidelity_refused

-- `_fidelity_or_raise`
unfoldable pub fidelity_or_raise : Site → Fields → Fields → Bool → Gate (Unit {0})
fidelity_or_raise w md plan allow = do
  baked ← probed w.probe
  faithful (assert_fidelity md baked w.lockfile_sha256 plan w.declared allow allow)

-- The tree of the image must be the approved one, where the plan creates or imports.
abbrev pub tree_gate : Bool → Gate (Unit {0}) → Gate (Unit {0})
tree_gate true verified = verified
tree_gate false verified = pass tt

-- The first `try` of `/apply`: the bytes of the plan, and whether it creates.
unfoldable pub gates : Site → Fields → Json → String → Option String → Gate (String × Bool)
gates w sp signed_md payload_canonical generation_iac_tree = do
  reproduced w sp payload_canonical
  md ← dict_or_refuse verify_refused signed_md
  (plan, plan_bytes) ← fetch_and_verify_artifacts w md
  denylist_or_raise plan
  tree_gate (plan_has_create (obj plan))
      (verify_iac_tree_or_raise w md (get sp "artifact_uri_metadata") generation_iac_tree)
  fidelity_or_raise w md plan (plan_has_create (obj plan))
  pass (plan_bytes, plan_has_create (obj plan))
