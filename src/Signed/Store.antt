-- ===== src/Signed/Store.antt =====
-- driftscribe_lib/approvals.py: `PlanApprovalStore` and the checks on a stored approval. SHA-256, HMAC,
-- `json.dumps` with sorted keys and `json.loads` (`none` where it raises) are parameters; a fresh id, a
-- fresh token and the time are arguments. Each transaction is one function on the documents.
use Prim.Native.String
use driftscribe.Base.{
  ℕ, String, Bool, false, not, Option, none, some, List, [], ◌∷◌, Result, ok, raised, type_error,
  value_error, require, ◌>>=◌, ◌>>◌, if◌then◌else◌, ltb,
}
use driftscribe.Base.Text.{◌=ₛ◌}
use driftscribe.Base.Sorted.{sorted_names}
use driftscribe.Base.Json.{Json, str, obj, Fields, get}
use driftscribe.Base.Value.{find?}
use driftscribe.Signed.Metadata.{is_hex_of, equals}
use driftscribe.Signed.Payload.{
  Calendar, keys, same_texts, plan_approval_schema_version, parse_rfc3339_utc, text_of,
}

pub record Crypto : Type 0 where
  pub sha256 : String → String
  pub hmac_sha256 : String → String → String
  pub dumps : Fields → String
  pub loads : String → Option Json
  pub calendar : Calendar

pub record PlanDoc : Type 0 where
  pub status : String
  pub token_hmac : String
  pub payload_canonical : String
  pub payload_sha256 : String
  pub expires_at : ℕ
  pub created_at : ℕ
  pub created_by : String
  pub pr_number : Json
  pub head_sha : Json
  pub artifact_uri_metadata : Json
  pub generation_metadata : Json
  pub used_at : Option ℕ
  pub used_by : Option String
  pub denied_at : Option ℕ
  pub denied_by : Option String
  pub apply_audit : Option Fields

-- `PlanApproval`: a document with its key. Its `operation_name` is never written.
pub record PlanApproval : Type 0 where
  pub approval_id : String
  pub body : PlanDoc

-- The collection `plan_approvals`.
abbrev pub PlanDocs : Type 0
PlanDocs = String → Option PlanDoc

-- `canonicalize_payload`
unfoldable pub canonicalize_payload : Crypto → Fields → String
canonicalize_payload c payload = c.dumps payload

-- `_digest_canonical`
unfoldable pub digest_canonical : Crypto → String → String
digest_canonical c canonical = c.sha256 canonical

abbrev pub plan_approval_domain : String
plan_approval_domain = "driftscribe-plan-approval-v1"

abbrev pub bar : String → String → String
bar s t = String.◌++◌ s (String.◌++◌ "|" t)

-- `compute_plan_approval_hmac`
unfoldable pub compute_plan_approval_hmac : Crypto → String → String → String → String → String
compute_plan_approval_hmac c token approval_id payload_digest hmac_key =
    c.hmac_sha256 hmac_key (bar plan_approval_domain (bar token (bar approval_id payload_digest)))

abbrev pub plan_payload_top_keys : List String
plan_payload_top_keys =
    "approval_schema_version" ∷ "metadata" ∷ "artifact_uri_metadata" ∷ "generation_metadata"
    ∷ "approver" ∷ "issued_at" ∷ "expires_at" ∷ []

unfoldable pub put : String → PlanDoc → PlanDocs → PlanDocs
put id doc docs key = if key =ₛ id then some doc else docs key

unfoldable pub check_payload : Fields → Result (Unit {0})
check_payload payload = do
  require (equals plan_approval_schema_version (get payload "approval_schema_version"))
      "payload.approval_schema_version"
  require (same_texts (sorted_names (keys payload)) (sorted_names plan_payload_top_keys)) "payload"

-- `payload["metadata"][key]`, for a key that is there.
unfoldable pub metadata_item : Fields → String → Result Json
metadata_item payload key = go (get payload "metadata")
  where
    go : Json → Result Json
    go (obj md) = elim (find? md key) [ none ↦ raised (value_error key) | some j ↦ ok j ]
    go _ = raised type_error

-- `_parse_rfc3339_utc(payload["expires_at"])`: of what is no text, Python raises a TypeError.
unfoldable pub parse_item : Calendar → Json → Result ℕ
parse_item cal (str s) = parse_rfc3339_utc cal s
parse_item cal _ = raised type_error

-- The document that `create` writes.
unfoldable pub new_doc :
    Crypto → Fields → String → String → String → String → ℕ → ℕ → Json → Json → PlanDoc
new_doc c payload hmac_key created_by approval_id raw_token now expires pr head = record {
  status = "pending";
  token_hmac =
      compute_plan_approval_hmac c raw_token approval_id
        (digest_canonical c (canonicalize_payload c payload)) hmac_key;
  payload_canonical = canonicalize_payload c payload;
  payload_sha256 = digest_canonical c (canonicalize_payload c payload);
  expires_at = expires;
  created_at = now;
  created_by = created_by;
  pr_number = pr;
  head_sha = head;
  artifact_uri_metadata = get payload "artifact_uri_metadata";
  generation_metadata = get payload "generation_metadata";
  used_at = none;
  used_by = none;
  denied_at = none;
  denied_by = none;
  apply_audit = none;
}

-- `create`
unfoldable pub create :
    Crypto
    → Fields
    → String
    → String
    → String
    → String
    → ℕ
    → PlanDocs
    → Result (PlanDocs × (PlanApproval × String))
create c payload hmac_key created_by approval_id raw_token now docs = do
  check_payload payload
  expires ← parse_item c.calendar (get payload "expires_at")
  pr ← metadata_item payload "pr_number"
  head ← metadata_item payload "head_sha"
  ok (
    put approval_id
        (new_doc c payload hmac_key created_by approval_id raw_token now expires pr head) docs,
    (
      record {
        approval_id = approval_id;
        body = new_doc c payload hmac_key created_by approval_id raw_token now expires pr head;
      },
      raw_token,
    ),
  )

abbrev pub with_key : String → Option PlanDoc → Option PlanApproval
with_key id none = none
with_key id (some doc) = some (record { approval_id = id; body = doc })

-- `get`
unfoldable pub get_plan_approval : String → PlanDocs → Option PlanApproval
get_plan_approval id docs = with_key id (docs id)

-- The transaction of `_claim` on the document it reads.
unfoldable pub claim_read :
    Option PlanDoc → (PlanDoc → PlanDoc) → String → PlanDocs → PlanDocs × Option PlanApproval
claim_read none flip id docs = (docs, none)
claim_read (some doc) flip id docs =
    if not (doc.status =ₛ "pending")
    then (docs, none)
    else (put id (flip doc) docs, some (record { approval_id = id; body = flip doc }))

-- `_claim`, with the update as a function.
unfoldable pub claim : (PlanDoc → PlanDoc) → String → PlanDocs → PlanDocs × Option PlanApproval
claim flip id docs = claim_read (docs id) flip id docs

-- The update of `claim_pending`.
unfoldable pub mark_used : String → ℕ → Option Fields → PlanDoc → PlanDoc
mark_used used_by used_at apply_audit doc = record doc {
  status = "used";
  used_by = some used_by;
  used_at = some used_at;
  apply_audit = elim apply_audit [ none ↦ doc.apply_audit | some audit ↦ some audit ];
}

unfoldable pub claim_pending :
    String → String → ℕ → Option Fields → PlanDocs → PlanDocs × Option PlanApproval
claim_pending id used_by used_at apply_audit docs =
    claim (mark_used used_by used_at apply_audit) id docs

-- The update of `claim_denied`.
unfoldable pub mark_denied : String → ℕ → PlanDoc → PlanDoc
mark_denied denied_by denied_at doc = record doc {
  status = "denied";
  denied_by = some denied_by;
  denied_at = some denied_at;
}

unfoldable pub claim_denied : String → String → ℕ → PlanDocs → PlanDocs × Option PlanApproval
claim_denied id denied_by denied_at docs = claim (mark_denied denied_by denied_at) id docs

abbrev pub audit_found : Option PlanDoc → String → Fields → PlanDocs → Option PlanDocs
audit_found none id audit docs = none
audit_found (some doc) id audit docs = some (put id (record doc { apply_audit = some audit }) docs)

-- `set_apply_audit`: Firestore's `update` of a document that is not there fails, and writes nothing.
unfoldable pub set_apply_audit : String → Fields → PlanDocs → Option PlanDocs
set_apply_audit id audit docs = audit_found (docs id) id audit docs

-- `verify_plan_approval`
unfoldable pub verify_plan_approval : Crypto → String → PlanApproval → String → Bool
verify_plan_approval c presented_token stored hmac_key =
    compute_plan_approval_hmac c presented_token stored.approval_id
      (digest_canonical c stored.body.payload_canonical) hmac_key
    =ₛ stored.body.token_hmac

-- `signed_payload`: `none` where `json.loads` raises.
unfoldable pub signed_payload : Crypto → PlanApproval → Option Json
signed_payload c stored = c.loads stored.body.payload_canonical

abbrev pub expired_payload : Crypto → Option Json → ℕ → Result Bool
expired_payload c (some (obj sp)) now =
    parse_item c.calendar (get sp "expires_at") >>= λ expires. ok (ltb expires now)
expired_payload c _ now = raised type_error

-- `plan_approval_is_expired`
unfoldable pub plan_approval_is_expired : Crypto → PlanApproval → ℕ → Result Bool
plan_approval_is_expired c stored now = expired_payload c (signed_payload c stored) now

pub data Integrity : Type 0 where
  plan_mismatch plan_json_mismatch : Integrity

abbrev pub digest_text : (String → Bool) → Json → Bool
digest_text p (str s) = p s
digest_text p _ = false

-- `verify_artifact_integrity`: the `ArtifactIntegrityError` that it raises, if any.
unfoldable pub verify_artifact_integrity :
    Crypto → String → String → Json → Json → Result (Option Integrity)
verify_artifact_integrity c plan_tfplan plan_json expected_plan expected_json = do
  require (digest_text (is_hex_of 64) expected_plan) "expected_plan_sha256"
  require (digest_text (is_hex_of 64) expected_json) "expected_plan_json_sha256"
  ok (
      if not (c.sha256 plan_tfplan =ₛ text_of expected_plan)
      then some plan_mismatch
      else if not (c.sha256 plan_json =ₛ text_of expected_json)
      then some plan_json_mismatch
      else none)
