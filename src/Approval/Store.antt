-- ===== src/Approval/Store.antt =====
-- driftscribe_lib/approvals.py, `ApprovalStore`. Firestore runs each transaction as one step, so an
-- operation is a function on the documents. `hmac_sha256 key message` stands for Python's `hmac`;
-- a fresh id, a fresh token and the time are arguments.
use Prim.Native.String
use driftscribe.Base.{
  ℕ, ◌+◌, ◌*◌, String, Bool, true, false, not, ◌||◌, Option, none, some, Result, ok, require, ◌>>◌,
  if◌then◌else◌,
}
use driftscribe.Base.Text.{◌=ₛ◌, contains, is_some}
use driftscribe.Base.Json.{Fields}
use driftscribe.Approval.Doc.{
  Audit, Doc, Approval, is_settled, kept_detail, phase_claimed, phase_applied, rollback_phases,
}

-- The collection `approvals`: the document under each key.
abbrev pub Docs : Type 0
Docs = String → Option Doc

-- `ref.set(doc)`
unfoldable pub put : String → Doc → Docs → Docs
put id doc docs key = if key =ₛ id then some doc else docs key

-- `compute_token_hmac`
unfoldable pub compute_token_hmac :
    (String → String → String) → String → String → String → String → String
compute_token_hmac hmac_sha256 token approval_id target_revision hmac_key = hmac_sha256 hmac_key (
    String.◌++◌ token (String.◌++◌ "|" (String.◌++◌ approval_id (String.◌++◌ "|" target_revision))))

-- What a caller of `create` passes, the key of the hash included.
pub record Proposal : Type 0 where
  pub target_revision : String
  pub reason : String
  pub hmac_key : String
  pub created_by : String
  pub ttl_minutes : ℕ
  pub env_snapshot : Option Fields

-- The document that `create` writes.
unfoldable pub new_doc : (String → String → String) → Proposal → String → String → ℕ → Doc
new_doc hmac_sha256 p approval_id raw_token now = record {
  target_revision = p.target_revision;
  reason = p.reason;
  token_hmac = compute_token_hmac hmac_sha256 raw_token approval_id p.target_revision p.hmac_key;
  expires_at = now + p.ttl_minutes * 60000000;
  created_at = now;
  created_by = p.created_by;
  status = "pending";
  resolved_at = none;
  apply_audit = none;
  env_snapshot = p.env_snapshot;
}

unfoldable pub create :
    (String → String → String) → Proposal → String → String → ℕ → Docs → Docs × (Approval × String)
create hmac_sha256 p approval_id raw_token now docs =
    let doc = new_doc hmac_sha256 p approval_id raw_token now in
    (put approval_id doc docs, (record { approval_id = approval_id; body = doc }, raw_token))

abbrev pub with_key : String → Option Doc → Option Approval
with_key id none = none
with_key id (some doc) = some (record { approval_id = id; body = doc })

-- `get`
unfoldable pub get_approval : String → Docs → Option Approval
get_approval id docs = with_key id (docs id)

-- The update of `_claim`: the new status, `extra` over it, and the time if `stamp_resolved`.
unfoldable pub flip : String → Bool → Option Audit → ℕ → Doc → Doc
flip new_status stamp_resolved extra now doc = record doc {
  status = new_status;
  apply_audit = elim extra [ none ↦ doc.apply_audit | some audit ↦ some audit ];
  resolved_at = if stamp_resolved then some now else doc.resolved_at;
}

-- The transaction of `_claim`, on the document it reads.
unfoldable pub claim_read :
    Option Doc → String → Bool → Option Audit → String → ℕ → Docs → Docs × Option Approval
claim_read none new_status stamp_resolved extra id now docs = (docs, none)
claim_read (some doc) new_status stamp_resolved extra id now docs =
    let flipped = flip new_status stamp_resolved extra now doc in
    if not (doc.status =ₛ "pending")
    then (docs, none)
    else (put id flipped docs, some (record { approval_id = id; body = flipped }))

-- `_claim`
unfoldable pub claim : String → Bool → Option Audit → String → ℕ → Docs → Docs × Option Approval
claim new_status stamp_resolved extra id now docs =
    claim_read (docs id) new_status stamp_resolved extra id now docs

-- The audit that a claim writes.
abbrev pub burned : ℕ → Option Audit
burned now = some (record { phase = phase_claimed; phase_at = now; detail = none })

unfoldable pub claim_pending : String → ℕ → Docs → Docs × Option Approval
claim_pending id now docs = claim "used" false (burned now) id now docs

unfoldable pub claim_denied : String → ℕ → Docs → Docs × Option Approval
claim_denied id now docs = claim "denied" true none id now docs

-- The transaction of `record_phase` on the document it finds.
unfoldable pub settle : String → Option Fields → Option ℕ → ℕ → Doc → Doc
settle phase detail resolved_at now doc =
    let audit : Audit = record { phase = phase; phase_at = now; detail = kept_detail detail } in
    if is_settled doc.apply_audit then doc else record doc {
      apply_audit = some audit;
      resolved_at = elim resolved_at [ none ↦ doc.resolved_at | some at ↦ some at ];
    }

-- A transaction that rewrites the document it reads, if there is one.
unfoldable pub update : Option Doc → (Doc → Doc) → String → Docs → Docs
update none f id docs = docs
update (some doc) f id docs = put id (f doc) docs

-- The two guards of `record_phase`.
unfoldable pub check_phase : String → Option ℕ → Result (Unit {0})
check_phase phase resolved_at = do
  require (contains rollback_phases phase) "unknown rollback phase"
  require (not (is_some resolved_at) || phase =ₛ phase_applied)
      "resolved_at is only valid with phase applied"

unfoldable pub record_phase : String → String → Option Fields → Option ℕ → ℕ → Docs → Result Docs
record_phase id phase detail resolved_at now docs = do
  check_phase phase resolved_at
  ok (update (docs id) (settle phase detail resolved_at now) id docs)
