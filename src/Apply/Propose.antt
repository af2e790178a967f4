-- ===== src/Apply/Propose.antt =====
-- workers/tofu_apply/main.py: `/propose`. The id, the token and the text of a time are given.
pub mod Accepted
pub mod Minted
use driftscribe.Base.{
  ℕ, String, Bool, true, false, Option, none, some, Result, ok, raised, if◌then◌else◌,
}
use driftscribe.Base.Json.{Json, str, obj, Fields}
use driftscribe.Rollback.Http.{Reply, answered, http, crashed}
use driftscribe.Plan.Classify.{plan_has_create}
use driftscribe.Signed.Payload.{Binding, build_plan_approval_payload}
use driftscribe.Signed.Window.{new_approval_window}
use driftscribe.Signed.Store.{PlanApproval, PlanDocs, create}
use driftscribe.Apply.Fetch.{fetch_artifact}
use driftscribe.Apply.Gates.{
  Refused, integrity_refused, tree_mismatch_refused, fidelity_refused, probe_failed, verify_refused,
  Gate, pass, refuse, crash, ◌>>=◌, ◌>>◌, Site, or_refuse, dict_or_refuse,
  fetch_and_verify_artifacts, denylist_or_raise, tree_gate, verify_iac_tree_or_raise,
  fidelity_or_raise,
}
use driftscribe.Apply.Worker.{Worker, verify_operator, reading, ending}

pub record ProposeRequest : Type 0 where
  pub artifact_uri_metadata : String
  pub generation_metadata : String
  pub approver : String
  pub operator_jwt : Option String
  pub generation_iac_tree : Option String

-- The checks on the fetched artifacts: the metadata that passed them.
unfoldable pub examined : Site → ProposeRequest → Gate Fields
examined w req = do
  meta_bytes ← or_refuse integrity_refused (
      fetch_artifact w.bucket (str req.artifact_uri_metadata) (str req.generation_metadata)
        "metadata.json")
  loaded ← or_refuse verify_refused (w.loads_bytes meta_bytes)
  md ← dict_or_refuse verify_refused loaded
  (plan, plan_bytes) ← fetch_and_verify_artifacts w md
  denylist_or_raise plan
  tree_gate (plan_has_create (obj plan))
      (verify_iac_tree_or_raise w md (str req.artifact_uri_metadata) req.generation_iac_tree)
  fidelity_or_raise w md plan (plan_has_create (obj plan))
  pass md

abbrev pub binding_for : ProposeRequest → String → String → Binding
binding_for req issued_at expires_at = record {
  artifact_uri_metadata = req.artifact_uri_metadata;
  generation_metadata = req.generation_metadata;
  approver = req.approver;
  issued_at = issued_at;
  expires_at = expires_at;
}

-- The code of a refusal.
abbrev pub propose_code : Refused → ℕ
propose_code probe_failed = 502
propose_code _ = 422

-- The payload to be signed, or the reply in its place.
abbrev pub signable : Result Fields → Reply Fields
signable (ok payload) = answered payload
signable (raised e) = http 422

abbrev pub bound : Worker → ProposeRequest → Fields → Result (String × String) → Reply Fields
bound w req md (raised e) = crashed
bound w req md (ok (issued_at, expires_at)) = signable (
    build_plan_approval_payload w.site.crypto.calendar (obj md)
      (binding_for req issued_at expires_at))

unfoldable pub payload_for : Worker → (ℕ → String) → ProposeRequest → Gate Fields → Reply Fields
payload_for w iso req (pass md) = bound w req md (new_approval_window iso true (w.clock reading) 15)
payload_for w iso req (refuse r) = http (propose_code r)
payload_for w iso req crash = crashed

abbrev pub minted :
    PlanDocs
    → Result (PlanDocs × (PlanApproval × String))
    → PlanDocs × Reply (PlanApproval × String)
minted docs (ok (docs', given)) = (docs', answered given)
minted docs (raised e) = (docs, crashed)

abbrev pub sign :
    Worker
    → String
    → String
    → String
    → PlanDocs
    → Reply Fields
    → PlanDocs × Reply (PlanApproval × String)
sign w caller id token docs (answered payload) =
    minted docs (create w.site.crypto payload w.hmac_key caller id token (w.clock ending) docs)
sign w caller id token docs (http code) = (docs, http code)
sign w caller id token docs crashed = (docs, crashed)

abbrev pub verified :
    Worker
    → (ℕ → String)
    → ProposeRequest
    → String
    → String
    → String
    → PlanDocs
    → Reply (Option String)
    → PlanDocs × Reply (PlanApproval × String)
verified w iso req caller id token docs (answered email) =
    sign w caller id token (w.others ending docs) (payload_for w iso req (examined w.site req))
verified w iso req caller id token docs (http code) = (docs, http code)
verified w iso req caller id token docs crashed = (docs, crashed)

-- `/propose`: the approval and its token.
unfoldable pub propose :
    Worker
    → (ℕ → String)
    → ProposeRequest
    → String
    → String
    → String
    → PlanDocs
    → PlanDocs × Reply (PlanApproval × String)
propose w iso req caller id token docs =
    verified w iso req caller id token docs
      (verify_operator w req.operator_jwt (str req.approver) caller)
