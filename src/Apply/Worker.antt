-- ===== src/Apply/Worker.antt =====
-- workers/tofu_apply/main.py: `/apply` and `/deny` with `_verify_operator` and `_fail`. Between two
-- store calls of a handler other requests may run; `others` is what they do to the documents, and
-- `clock` the time at each moment. An audit keeps the phase and the identities.
pub mod Sent
pub mod Ends
use driftscribe.Base.{
  ℕ, String, Bool, true, false, not, ◌&&◌, Option, none, some, List, [], ◌∷◌, Result, ok, raised,
  if◌then◌else◌,
}
use driftscribe.Base.Text.{◌=ₛ◌}
use driftscribe.Base.Json.{Json, null, str, obj, Fields, end, field}
use driftscribe.Base.Value.{find?}
use driftscribe.Rollback.Http.{Reply, answered, http, crashed}
use driftscribe.Signed.Store.{
  PlanApproval, PlanDocs, get_plan_approval, claim_pending, claim_denied, set_apply_audit,
  verify_plan_approval, signed_payload, plan_approval_is_expired,
}
use driftscribe.Apply.Guard.{is_text}
use driftscribe.Apply.Sequence.{
  Command, World, Run, went, failed, Failure, freshness_drift, escaped, lock_refused, step_error,
  state_suspect, ApplyOutcome, run_apply_sequence,
}
use driftscribe.Apply.Gates.{
  Refused, integrity_refused, tree_mismatch_refused, fidelity_refused, probe_failed, verify_refused,
  Gate, pass, refuse, crash, Site, gates,
}

pub data Moment : Type 0 where
  reading claiming ending : Moment

-- What the worker has from outside. `verified_email` is `none` where the verification of the token, or
-- the reading of its email, raises; OpenTofu runs on the bytes of the saved plan.
pub record Worker : Type 0 where
  pub site : Site
  pub world : String → World
  pub hmac_key : String
  pub e2e : Bool
  pub verified_email : String → Option String
  pub attempt_id : String
  pub clock : Moment → ℕ
  pub others : Moment → PlanDocs → PlanDocs

pub record ApplyRequest : Type 0 where
  pub approval_id : String
  pub approval_token : String
  pub operator_jwt : Option String
  pub generation_iac_tree : Option String

-- The documents afterwards, OpenTofu's commands, newest first, and the reply.
pub record Ran : Type 0 where
  pub docs : PlanDocs
  pub commands : List Command
  pub reply : Reply String

infixl 5 ◌>>=◌
abbrev pub ◌>>=◌ : {A B : Type 0} → Reply A → (A → Reply B) → Reply B
answered x >>= next = next x
http code >>= next = http code
crashed >>= next = crashed

abbrev pub bound_email : Json → Option String → Reply (Option String)
bound_email approver none = http 403
bound_email approver (some email) =
    if not (is_text approver email) then http 403 else answered (some email)

-- `_verify_operator`
unfoldable pub verify_operator : Worker → Option String → Json → String → Reply (Option String)
verify_operator w none approver caller =
    if not w.e2e
    then http 403
    else if not (is_text approver caller)
    then http 403
    else answered none
verify_operator w (some jwt) approver caller =
    if jwt =ₛ "" then http 403 else bound_email approver (w.verified_email jwt)

abbrev pub stored_or_404 : Option PlanApproval → Reply PlanApproval
stored_or_404 none = http 404
stored_or_404 (some a) = answered a

-- The checks of the status and of the token, which `/deny` makes too.
unfoldable pub opened : Worker → String → PlanApproval → Reply PlanApproval
opened w token stored =
    if not (stored.body.status =ₛ "pending")
    then http 403
    else if not (verify_plan_approval w.site.crypto token stored w.hmac_key)
    then http 403
    else answered stored

abbrev pub dict_or_crash : Option Json → Reply Fields
dict_or_crash (some (obj d)) = answered d
dict_or_crash _ = crashed

-- `d[key]`: a `KeyError` is not caught here.
abbrev pub item_or_crash : Option Json → Reply Json
item_or_crash none = crashed
item_or_crash (some j) = answered j

abbrev pub unexpired : {A : Type 0} → A → Result Bool → Reply A
unexpired x (raised e) = crashed
unexpired x (ok true) = http 403
unexpired x (ok false) = answered x

-- What the checks before the claim establish.
pub record Claim : Type 0 where
  pub stored : PlanApproval
  pub payload : Fields
  pub operator_email : Option String

-- The checks of `/apply` before the claim, on what the store holds under the id.
unfoldable pub authorize : Worker → ApplyRequest → String → Option PlanApproval → Reply Claim
authorize w req caller found = do
  read ← stored_or_404 found
  stored ← opened w req.approval_token read
  sp ← dict_or_crash (signed_payload w.site.crypto stored)
  current ← unexpired sp (plan_approval_is_expired w.site.crypto stored (w.clock reading))
  approver ← item_or_crash (find? current "approver")
  email ← verify_operator w req.operator_jwt approver caller
  answered (record { stored = stored; payload = current; operator_email = email })

abbrev pub json_of : Option String → Json
json_of none = null
json_of (some s) = str s

abbrev pub audit_of : Worker → String → String → Option String → Fields
audit_of w phase caller email = field "phase" (str phase) (
    field "apply_attempt_id" (str w.attempt_id)
      (field "caller_sa" (str caller) (field "operator_email" (json_of email) end)))

abbrev pub kept_or : PlanDocs → Option PlanDocs → PlanDocs
kept_or docs none = docs
kept_or docs (some docs') = docs'

-- `_fail`: an audit that cannot be written is passed over.
unfoldable pub fail : Worker → String → Fields → ℕ → PlanDocs → List Command → Ran
fail w id audit code docs commands =
    let now = w.others ending docs in
    record {
      docs = kept_or now (set_apply_audit id audit now);
      commands = commands;
      reply = http code;
    }

abbrev pub refused_phase : Refused → String
refused_phase integrity_refused = "integrity_refused"
refused_phase tree_mismatch_refused = "tree_mismatch_refused"
refused_phase fidelity_refused = "fidelity_refused"
refused_phase probe_failed = "failed"
refused_phase verify_refused = "verify_refused"

abbrev pub refused_code : Refused → ℕ
refused_code tree_mismatch_refused = 409
refused_code probe_failed = 502
refused_code _ = 422

-- The last store call, after an apply that succeeded: its failure is not caught.
abbrev pub recorded : PlanDocs → List Command → Option PlanDocs → Ran
recorded docs commands none = record { docs = docs; commands = commands; reply = crashed }
recorded docs commands (some docs') = record {
  docs = docs';
  commands = commands;
  reply = answered "applied";
}

-- What `/apply` makes of the end of the sequence.
unfoldable pub conclude :
    Worker → String → String → Option String → PlanDocs → List Command × Run ApplyOutcome → Ran
conclude w id caller email docs (commands, went outcome) =
    recorded (w.others ending docs) commands
      (set_apply_audit id (audit_of w "applied" caller email) (w.others ending docs))
conclude w id caller email docs (commands, failed freshness_drift) =
    fail w id (audit_of w "drift_refused" caller email) 409 docs commands
conclude w id caller email docs (commands, failed (lock_refused step rc err)) =
    fail w id (audit_of w "lock_refused" caller email) 423 docs commands
conclude w id caller email docs (commands, failed (state_suspect rc err diag)) =
    fail w id (audit_of w "failed_state_suspect" caller email) 502 docs commands
conclude w id caller email docs (commands, failed (step_error step rc err)) =
    fail w id (audit_of w "failed" caller email) 502 docs commands
conclude w id caller email docs (commands, failed escaped) = record {
  docs = docs;
  commands = commands;
  reply = crashed;
}

abbrev pub stopped : PlanDocs → Reply String → Ran
stopped docs reply = record { docs = docs; commands = []; reply = reply }

-- After the gates.
unfoldable pub after_gates :
    Worker → String → String → Option String → PlanDocs → Gate (String × Bool) → Ran
after_gates w id caller email docs (pass (plan_bytes, created)) =
    conclude w id caller email docs (run_apply_sequence (w.world plan_bytes) [])
after_gates w id caller email docs (refuse r) =
    fail w id (audit_of w (refused_phase r) caller email) (refused_code r) docs []
after_gates w id caller email docs crash = stopped docs crashed

-- After a claim that won, with the signed metadata.
unfoldable pub burned : Worker → ApplyRequest → String → Claim → PlanDocs → Option Json → Ran
burned w req caller c docs none = stopped docs crashed
burned w req caller c docs (some md) =
    after_gates w req.approval_id caller c.operator_email docs
      (gates w.site c.payload md c.stored.body.payload_canonical req.generation_iac_tree)

abbrev pub after_claim :
    Worker → ApplyRequest → String → Claim → PlanDocs × Option PlanApproval → Ran
after_claim w req caller c (docs, none) = stopped docs (http 403)
after_claim w req caller c (docs, some _) = burned w req caller c docs (find? c.payload "metadata")

-- The claim of `/apply`.
unfoldable pub claim_for :
    Worker → ApplyRequest → String → Option String → PlanDocs → PlanDocs × Option PlanApproval
claim_for w req caller email docs =
    claim_pending req.approval_id caller (w.clock claiming)
      (some (audit_of w "claimed" caller email)) (w.others claiming docs)

abbrev pub proceed : Worker → ApplyRequest → String → PlanDocs → Reply Claim → Ran
proceed w req caller docs (answered c) =
    after_claim w req caller c (claim_for w req caller c.operator_email docs)
proceed w req caller docs (http code) = stopped docs (http code)
proceed w req caller docs crashed = stopped docs crashed

-- `/apply`
unfoldable pub apply : Worker → ApplyRequest → String → PlanDocs → Ran
apply w req caller docs =
    let now = w.others reading docs in
    proceed w req caller now (authorize w req caller (get_plan_approval req.approval_id now))

abbrev pub denial : PlanDocs × Option PlanApproval → PlanDocs × Reply String
denial (docs, none) = (docs, http 403)
denial (docs, some _) = (docs, answered "denied")

abbrev pub deny_opened :
    Worker → String → String → PlanDocs → Reply PlanApproval → PlanDocs × Reply String
deny_opened w id caller docs (answered stored) =
    denial (claim_denied id caller (w.clock claiming) (w.others claiming docs))
deny_opened w id caller docs (http code) = (docs, http code)
deny_opened w id caller docs crashed = (docs, crashed)

-- `/deny`
unfoldable pub deny : Worker → String → String → String → PlanDocs → PlanDocs × Reply String
deny w id token caller docs =
    let now = w.others reading docs in
    deny_opened w id caller now (stored_or_404 (get_plan_approval id now) >>= opened w token)
