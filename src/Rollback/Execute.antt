-- ===== src/Rollback/Execute.antt =====
-- workers/rollback/main.py: `/execute`.
use driftscribe.Base.{
  ℕ, String, not, List, [], Option, none, some, ltb, if◌then◌else◌, ◌==◌, Result, ok, raised,
}
use driftscribe.Base.Text.{◌=ₛ◌}
use driftscribe.Base.Json.{Json, Fields, end, field}
use driftscribe.Approval.Doc.{
  Approval, phase_applying, phase_applied, phase_failed, phase_outcome_unknown,
}
use driftscribe.Approval.Store.{Docs, compute_token_hmac, get_approval, claim_pending, record_phase}
use driftscribe.Rollback.Http.{
  Reply, answered, http, crashed, reading, claiming, starting, resolving, Worker, Ran,
  ExecuteRequest, note,
}
use driftscribe.Rollback.CloudRun.{
  Answer, gave, failed, Poll, succeeded, timed_out, broke, CloudRun, any_tagged, Started, operation,
  refused, lost, start_traffic_update, is_established_failure,
}

pub record Executed : Type 0 where
  pub approval_id : String
  pub target_revision : String
  pub operation_name : String

abbrev pub stopped : {A : Type 0} → Docs → Reply A → Ran A
stopped docs reply = record { docs = docs; sent = []; reply = reply }

-- The checks on the approval that was read: the code of the refusal, or the approval.
unfoldable pub authorize : Worker → ExecuteRequest → Option Approval → Option ℕ
authorize w req none = some 404
authorize w req (some approval) =
    let expected_hmac =
      compute_token_hmac w.hmac_sha256 req.approval_token approval.approval_id
        approval.body.target_revision w.approval_hmac_key in
    if not (approval.body.status =ₛ "pending")
    then some 403
    else if ltb approval.body.expires_at (w.clock reading)
    then some 403
    else if not (expected_hmac =ₛ approval.body.token_hmac)
    then some 403
    else none

abbrev pub named : String → String → Fields → Fields
named key value rest = field key (Json.str value) rest

-- From the operation's result on.
unfoldable pub watch : Poll → Worker → String → String → String → Docs → List String → Ran Executed
watch succeeded w id revision name docs sent =
    note w resolving id phase_applied (named "operation_name" name end) (some (w.clock resolving))
      docs sent
      (answered (record { approval_id = id; target_revision = revision; operation_name = name }))
watch timed_out w id revision name docs sent =
    note w resolving id phase_outcome_unknown
      (named "stage" "poll" (named "reason" "timeout" (named "operation_name" name end))) none docs
      sent (http 504)
watch (broke error done code) w id revision name docs sent =
    note w resolving id
      (if is_established_failure done code then phase_failed else phase_outcome_unknown)
      (named "stage" "poll" (named "error" error (named "operation_name" name end))) none docs sent
      (http 502)

abbrev pub watch_applying :
    Result Docs → Poll → Worker → String → String → String → Docs → List String → Ran Executed
watch_applying (ok written) poll w id revision name docs sent =
    watch poll w id revision name written sent
watch_applying (raised _) poll w id revision name docs sent = record {
  docs = docs;
  sent = sent;
  reply = crashed;
}

-- From the traffic update on.
unfoldable pub launch :
    Started → Poll → Worker → String → String → Docs → List String → Ran Executed
launch (refused code digits) poll w id revision docs sent =
    if code == 409
    then note w starting id phase_failed
        (named "stage" "preflight" (named "reason" "tagged_traffic_target" end)) none docs sent
        (http code)
    else note w starting id phase_outcome_unknown
        (named "stage" "preflight" (field "status_code" (Json.num digits) end)) none docs sent
        (http code)
launch (lost error) poll w id revision docs sent =
    note w starting id phase_outcome_unknown (named "stage" "start" (named "error" error end)) none
      docs sent (http 502)
launch (operation name) poll w id revision docs sent =
    let now = w.others starting docs in
    watch_applying
      (record_phase id phase_applying (some (named "operation_name" name end)) none
        (w.clock starting) now)
      poll w id revision name now sent

-- From the claim's result on.
unfoldable pub redeem : Docs × Option Approval → CloudRun → Worker → String → String → Ran Executed
redeem (docs, none) run w id revision = stopped docs (http 403)
redeem (docs, some _) run w id revision =
    let (sent, started) = start_traffic_update run.service run.update_service revision in
    launch started run.poll w id revision docs sent

-- From the preflight on.
unfoldable pub proceed :
    Answer (List String) → CloudRun → Worker → String → Approval → Docs → Ran Executed
proceed (failed error) run w id approval docs = stopped docs crashed
proceed (gave tags) run w id approval docs =
    if any_tagged tags
    then stopped docs (http 409)
    else redeem (claim_pending id (w.clock claiming) (w.others claiming docs)) run w id
        approval.body.target_revision

abbrev pub admitted : Option ℕ → Option Approval → CloudRun → Worker → String → Docs → Ran Executed
admitted (some code) approval run w id docs = stopped docs (http code)
admitted none none run w id docs = stopped docs (http 404)
admitted none (some approval) run w id docs = proceed run.preflight run w id approval docs

-- `/execute`
unfoldable pub execute : Worker → CloudRun → ExecuteRequest → Docs → Ran Executed
execute w run req docs =
    let approval = get_approval req.approval_id docs in
    admitted (authorize w req approval) approval run w req.approval_id docs
