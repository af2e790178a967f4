-- ===== src/Rollback/Propose.antt =====
-- workers/rollback/main.py: `/propose`.
use Prim.Native.Char.{code}
use driftscribe.Base.{ℕ, String, not, List, [], ◌∷◌, Option, ◌==◌, if◌then◌else◌, map}
use driftscribe.Base.Text.{◌=ₛ◌, contains}
use driftscribe.Base.Json.{Fields}
use driftscribe.Approval.Store.{Docs, create}
use driftscribe.Rollback.Http.{answered, http, crashed, claiming, Worker, Ran}
use driftscribe.Rollback.Execute.{stopped}
use driftscribe.Rollback.CloudRun.{Answer, gave, failed}

-- `s.rsplit("/", 1)[-1]`
unfoldable pub basename : String → String → String
basename String.[] tail = tail
basename (String.◌∷◌ c s) tail = if code c == b'/' then basename s s else basename s tail

-- What Cloud Run tells of the service: the percentage and revision of each traffic status, the
-- name of the latest ready revision, and the names of the revisions.
pub record ServiceState : Type 0 where
  pub traffic_statuses : List (ℕ × String)
  pub latest_ready_revision : String
  pub revisions : List String

-- `_list_revisions`, the loop that finds the active revision.
unfoldable pub active_of : List (ℕ × String) → String → String
active_of [] latest = ""
active_of ((percent, revision) ∷ rest) latest =
    let later = active_of rest latest in
    if not (percent == 100)
    then later
    else if revision =ₛ ""
    then basename latest latest
    else revision

-- `_list_revisions`
unfoldable pub list_revisions : ServiceState → List String × String
list_revisions s = (
  map (λ name. basename name name) s.revisions,
  active_of s.traffic_statuses s.latest_ready_revision,
)

pub record ProposeRequest : Type 0 where
  pub target_revision : String
  pub reason : String

pub record Proposed : Type 0 where
  pub approval_id : String
  pub approval_token : String

-- `/propose`. The fresh id and token, the caller and the snapshot of the environment are given.
unfoldable pub propose :
    Worker
    → Answer ServiceState
    → ProposeRequest
    → String
    → Option Fields
    → String
    → String
    → Docs
    → Ran Proposed
propose w (failed error) req caller env_snapshot id token docs = stopped docs crashed
propose w (gave s) req caller env_snapshot id token docs =
    let (revisions, active) = list_revisions s in
    let made =
      create w.hmac_sha256
        (record {
          target_revision = req.target_revision;
          reason = req.reason;
          hmac_key = w.approval_hmac_key;
          created_by = caller;
          ttl_minutes = 15;
          env_snapshot = env_snapshot;
        })
        id token (w.clock claiming) (w.others claiming docs) in
    if req.target_revision =ₛ active
    then stopped docs (http 400)
    else if not (contains revisions req.target_revision)
    then stopped docs (http 404)
    else stopped made.0 (answered (record { approval_id = id; approval_token = token }))
