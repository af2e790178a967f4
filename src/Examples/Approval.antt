-- ===== src/Examples/Approval.antt =====
-- One approval, proposed and executed, with a concatenation for the hash.
use Prim.Native.String
use driftscribe.Base.{◌↔◌, String, none, some, [], ◌∷◌, ◌≡◌, refl, inl, arith}
use driftscribe.Base.Text.{contains}
use driftscribe.Approval.Doc.{Doc}
use driftscribe.Approval.Store.{
  Docs, claim_pending, claim, claim_read, put, compute_token_hmac, get_approval, record_phase,
  check_phase,
}
use driftscribe.Approval.History.{here}
use driftscribe.Approval.Honest.{HonestAt, undecided, rejected}
use driftscribe.Approval.Once.{Refuses, decided_once}
use driftscribe.Rollback.Deny.{deny}
use driftscribe.Rollback.Reconcile.{reconcile, unchanged}
use driftscribe.Rollback.Denied.{deny_iff, reconcile-unchanged}
use driftscribe.Rollback.Http.{answered, Worker, ExecuteRequest, note}
use driftscribe.Rollback.CloudRun.{
  failed, CloudRun, gave, timed_out, any_tagged, start_traffic_update,
}
use driftscribe.Rollback.Execute.{authorize, execute, proceed, redeem, launch, watch}
use driftscribe.Rollback.Sent.{Authorized, execute-Authorized}
use driftscribe.Rollback.Outcome.{Outcome}
use driftscribe.Rollback.Settles.{Opens, execute-Outcome}
use driftscribe.Rollback.Propose.{ServiceState, propose}
use driftscribe.Rollback.Service.{
  Serves, idle, next, proposed, executed, serves-Honest, serves-Final,
}

abbrev joined : String → String → String
joined key message = String.◌++◌ key message

abbrev worker : Worker
worker = record {
  hmac_sha256 = joined;
  approval_hmac_key = "key";
  clock = λ m. 7;
  others = λ m docs. docs;
}

abbrev doc : Doc
doc = record {
  target_revision = "rev-1";
  reason = "drift";
  token_hmac = "keytoken|id-1|rev-1";
  expires_at = 9;
  created_at = 1;
  created_by = "coordinator";
  status = "pending";
  resolved_at = none;
  apply_audit = none;
  env_snapshot = none;
}

abbrev nothing : Docs
nothing key = none

unfoldable pending_docs : Docs
unfolding put
pending_docs = put "id-1" doc nothing

abbrev run : CloudRun
run = record {
  preflight = gave ("" ∷ []);
  service = gave ("" ∷ []);
  update_service = gave "operations/1";
  poll = timed_out;
}

abbrev request : ExecuteRequest
request = record { approval_id = "id-1"; approval_token = "token" }

decided_once_example : Refuses "id-1" (claim_pending "id-1" 7 pending_docs).0
unfolding claim_pending claim claim_read pending_docs put
decided_once_example =
    decided_once "id-1" 7 pending_docs (claim_pending "id-1" 7 pending_docs).0
      (inl ((λ e. cc), here))

execute-Authorized_example :
    (d : Doc) × Authorized worker request pending_docs
      (execute worker run request pending_docs).sent
      d
unfolding execute pending_docs put get_approval authorize compute_token_hmac proceed redeem launch
    watch note claim_pending claim claim_read start_traffic_update any_tagged record_phase
    check_phase contains
execute-Authorized_example = execute-Authorized worker run request pending_docs (λ e. cc)

execute-Outcome_example :
    Outcome (execute worker run request pending_docs).docs "id-1" "outcome_unknown" none
unfolding pending_docs put compute_token_hmac any_tagged
execute-Outcome_example =
    execute-Outcome worker run request pending_docs doc ("" ∷ []) (λ m d. refl) refl
      (undecided refl refl refl) (record { pending = refl; fresh = omega arith; token = refl }) refl
      refl

abbrev service : ServiceState
service = record {
  traffic_statuses = (100, "rev-2") ∷ [];
  latest_ready_revision = "services/rev-2";
  revisions = "services/rev-1" ∷ "services/rev-2" ∷ [];
}

abbrev served :
    Serves nothing
      (propose worker
        (gave service)
        (record { target_revision = "rev-1"; reason = "drift" })
        "coordinator"
        none
        "id-1"
        "token"
        nothing).docs
served = next idle (
    proposed worker (gave service) (record { target_revision = "rev-1"; reason = "drift" })
      "coordinator" none "id-1" "token" nothing (λ m d. here) refl)

abbrev proposed_docs : Docs
proposed_docs =
    (propose worker (gave service) (record { target_revision = "rev-1"; reason = "drift" })
      "coordinator" none "id-1" "token" nothing).docs

serves-Honest_example : HonestAt (proposed_docs "id-1")
serves-Honest_example = serves-Honest (λ id. tt) served "id-1"

abbrev denied_doc : Doc
denied_doc = record doc { status = "denied"; resolved_at = some 5 }

abbrev denied_docs : Docs
denied_docs key = some denied_doc

serves-Final_example : (execute worker run request denied_docs).docs "id-1" ≡ some denied_doc
serves-Final_example =
    serves-Final (λ id. rejected 5 refl refl refl)
      (next idle (executed worker run request denied_docs (λ m d. here))) "id-1" (inl refl)

deny_iff_example :
    ((deny worker request pending_docs).reply ≡ answered "id-1")
    ↔ ((d : Doc) × (pending_docs "id-1" ≡ some d) × Opens worker request d)
deny_iff_example = deny_iff worker request pending_docs (λ m d. refl)

reconcile-unchanged_example :
    reconcile worker (λ name. failed "NotFound") "id-1" denied_docs
    ≡ unchanged "id-1" none denied_docs
reconcile-unchanged_example =
    reconcile-unchanged worker (λ name. failed "NotFound") "id-1" denied_docs denied_doc refl
      (rejected 5 refl refl refl) (inl (λ e. cc))
