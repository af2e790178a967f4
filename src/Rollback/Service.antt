-- ===== src/Rollback/Service.antt =====
-- workers/rollback/main.py: the worker's life, one request after another, each with other requests
-- in between.
use driftscribe.Base.{String, Option, none, ◌≡◌}
use driftscribe.Base.Json.{Fields}
use driftscribe.Approval.Store.{Docs}
use driftscribe.Approval.History.{Reach, here}
use driftscribe.Approval.Honest.{HonestAt, Reach-Honest}
use driftscribe.Approval.Once.{FinalAt, Reach-Final}
use driftscribe.Rollback.Http.{claiming, Worker, ExecuteRequest}
use driftscribe.Rollback.CloudRun.{Answer, CloudRun}
use driftscribe.Rollback.Execute.{execute}
use driftscribe.Rollback.Deny.{deny}
use driftscribe.Rollback.Reconcile.{Operation, reconcile}
use driftscribe.Rollback.Propose.{ServiceState, ProposeRequest, propose}
use driftscribe.Rollback.Steps.{Polite, Reach-trans}
use driftscribe.Rollback.Handlers.{execute-Reach, deny-Reach, reconcile-Reach, propose-Reach}

-- One request. What the others do in between are transactions of the store, and the id that
-- `/propose` draws is new.
pub data Request : Docs → Docs → Type 0 where
  proposed :
      (w : Worker) (s : Answer ServiceState) (req : ProposeRequest) (caller : String)
      (env : Option Fields) (id token : String) (docs : Docs)
      → Polite w
      → w.others claiming docs id ≡ none
      → Request docs (propose w s req caller env id token docs).docs
  executed :
      (w : Worker) (run : CloudRun) (req : ExecuteRequest) (docs : Docs)
      → Polite w
      → Request docs (execute w run req docs).docs
  declined :
      (w : Worker) (req : ExecuteRequest) (docs : Docs)
      → Polite w
      → Request docs (deny w req docs).docs
  reconciled :
      (w : Worker) (operations : String → Answer Operation) (id : String) (docs : Docs)
      → Polite w
      → Request docs (reconcile w operations id docs).docs

pub data Serves (docs : Docs) : Docs → Type 0 where
  idle : Serves docs docs
  next : {b c : Docs} → Serves docs b → Request b c → Serves docs c

Request-Reach : {a b : Docs} → ((id : String) → HonestAt (a id)) → Request a b → Reach a b
Request-Reach h (proposed w s req caller env id token docs polite fresh) =
    propose-Reach w polite s req caller env id token docs fresh
Request-Reach h (executed w run req docs polite) = execute-Reach w polite run req docs
Request-Reach h (declined w req docs polite) = deny-Reach w polite req docs
Request-Reach h (reconciled w operations id docs polite) =
    reconcile-Reach w polite operations id docs (h id)

serves-Reach : {a b : Docs} → ((id : String) → HonestAt (a id)) → Serves a b → Reach a b
serves-Reach h idle = here
serves-Reach h (next s r) =
    let before = serves-Reach h s in Reach-trans before (Request-Reach (Reach-Honest h before) r)

-- From honest documents, such as none, any sequence of requests to `/propose`, `/execute`, `/deny`
-- and `/reconcile`, interleaved with any transactions of the store that other requests make,
-- leaves every approval honest: pending with no outcome, denied and resolved, or used with a known
-- phase and resolved only if that phase is "applied".
pub serves-Honest :
    {a b : Docs} → ((id : String) → HonestAt (a id)) → Serves a b → (id : String) → HonestAt (b id)
serves-Honest h s = Reach-Honest h (serves-Reach h s)

-- An approval that is denied, or used with the phase "applied" or "failed", is never changed again by
-- any sequence of requests, if the documents were honest.
pub serves-Final :
    {a b : Docs}
    → ((id : String) → HonestAt (a id))
    → Serves a b
    → (id : String) → FinalAt (a id)
    → b id ≡ a id
serves-Final h s id f = Reach-Final id (serves-Reach h s) f
