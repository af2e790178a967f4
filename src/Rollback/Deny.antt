-- ===== src/Rollback/Deny.antt =====
-- workers/rollback/main.py: `/deny`.
use driftscribe.Base.{ℕ, String, Option, none, some}
use driftscribe.Approval.Doc.{Approval}
use driftscribe.Approval.Store.{Docs, get_approval, claim_denied}
use driftscribe.Rollback.Http.{answered, http, claiming, Worker, Ran, ExecuteRequest}
use driftscribe.Rollback.Execute.{authorize, stopped}

abbrev pub closed : Docs × Option Approval → String → Ran String
closed (docs, none) id = stopped docs (http 403)
closed (docs, some _) id = stopped docs (answered id)

abbrev pub decline : Option ℕ → Worker → String → Docs → Ran String
decline (some code) w id docs = stopped docs (http code)
decline none w id docs = closed (claim_denied id (w.clock claiming) (w.others claiming docs)) id

-- `/deny`
unfoldable pub deny : Worker → ExecuteRequest → Docs → Ran String
deny w req docs =
    decline (authorize w req (get_approval req.approval_id docs)) w req.approval_id docs
