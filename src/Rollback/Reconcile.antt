-- ===== src/Rollback/Reconcile.antt =====
-- workers/rollback/main.py: `/reconcile`.
use driftscribe.Base.{
  ℕ, String, Bool, true, false, not, Option, none, some, [], ◌==◌, if◌then◌else◌,
}
use driftscribe.Base.Text.{◌=ₛ◌}
use driftscribe.Base.Json.{Json, end, field, get}
use driftscribe.Approval.Doc.{Approval, Audit, is_settled, phase_applied, phase_failed}
use driftscribe.Approval.Store.{Docs, get_approval}
use driftscribe.Rollback.Http.{Reply, answered, http, resolving, Worker, Ran, note}
use driftscribe.Rollback.Execute.{stopped, named}
use driftscribe.Rollback.CloudRun.{Answer, gave, failed}

-- The body of the reply; an approval without an audit has no phase.
pub record Reconciled : Type 0 where
  pub approval_id : String
  pub phase : Option String
  pub reconciled : Bool

-- The operation as Google reports it: whether it is done, the code of its error with the code's
-- digits, 0 for none, and whether it has a response.
pub record Operation : Type 0 where
  pub done : Bool
  pub error_code : ℕ
  pub error_digits : String
  pub has_response : Bool

abbrev pub phase_of : Option Audit → Option String
phase_of none = none
phase_of (some audit) = some audit.phase

abbrev pub named_operation : Json → Option String
named_operation (Json.str s) = if s =ₛ "" then none else some s
named_operation _ = none

-- `(audit.get("detail") or {}).get("operation_name")`, unless it is empty.
unfoldable pub operation_of : Option Audit → Option String
operation_of none = none
operation_of (some audit) = elim audit.detail [
  | none ↦ none
  | some detail ↦ named_operation (get detail "operation_name")
]

abbrev pub unchanged : String → Option String → Docs → Ran Reconciled
unchanged id phase docs =
    stopped docs (answered (record { approval_id = id; phase = phase; reconciled = false }))

abbrev pub resolved : String → String → Reply Reconciled
resolved id phase = answered (record { approval_id = id; phase = some phase; reconciled = true })

-- From the operation that was read on.
unfoldable pub conclude :
    Answer Operation → Worker → String → Option String → String → Docs → Ran Reconciled
conclude (failed error) w id phase name docs = unchanged id phase docs
conclude (gave op) w id phase name docs =
    if not op.done
    then unchanged id phase docs
    else if not (op.error_code == 0)
    then note w resolving id phase_failed
        (named "stage" "reconcile"
          (named "operation_name" name (field "error_code" (Json.num op.error_digits) end)))
        none docs [] (resolved id phase_failed)
    else if not op.has_response
    then unchanged id phase docs
    else note w resolving id phase_applied
        (named "stage" "reconcile" (named "operation_name" name end)) none docs []
        (resolved id phase_applied)

abbrev pub pursue :
    Option String
    → (String → Answer Operation)
    → Worker
    → String
    → Option String
    → Docs
    → Ran Reconciled
pursue none operations w id phase docs = unchanged id phase docs
pursue (some name) operations w id phase docs = conclude (operations name) w id phase name docs

-- From the audit that was read on.
unfoldable pub resume :
    Option Audit → (String → Answer Operation) → Worker → String → Docs → Ran Reconciled
resume audit operations w id docs =
    if is_settled audit
    then unchanged id (phase_of audit) docs
    else pursue (operation_of audit) operations w id (phase_of audit) docs

abbrev pub found :
    Option Approval → (String → Answer Operation) → Worker → String → Docs → Ran Reconciled
found none operations w id docs = stopped docs (http 404)
found (some approval) operations w id docs = resume approval.body.apply_audit operations w id docs

-- `/reconcile`, where `operations` answers `get_operation`.
unfoldable pub reconcile : Worker → (String → Answer Operation) → String → Docs → Ran Reconciled
reconcile w operations id docs = found (get_approval id docs) operations w id docs
