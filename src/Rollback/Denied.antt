-- ===== src/Rollback/Denied.antt =====
-- workers/rollback/main.py: who may deny an approval, and what `/reconcile` leaves alone.
use driftscribe.Base.{
  ℕ, String, true, Option, none, some, ◌≡◌, ◌≢◌, refl, ◌⊎◌, inl, inr, ◌↔◌, eq_iff, Bool-cases,
}
use driftscribe.Approval.Doc.{Doc, Approval, is_settled}
use driftscribe.Approval.Store.{Docs, get_approval, with_key, claim_denied, claim, claim_read}
use driftscribe.Approval.Honest.{Honest, undecided, rejected, redeemed}
use driftscribe.Rollback.Http.{answered, claiming, Worker, ExecuteRequest}
use driftscribe.Rollback.CloudRun.{Answer}
use driftscribe.Rollback.Execute.{authorize}
use driftscribe.Rollback.Deny.{deny, decline, closed}
use driftscribe.Rollback.Reconcile.{Operation, operation_of, phase_of, resume, reconcile, unchanged}
use driftscribe.Rollback.Outcome.{Quiet}
use driftscribe.Rollback.Sent.{authorize-passes}
use driftscribe.Rollback.Settles.{Opens, Opens-authorize}

decline-Opens :
    (o : Option Doc) (code : Option ℕ) (w : Worker) (req : ExecuteRequest) (docs : Docs)
    → authorize w req (with_key req.approval_id o) ≡ code
    → (decline code w req.approval_id docs).reply ≡ answered req.approval_id
    → (doc : Doc) × (o ≡ some doc) × Opens w req doc
unfolding authorize
decline-Opens o (some code) w req docs e a = absurd cc
decline-Opens none none w req docs e a = absurd cc
decline-Opens (some doc) none w req docs e a =
    let approval : Approval = record { approval_id = req.approval_id; body = doc } in
    let (pending, fresh, token) = authorize-passes w req approval e in
    (doc, refl, record { pending = pending; fresh = fresh; token = token })

claim_denied-wins :
    (id : String) (now : ℕ) (docs : Docs) (doc : Doc)
    → docs id ≡ some doc
    → doc.status ≡ "pending"
    → (closed (claim_denied id now docs) id).reply ≡ answered id
unfolding claim_denied claim claim_read
claim_denied-wins id now docs doc e pending =
    rw e (rw ((eq_iff doc.status "pending").1 pending) refl)

-- If no other request interferes, `/deny` answers exactly if the approval is stored and the token
-- that is presented opens it: it is pending, not expired, and holds the token's hash.
pub deny_iff :
    (w : Worker) (req : ExecuteRequest) (docs : Docs)
    → Quiet w
    → ((deny w req docs).reply ≡ answered req.approval_id)
      ↔ ((doc : Doc) × (docs req.approval_id ≡ some doc) × Opens w req doc)
unfolding deny get_approval
deny_iff w req docs quiet = (
  (λ a. decline-Opens (docs req.approval_id) _ w req docs refl a),
  λ (doc, e, o). rw e (
      rw (Opens-authorize w req doc o) (
        rw (quiet claiming docs)
          (claim_denied-wins req.approval_id (w.clock claiming) docs doc e o.pending))),
)

audit-operation :
    (doc : Doc) → Honest doc → doc.status ≢ "used" → operation_of doc.apply_audit ≡ none
unfolding operation_of
audit-operation doc (undecided s a r) u = rw a
audit-operation doc (rejected at s a r) u = rw a
audit-operation doc (redeemed audit s a k r) u = absurd (u s)

-- For a stored, honest approval that is not used, or whose phase is "applied" or "failed",
-- `/reconcile` changes no document and answers with the phase recorded, not reconciled.
pub reconcile-unchanged :
    (w : Worker) (operations : String → Answer Operation) (id : String) (docs : Docs) (doc : Doc)
    → docs id ≡ some doc
    → Honest doc
    → (doc.status ≢ "used") ⊎ (is_settled doc.apply_audit ≡ true)
    → reconcile w operations id docs ≡ unchanged id (phase_of doc.apply_audit) docs
unfolding reconcile get_approval resume
reconcile-unchanged w operations id docs doc e h (inr settled) = rw e (rw settled refl)
reconcile-unchanged w operations id docs doc e h (inl unused) =
    elim (Bool-cases (is_settled doc.apply_audit)) [
      | inl settled ↦ rw e (rw settled refl)
      | inr open_ ↦ rw e (rw open_ (rw (audit-operation doc h unused) refl))
    ]
