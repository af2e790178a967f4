-- ===== src/Rollback/Settles.antt =====
-- workers/rollback/main.py: a rollback that is authorized runs to the outcome that Cloud Run tells.
use driftscribe.Base.{
  ℕ, String, false, none, some, List, ◌≡◌, refl, sym, ◌∙◌, eq_iff, ltb, ◌≤◌, arith,
}
use driftscribe.Approval.Doc.{Doc}
use driftscribe.Approval.Store.{Docs, compute_token_hmac, get_approval}
use driftscribe.Approval.Honest.{Honest, undecided, rejected, redeemed}
use driftscribe.Rollback.Http.{reading, claiming, resolving, Worker, ExecuteRequest}
use driftscribe.Rollback.CloudRun.{Answer, gave, CloudRun, any_tagged}
use driftscribe.Rollback.Execute.{authorize, proceed, execute}
use driftscribe.Rollback.Outcome.{Quiet, Outcome, verdict, resolution, redeem-Outcome}

-- The token that is presented opens this approval now.
pub record Opens (w : Worker) (req : ExecuteRequest) (doc : Doc) : Type 0 where
  pub pending : doc.status ≡ "pending"
  pub fresh : w.clock reading ≤ doc.expires_at
  pub token :
      compute_token_hmac w.hmac_sha256 req.approval_token req.approval_id doc.target_revision
        w.approval_hmac_key
      ≡ doc.token_hmac

not_expired : (a b : ℕ) → a ≤ b → ltb b a ≡ false
not_expired a b h = ground arith

pub Opens-authorize :
    (w : Worker) (req : ExecuteRequest) (doc : Doc)
    → Opens w req doc
    → authorize w req (some (record { approval_id = req.approval_id; body = doc })) ≡ none
unfolding authorize
Opens-authorize w req doc o =
    rw ((eq_iff doc.status "pending").1 o.pending)
      (rw (not_expired _ _ o.fresh) (rw ((eq_iff _ doc.token_hmac).1 o.token) refl))

pending-unresolved : (doc : Doc) → Honest doc → doc.status ≡ "pending" → doc.resolved_at ≡ none
pending-unresolved doc (undecided s a r) e = r
pending-unresolved doc (rejected at s a r) e = absurd (let f = sym s ∙ e in cc)
pending-unresolved doc (redeemed audit s a k r) e = absurd (let f = sym s ∙ e in cc)

proceed-Outcome :
    (answer : Answer (List String)) (doc : Doc) (w : Worker) (run : CloudRun) (id : String)
    (tags : List String) (docs : Docs)
    → Quiet w
    → docs id ≡ some doc
    → doc.status ≡ "pending"
    → doc.resolved_at ≡ none
    → answer ≡ gave tags
    → any_tagged tags ≡ false
    → Outcome
        (proceed answer run w id (record { approval_id = id; body = doc }) docs).docs
        id
        (verdict run.service run.update_service run.poll)
        (resolution (w.clock resolving) (verdict run.service run.update_service run.poll))
unfolding proceed
proceed-Outcome answer doc w run id tags docs quiet e pending r preflight untagged = rw preflight (
    rw untagged (
      rw (quiet claiming docs)
        (redeem-Outcome doc w run id doc.target_revision docs quiet e pending r)))

-- If no other request interferes, the approval is honest and stored, the token opens it, and no
-- traffic target is tagged at the preflight, then `/execute` leaves the approval used, with the
-- phase that the answers of Cloud Run establish ("applied" if the operation succeeded, "failed" if
-- nothing was sent because of a tag or the operation is done with an error code, "outcome_unknown"
-- if a call failed, the poll timed out or broke otherwise), and resolved only if that is "applied".
pub execute-Outcome :
    (w : Worker) (run : CloudRun) (req : ExecuteRequest) (docs : Docs) (doc : Doc)
    (tags : List String)
    → Quiet w
    → docs req.approval_id ≡ some doc
    → Honest doc
    → Opens w req doc
    → run.preflight ≡ gave tags
    → any_tagged tags ≡ false
    → Outcome
        (execute w run req docs).docs
        req.approval_id
        (verdict run.service run.update_service run.poll)
        (resolution (w.clock resolving) (verdict run.service run.update_service run.poll))
unfolding execute get_approval
execute-Outcome w run req docs doc tags quiet e honest opens preflight untagged = rw e (
    rw (Opens-authorize w req doc opens) (
      proceed-Outcome run.preflight doc w run req.approval_id tags docs quiet e opens.pending
        (pending-unresolved doc honest opens.pending) preflight untagged))
