-- ===== src/Rollback/Handlers.antt =====
-- workers/rollback/main.py: every handler moves the documents by transactions of the store, whatever
-- else runs in between.
use mathlib.Core.Path.{subst}
use driftscribe.Base.{
  ℕ, String, false, Option, none, some, List, [], ◌≡◌, ◌≢◌, refl, sym, inl, inr, Bool-cases, Result,
  ok, raised, ◌==◌,
}
use driftscribe.Base.Text.{◌=ₛ◌, contains}
use driftscribe.Base.Json.{Fields}
use driftscribe.Approval.Doc.{Doc, Approval, is_settled}
use driftscribe.Approval.Store.{
  Docs, get_approval, with_key, claim_pending, claim, claim_read, flip, burned,
}
use driftscribe.Approval.History.{created, taken, denied, Reach, here, then, put_self}
use driftscribe.Approval.Honest.{Honest, HonestAt, undecided, rejected, redeemed}
use driftscribe.Rollback.Http.{claiming, starting, Worker, ExecuteRequest}
use driftscribe.Rollback.CloudRun.{
  Answer, gave, failed, Poll, succeeded, timed_out, broke, CloudRun, any_tagged, Started, operation,
  refused, lost,
}
use driftscribe.Rollback.Execute.{watch, watch_applying, launch, redeem, proceed, admitted, execute}
use driftscribe.Rollback.Steps.{
  Polite, Reach-trans, UsedAt, Reach-Used, record_phase-Reach, note-Reach,
}
use driftscribe.Rollback.Deny.{deny, closed, decline}
use driftscribe.Rollback.Propose.{ServiceState, ProposeRequest, propose, list_revisions}
use driftscribe.Rollback.Reconcile.{
  Operation, operation_of, conclude, pursue, resume, found, reconcile,
}

module _ (w : Worker) (polite : Polite w) where
  watch-Reach :
      (poll : Poll) (id revision name : String) (docs : Docs) (sent : List String)
      → UsedAt (docs id)
      → Reach docs (watch poll w id revision name docs sent).docs
  unfolding watch
  watch-Reach succeeded id revision name docs sent u = note-Reach w polite _ id _ _ _ docs sent _ u
  watch-Reach timed_out id revision name docs sent u = note-Reach w polite _ id _ _ _ docs sent _ u
  watch-Reach (broke e d c) id revision name docs sent u =
      note-Reach w polite _ id _ _ _ docs sent _ u

  watch_applying-Reach :
      (r : Result Docs) (poll : Poll) (id revision name : String) (docs : Docs) (sent : List String)
      → UsedAt (docs id)
      → ((docs' : Docs) → r ≡ ok docs' → Reach docs docs')
      → Reach docs (watch_applying r poll w id revision name docs sent).docs
  watch_applying-Reach (ok d) poll id revision name docs sent u f =
      let step = f d refl in
      Reach-trans step (watch-Reach poll id revision name d sent (Reach-Used id step u))
  watch_applying-Reach (raised e) poll id revision name docs sent u f = here

  launch-Reach :
      (s : Started) (poll : Poll) (id revision : String) (docs : Docs) (sent : List String)
      → UsedAt (docs id)
      → Reach docs (launch s poll w id revision docs sent).docs
  unfolding launch
  launch-Reach (refused code digits) poll id revision docs sent u =
      elim (Bool-cases (code == 409)) [
        | inl e ↦ rw e (note-Reach w polite _ id _ _ _ docs sent _ u)
        | inr e ↦ rw e (note-Reach w polite _ id _ _ _ docs sent _ u)
      ]
  launch-Reach (lost error) poll id revision docs sent u =
      note-Reach w polite _ id _ _ _ docs sent _ u
  launch-Reach (operation name) poll id revision docs sent u =
      let now = w.others starting docs in
      let before = polite starting docs in
      let used = Reach-Used id before u in
      Reach-trans before (
        watch_applying-Reach _ poll id revision name now sent used
          (λ docs' h. record_phase-Reach (now id) id _ _ _ _ now docs' refl used h))

  claimed-Used :
      (o : Option Doc) (id : String) (now : ℕ) (docs : Docs)
      → (claim_read o "used" false (burned now) id now docs).1 ≢ none
      → UsedAt ((claim_read o "used" false (burned now) id now docs).0 id)
  unfolding claim_read flip
  claimed-Used none id now docs won = absurd (won refl)
  claimed-Used (some doc) id now docs won = elim (Bool-cases (doc.status =ₛ "pending")) [
    | inl pending ↦ rw pending (rw (put_self id (flip "used" false (burned now) now doc) docs) refl)
    | inr other ↦ absurd (won (rw other))
  ]

  claim_won-Used :
      (id : String) (now : ℕ) (docs : Docs)
      → (claim_pending id now docs).1 ≢ none
      → UsedAt ((claim_pending id now docs).0 id)
  unfolding claim_pending claim
  claim_won-Used id now docs won = claimed-Used (docs id) id now docs won

  redeem-Reach :
      (c : Docs × Option Approval) (run : CloudRun) (id revision : String)
      → (c.1 ≢ none → UsedAt (c.0 id))
      → Reach c.0 (redeem c run w id revision).docs
  unfolding redeem
  redeem-Reach (docs, none) run id revision u = here
  redeem-Reach (docs, some a) run id revision u =
      launch-Reach _ run.poll id revision docs _ (u (λ e. cc))

  proceed-Reach :
      (tags : Answer (List String)) (run : CloudRun) (id : String) (a : Approval) (docs : Docs)
      → Reach docs (proceed tags run w id a docs).docs
  unfolding proceed
  proceed-Reach (failed e) run id a docs = here
  proceed-Reach (gave tags) run id a docs = elim (Bool-cases (any_tagged tags)) [
    | inl e ↦ rw e here
    | inr e ↦ rw e (
        Reach-trans (then (polite claiming docs) (taken id (w.clock claiming) _))
          (redeem-Reach _ run id a.body.target_revision (claim_won-Used id _ _)))
  ]

  admitted-Reach :
      (code : Option ℕ) (o : Option Approval) (run : CloudRun) (id : String) (docs : Docs)
      → Reach docs (admitted code o run w id docs).docs
  admitted-Reach (some code) o run id docs = here
  admitted-Reach none none run id docs = here
  admitted-Reach none (some a) run id docs = proceed-Reach run.preflight run id a docs

  pub execute-Reach :
      (run : CloudRun) (req : ExecuteRequest) (docs : Docs)
      → Reach docs (execute w run req docs).docs
  unfolding execute
  execute-Reach run req docs = admitted-Reach _ _ run req.approval_id docs

  closed-Reach : (c : Docs × Option Approval) (id : String) → Reach c.0 (closed c id).docs
  closed-Reach (docs, none) id = here
  closed-Reach (docs, some a) id = here

  decline-Reach :
      (code : Option ℕ) (id : String) (docs : Docs) → Reach docs (decline code w id docs).docs
  decline-Reach (some code) id docs = here
  decline-Reach none id docs =
      Reach-trans (then (polite claiming docs) (denied id (w.clock claiming) _)) (closed-Reach _ id)

  pub deny-Reach : (req : ExecuteRequest) (docs : Docs) → Reach docs (deny w req docs).docs
  unfolding deny
  deny-Reach req docs = decline-Reach _ req.approval_id docs

  conclude-Reach :
      (op : Answer Operation) (id : String) (phase : Option String) (name : String) (docs : Docs)
      → UsedAt (docs id)
      → Reach docs (conclude op w id phase name docs).docs
  unfolding conclude
  conclude-Reach (failed e) id phase name docs u = here
  conclude-Reach (gave op) id phase name docs u = elim (Bool-cases op.done) [
    | inr running ↦ rw running here
    | inl done ↦ elim (Bool-cases (op.error_code == 0)) [
      | inr error ↦ rw done (rw error (note-Reach w polite _ id _ _ _ docs [] _ u))
      | inl fine ↦ elim (Bool-cases op.has_response) [
        | inr malformed ↦ rw done (rw fine (rw malformed here))
        | inl response ↦
            rw done (rw fine (rw response (note-Reach w polite _ id _ _ _ docs [] _ u)))
      ]
    ]
  ]

  pursue-Reach :
      (o : Option String) (operations : String → Answer Operation) (id : String)
      (phase : Option String) (docs : Docs)
      → (o ≢ none → UsedAt (docs id))
      → Reach docs (pursue o operations w id phase docs).docs
  pursue-Reach none operations id phase docs u = here
  pursue-Reach (some name) operations id phase docs u =
      conclude-Reach (operations name) id phase name docs (u (λ e. cc))

  audited-Used :
      (doc : Doc) → Honest doc → operation_of doc.apply_audit ≢ none → doc.status ≡ "used"
  unfolding operation_of
  audited-Used doc (undecided s a r) h = absurd (h (rw a))
  audited-Used doc (rejected at s a r) h = absurd (h (rw a))
  audited-Used doc (redeemed audit s a k r) h = s

  found-Reach :
      (o : Option Doc) (operations : String → Answer Operation) (id : String) (docs : Docs)
      → docs id ≡ o
      → HonestAt o
      → Reach docs (found (with_key id o) operations w id docs).docs
  unfolding resume
  found-Reach none operations id docs e h = here
  found-Reach (some doc) operations id docs e h = elim (Bool-cases (is_settled doc.apply_audit)) [
    | inl settled ↦ rw settled here
    | inr open_ ↦ rw open_ (
        pursue-Reach _ operations id _ docs
          (λ some_op. subst UsedAt (sym e) (audited-Used doc h some_op)))
  ]

  pub reconcile-Reach :
      (operations : String → Answer Operation) (id : String) (docs : Docs)
      → HonestAt (docs id)
      → Reach docs (reconcile w operations id docs).docs
  unfolding reconcile get_approval
  reconcile-Reach operations id docs h = found-Reach (docs id) operations id docs refl h

  pub propose-Reach :
      (s : Answer ServiceState) (req : ProposeRequest) (caller : String) (env : Option Fields)
      (id token : String) (docs : Docs)
      → w.others claiming docs id ≡ none
      → Reach docs (propose w s req caller env id token docs).docs
  unfolding propose
  propose-Reach (failed e) req caller env id token docs fresh = here
  propose-Reach (gave s) req caller env id token docs fresh =
      elim (Bool-cases (req.target_revision =ₛ (list_revisions s).1)) [
        | inl active ↦ rw active here
        | inr other ↦ elim (Bool-cases (contains (list_revisions s).0 req.target_revision)) [
          | inr unknown ↦ rw other (rw unknown here)
          | inl known ↦
              rw other (rw known (then (polite claiming docs) (created _ _ id token _ _ fresh)))
        ]
      ]
