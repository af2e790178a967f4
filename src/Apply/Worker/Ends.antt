-- ===== src/Apply/Worker/Ends.antt =====
-- How `/apply` of workers/tofu_apply/main.py leaves an approval that it has claimed.
use driftscribe.Base.{
  ℕ, String, Bool, true, false, Option, none, some, List, [], ◌∷◌, ◌≡◌, ◌≢◌, refl, sym, subst, ◌∙◌,
  ap, if◌then◌else◌, ◌==◌,
}
use driftscribe.Base.Text.{◌=ₛ◌, contains}
use driftscribe.Base.Json.{Json, Fields}
use driftscribe.Base.Value.{find?}
use driftscribe.Rollback.Http.{Reply, answered, http, crashed}
use driftscribe.Signed.Store.{
  PlanDoc, PlanApproval, PlanDocs, put, set_apply_audit, audit_found, claim_pending, claim,
  claim_read, mark_used, get_plan_approval, with_key,
}
use driftscribe.Signed.Minted.{put_self}
use driftscribe.Apply.Sequence.{
  Command, Run, went, failed, freshness_drift, escaped, lock_refused, step_error, state_suspect,
  ApplyOutcome, run_apply_sequence,
}
use driftscribe.Apply.Gates.{
  Refused, integrity_refused, tree_mismatch_refused, fidelity_refused, probe_failed, verify_refused,
  Gate, pass, refuse, crash,
}
use driftscribe.Apply.Worker.{
  Moment, reading, claiming, ending, Worker, ApplyRequest, Ran, Claim, authorize, audit_of, fail,
  conclude, after_gates, burned, after_claim, claim_for, proceed, apply, refused_phase,
  refused_code, kept_or,
}
use driftscribe.Apply.Worker.Sent.{authorize-Authorized}

abbrev pub phases_of : ℕ → List String
phases_of code =
    if code == 422
    then "integrity_refused" ∷ "fidelity_refused" ∷ "verify_refused" ∷ []
    else if code == 409
    then "tree_mismatch_refused" ∷ "drift_refused" ∷ []
    else if code == 423
    then "lock_refused" ∷ []
    else if code == 502
    then "failed" ∷ "failed_state_suspect" ∷ []
    else []

-- Which phases stand for a reply.
unfoldable pub tells : String → Reply String → Bool
tells phase (answered s) = phase =ₛ "applied"
tells phase (http code) = contains (phases_of code) phase
tells phase crashed = false

-- The document is used, and its audit holds the identities and a phase that stands for the reply.
abbrev pub Ends : Worker → String → String → Option String → Ran → Type 0
Ends w id caller email r =
    (d : PlanDoc) × (phase : String) × (r.docs id
      ≡ some (record d { apply_audit = some (audit_of w phase caller email) }))
    × (d.status ≡ "used")
    × (tells phase r.reply ≡ true)

abbrev pub Idle : Worker → Type 0
Idle w = (m : Moment) (docs : PlanDocs) → w.others m docs ≡ docs

set_apply_audit-put :
    (id : String) (audit : Fields) (docs : PlanDocs) (d : PlanDoc)
    → docs id ≡ some d
    → set_apply_audit id audit docs ≡ some (put id (record d { apply_audit = some audit }) docs)
unfolding set_apply_audit
set_apply_audit-put id audit docs d found = ap (λ o. audit_found o id audit docs) found

-- The claimed document.
abbrev Used : String → PlanDocs → Type 0
Used id docs = (d : PlanDoc) × (docs id ≡ some d) × (d.status ≡ "used")

fail-Ends :
    (w : Worker) (id caller : String) (email : Option String) (phase : String) (code : ℕ)
    (docs : PlanDocs) (cs : List Command)
    → Idle w
    → Used id docs
    → tells phase (http code) ≡ true
    → Ends w id caller email (fail w id (audit_of w phase caller email) code docs cs)
unfolding fail
fail-Ends w id caller email phase code docs cs idle (d, found, used) told =
    let audit = audit_of w phase caller email in
    (
      d,
      phase,
      ap (λ now. kept_or now (set_apply_audit id audit now) id) (idle ending docs)
          ∙ ap (λ o. kept_or docs o id) (set_apply_audit-put id audit docs d found)
          ∙ put_self id (record d { apply_audit = some audit }) docs,
      used,
      told,
    )

conclude-Ends :
    (w : Worker) (id caller : String) (email : Option String) (docs : PlanDocs)
    (m : List Command × Run ApplyOutcome)
    → Idle w
    → Used id docs
    → (conclude w id caller email docs m).reply ≢ crashed
    → Ends w id caller email (conclude w id caller email docs m)
unfolding conclude tells contains
conclude-Ends w id caller email docs (cs, failed freshness_drift) idle used h =
    fail-Ends w id caller email "drift_refused" 409 docs cs idle used refl
conclude-Ends w id caller email docs (cs, failed (lock_refused step rc err)) idle used h =
    fail-Ends w id caller email "lock_refused" 423 docs cs idle used refl
conclude-Ends w id caller email docs (cs, failed (state_suspect rc err diag)) idle used h =
    fail-Ends w id caller email "failed_state_suspect" 502 docs cs idle used refl
conclude-Ends w id caller email docs (cs, failed (step_error step rc err)) idle used h =
    fail-Ends w id caller email "failed" 502 docs cs idle used refl
conclude-Ends w id caller email docs (cs, failed escaped) idle used h = absurd (h refl)
conclude-Ends w id caller email docs (cs, went o) idle (d, found, used) h =
    let audit = audit_of w "applied" caller email in
    rw (idle ending docs) (
      rw (set_apply_audit-put id audit docs d found)
        (d, "applied", put_self id (record d { apply_audit = some audit }) docs, used, refl))

after_gates-Ends :
    (w : Worker) (id caller : String) (email : Option String) (docs : PlanDocs)
    (g : Gate (String × Bool))
    → Idle w
    → Used id docs
    → (after_gates w id caller email docs g).reply ≢ crashed
    → Ends w id caller email (after_gates w id caller email docs g)
unfolding after_gates tells contains
after_gates-Ends w id caller email docs (pass (bytes, created)) idle used h =
    conclude-Ends w id caller email docs (run_apply_sequence (w.world bytes) []) idle used h
after_gates-Ends w id caller email docs crash idle used h = absurd (h refl)
after_gates-Ends w id caller email docs (refuse r) idle used h =
    fail-Ends w id caller email (refused_phase r) (refused_code r) docs [] idle used (refused_lem r)
  where
    refused_lem : (r : Refused) → tells (refused_phase r) (http (refused_code r)) ≡ true
    refused_lem integrity_refused = refl
    refused_lem tree_mismatch_refused = refl
    refused_lem fidelity_refused = refl
    refused_lem probe_failed = refl
    refused_lem verify_refused = refl

burned-Ends :
    (w : Worker) (req : ApplyRequest) (caller : String) (c : Claim) (docs : PlanDocs)
    (o : Option Json)
    → Idle w
    → Used req.approval_id docs
    → (burned w req caller c docs o).reply ≢ crashed
    → Ends w req.approval_id caller c.operator_email (burned w req caller c docs o)
unfolding burned
burned-Ends w req caller c docs none idle used h = absurd (h refl)
burned-Ends w req caller c docs (some md) idle used h =
    after_gates-Ends w req.approval_id caller c.operator_email docs _ idle used h

with_key-body :
    (id : String) (o : Option PlanDoc) (a : PlanApproval) → with_key id o ≡ some a → o ≡ some a.body
with_key-body id none a e = absurd cc
with_key-body id (some doc) a e =
    let same : record { approval_id = id; body = doc } ≡ a = cc in ap (λ x. some x.body) same

-- A pending document is claimed, if no other request comes between.
claim_for-Used :
    (w : Worker) (req : ApplyRequest) (caller : String) (email : Option String) (docs : PlanDocs)
    (a : PlanApproval)
    → Idle w
    → get_plan_approval req.approval_id docs ≡ some a
    → (a.body.status =ₛ "pending") ≡ true
    → (docs' : PlanDocs) × (won : PlanApproval) × (claim_for w req caller email docs
        ≡ (docs', some won))
      × Used req.approval_id docs'
unfolding claim_for claim_pending claim claim_read get_plan_approval mark_used
claim_for-Used w req caller email docs a idle found pending =
    let id = req.approval_id in
    let mark = mark_used caller (w.clock claiming) (some (audit_of w "claimed" caller email)) in
    let stored = with_key-body id (docs id) a found in
    let claimed : claim_read (some a.body) mark id docs
        ≡ (put id (mark a.body) docs, some (record { approval_id = id; body = mark a.body })) =
      rw pending in
    (
      put id (mark a.body) docs,
      record { approval_id = id; body = mark a.body },
      ap (λ now. claim_read (now id) mark id now) (idle claiming docs)
          ∙ ap (λ o. claim_read o mark id docs) stored
          ∙ claimed,
      (mark a.body, put_self id (mark a.body) docs, refl),
    )

-- If no other request interferes and the checks before the claim pass, then, unless an exception
-- escapes, `/apply` leaves the approval used, with an audit that holds the identities and a phase that
-- stands for the reply: "applied" for a success, and for each refusal one of the phases of its code,
-- never "claimed".
pub apply-Ends :
    (w : Worker) (req : ApplyRequest) (caller : String) (docs : PlanDocs) (c : Claim)
    → Idle w
    → authorize w req caller (get_plan_approval req.approval_id docs) ≡ answered c
    → (apply w req caller docs).reply ≢ crashed
    → Ends w req.approval_id caller c.operator_email (apply w req caller docs)
unfolding apply
apply-Ends w req caller docs c idle authorized h =
    let id = req.approval_id in
    let checks = authorize-Authorized w req caller (get_plan_approval id docs) c authorized in
    let (docs', won, claimed, used) =
      claim_for-Used w req caller c.operator_email docs c.stored idle checks.0 checks.1 in
    let same : apply w req caller docs ≡ burned w req caller c docs' (find? c.payload "metadata") =
      ap (λ now. proceed w req caller now (authorize w req caller (get_plan_approval id now)))
        (idle reading docs)
      ∙ ap (proceed w req caller docs) authorized
      ∙ ap (after_claim w req caller c) claimed in
    subst (Ends w id caller c.operator_email) (sym same) (
      burned-Ends w req caller c docs' (find? c.payload "metadata") idle used
        (λ e. h (ap (λ r. r.reply) same ∙ e)))
