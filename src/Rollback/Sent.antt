-- ===== src/Rollback/Sent.antt =====
-- When `/execute` asks Cloud Run to move traffic.
use driftscribe.Base.{
  ℕ, String, Bool, true, false, Option, none, some, List, [], ◌∷◌, ◌≡◌, ◌≢◌, refl, ◌∙◌, inl, inr,
  arith, Bool-cases, eq_iff, ltb, ◌≤◌, Result, ok, raised, ◌==◌,
}
use driftscribe.Base.Text.{◌=ₛ◌}
use driftscribe.Base.Json.{Fields}
use driftscribe.Approval.Doc.{Doc, Approval}
use driftscribe.Approval.Store.{Docs, compute_token_hmac, get_approval, with_key, claim_pending}
use driftscribe.Rollback.Http.{
  Reply, reading, claiming, Moment, Worker, ExecuteRequest, written, note,
}
use driftscribe.Rollback.CloudRun.{
  Answer, gave, failed, Poll, succeeded, timed_out, broke, CloudRun, any_tagged, Started, operation,
  refused, lost, start_traffic_update, start_tagged,
}
use driftscribe.Rollback.Execute.{
  authorize, watch, watch_applying, launch, redeem, proceed, admitted, execute,
}

written-sent :
    {A : Type 0} (r : Result Docs) (docs : Docs) (sent : List String) (reply : Reply A)
    → (written r docs sent reply).sent ≡ sent
written-sent (ok d) docs sent reply = refl
written-sent (raised e) docs sent reply = refl

note-sent :
    {A : Type 0} (w : Worker) (m : Moment) (id phase : String) (detail : Fields) (at : Option ℕ)
    (docs : Docs) (sent : List String) (reply : Reply A)
    → (note w m id phase detail at docs sent reply).sent ≡ sent
unfolding note
note-sent w m id phase detail at docs sent reply = written-sent _ _ sent reply

watch-sent :
    (poll : Poll) (w : Worker) (id revision name : String) (docs : Docs) (sent : List String)
    → (watch poll w id revision name docs sent).sent ≡ sent
unfolding watch
watch-sent succeeded w id revision name docs sent = note-sent w _ id _ _ _ docs sent _
watch-sent timed_out w id revision name docs sent = note-sent w _ id _ _ _ docs sent _
watch-sent (broke e d c) w id revision name docs sent = note-sent w _ id _ _ _ docs sent _

watch_applying-sent :
    (r : Result Docs) (poll : Poll) (w : Worker) (id revision name : String) (docs : Docs)
    (sent : List String)
    → (watch_applying r poll w id revision name docs sent).sent ≡ sent
watch_applying-sent (ok d) poll w id revision name docs sent =
    watch-sent poll w id revision name d sent
watch_applying-sent (raised e) poll w id revision name docs sent = refl

launch-sent :
    (s : Started) (poll : Poll) (w : Worker) (id revision : String) (docs : Docs)
    (sent : List String)
    → (launch s poll w id revision docs sent).sent ≡ sent
unfolding launch
launch-sent (refused code digits) poll w id revision docs sent = elim (Bool-cases (code == 409)) [
  | inl e ↦ rw e (note-sent w _ id _ _ _ docs sent _)
  | inr e ↦ rw e (note-sent w _ id _ _ _ docs sent _)
]
launch-sent (lost error) poll w id revision docs sent = note-sent w _ id _ _ _ docs sent _
launch-sent (operation name) poll w id revision docs sent =
    watch_applying-sent _ poll w id revision name _ sent

start-sent :
    (tags : Answer (List String)) (reply : Answer String) (revision : String)
    → (start_traffic_update tags reply revision).0 ≢ []
    → (start_traffic_update tags reply revision).0 ≡ revision ∷ []
unfolding start_traffic_update
start-sent (failed e) reply revision h = absurd (h refl)
start-sent (gave tags) reply revision h = go (any_tagged tags) h
  where
    go :
        (b : Bool)
        → (start_tagged b revision reply).0 ≢ []
        → (start_tagged b revision reply).0 ≡ revision ∷ []
    go true h = absurd (h refl)
    go false h = refl

-- What `/execute` has seen when it moves traffic: the approval that it read, pending, not expired
-- and with the hash of the token presented; and the claim that it won.
pub record Authorized (w : Worker) (req : ExecuteRequest) (docs : Docs) (sent : List String)
    (approved : Doc) : Type 0 where
  pub stored : docs req.approval_id ≡ some approved
  pub pending : approved.status ≡ "pending"
  pub fresh : w.clock reading ≤ approved.expires_at
  pub token :
      compute_token_hmac w.hmac_sha256 req.approval_token req.approval_id approved.target_revision
        w.approval_hmac_key
      ≡ approved.token_hmac
  pub won : (claim_pending req.approval_id (w.clock claiming) (w.others claiming docs)).1 ≢ none
  pub bound : sent ≡ approved.target_revision ∷ []

redeem-sent :
    (c : Docs × Option Approval) (run : CloudRun) (w : Worker) (id revision : String)
    → (redeem c run w id revision).sent ≢ []
    → (c.1 ≢ none) × ((redeem c run w id revision).sent ≡ revision ∷ [])
unfolding redeem
redeem-sent (docs, none) run w id revision h = absurd (h refl)
redeem-sent (docs, some a) run w id revision h =
    let u = start_traffic_update run.service run.update_service revision in
    let same : (launch u.1 run.poll w id revision docs u.0).sent ≡ u.0 =
      launch-sent u.1 run.poll w id revision docs u.0 in
    ((λ e. cc), same ∙ start-sent run.service run.update_service revision (λ e. h (same ∙ e)))

proceed-sent :
    (tags : Answer (List String)) (run : CloudRun) (w : Worker) (id : String) (a : Approval)
    (docs : Docs)
    → (proceed tags run w id a docs).sent ≢ []
    → ((claim_pending id (w.clock claiming) (w.others claiming docs)).1 ≢ none)
      × ((proceed tags run w id a docs).sent ≡ a.body.target_revision ∷ [])
unfolding proceed
proceed-sent (failed e) run w id a docs h = absurd (h refl)
proceed-sent (gave tags) run w id a docs h = elim (Bool-cases (any_tagged tags)) [
  | inl e ↦ absurd (rw e at h refl)
  | inr e ↦ rw e (redeem-sent _ run w id a.body.target_revision (rw e at h))
]

-- An approval passes the checks only in this way.
pub authorize-passes :
    (w : Worker) (req : ExecuteRequest) (a : Approval)
    → authorize w req (some a) ≡ none
    → (a.body.status ≡ "pending")
      × (w.clock reading ≤ a.body.expires_at)
      × (compute_token_hmac w.hmac_sha256 req.approval_token a.approval_id a.body.target_revision
            w.approval_hmac_key
          ≡ a.body.token_hmac)
unfolding authorize
authorize-passes w req a h =
    let hash =
      compute_token_hmac w.hmac_sha256 req.approval_token a.approval_id a.body.target_revision
        w.approval_hmac_key in
    elim (Bool-cases (a.body.status =ₛ "pending")) [
      | inr e ↦ absurd (let f = rw e at h in cc)
      | inl pending ↦ elim (Bool-cases (ltb a.body.expires_at (w.clock reading))) [
        | inl e ↦ absurd (let f = rw e at (rw pending at h) in cc)
        | inr fresh ↦ elim (Bool-cases (hash =ₛ a.body.token_hmac)) [
          | inr e ↦ absurd (let f = rw e at (rw fresh at (rw pending at h)) in cc)
          | inl same ↦ (
            (eq_iff a.body.status "pending").0 pending,
            ground arith,
            (eq_iff hash a.body.token_hmac).0 same,
          )
        ]
      ]
    ]

admitted-sent :
    (o : Option Doc) (w : Worker) (run : CloudRun) (req : ExecuteRequest) (docs : Docs)
    (code : Option ℕ)
    → docs req.approval_id ≡ o
    → authorize w req (with_key req.approval_id o) ≡ code
    → (admitted code (with_key req.approval_id o) run w req.approval_id docs).sent ≢ []
    → (doc : Doc) × Authorized w req docs
        (admitted code (with_key req.approval_id o) run w req.approval_id docs).sent
        doc
admitted-sent o w run req docs (some code) e a h = absurd (h refl)
admitted-sent none w run req docs none e a h = absurd (h refl)
admitted-sent (some doc) w run req docs none e a h =
    let approval : Approval = record { approval_id = req.approval_id; body = doc } in
    let (pending, fresh, token) = authorize-passes w req approval a in
    let (won, bound) = proceed-sent run.preflight run w req.approval_id approval docs h in
    (
      doc,
      record {
        stored = e;
        pending = pending;
        fresh = fresh;
        token = token;
        won = won;
        bound = bound;
      },
    )

-- If `/execute` asks Cloud Run to move traffic at all, then the approval that it read was pending,
-- not expired, and held the hash of the token presented, the request won the claim of it, whatever
-- other requests did in between, and it asked once, for the approved revision.
pub execute-Authorized :
    (w : Worker) (run : CloudRun) (req : ExecuteRequest) (docs : Docs)
    → (execute w run req docs).sent ≢ []
    → (doc : Doc) × Authorized w req docs (execute w run req docs).sent doc
unfolding execute get_approval
execute-Authorized w run req docs h =
    admitted-sent (docs req.approval_id) w run req docs _ refl refl h
