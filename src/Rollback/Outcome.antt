-- ===== src/Rollback/Outcome.antt =====
-- workers/rollback/main.py: which outcome `/execute` records, when no other request interferes.
use driftscribe.Base.{
  ℕ, String, Bool, true, false, not, Option, none, some, List, ◌≡◌, refl, inl, inr, Bool-cases,
  eq_iff, ok, ◌==◌, if◌then◌else◌, ◌&&◌,
}
use driftscribe.Base.Text.{◌=ₛ◌, contains}
use driftscribe.Base.Json.{Fields}
use driftscribe.Approval.Doc.{
  Doc, Audit, is_settled, phase_claimed, phase_applying, phase_applied, phase_failed,
  phase_outcome_unknown, kept_detail, terminal_rollback_phases,
}
use driftscribe.Approval.Store.{
  Docs, claim_pending, claim, claim_read, record_phase, flip, settle, burned, check_phase, update,
  put,
}
use driftscribe.Approval.History.{put_self}
use driftscribe.Rollback.Http.{Reply, claiming, starting, resolving, Moment, Worker, note}
use driftscribe.Rollback.CloudRun.{
  Answer, gave, failed, Poll, succeeded, timed_out, broke, CloudRun, any_tagged, operation,
  start_traffic_update, start_tagged, is_established_failure,
}
use driftscribe.Rollback.Execute.{watch, launch, redeem}

-- No other request runs.
abbrev pub Quiet : Worker → Type 0
Quiet w = (m : Moment) (docs : Docs) → w.others m docs ≡ docs

-- The approval is used, with this phase and this time of resolution.
pub record Outcome (docs : Docs) (id phase : String) (at : Option ℕ) : Type 0 where
  pub doc : Doc
  pub audit : Audit
  pub stored : docs id ≡ some doc
  pub used : doc.status ≡ "used"
  pub audited : doc.apply_audit ≡ some audit
  pub named : audit.phase ≡ phase
  pub resolved : doc.resolved_at ≡ at

-- What the answers of Cloud Run establish about the rollback.
abbrev pub polled_phase : Poll → String
polled_phase succeeded = phase_applied
polled_phase timed_out = phase_outcome_unknown
polled_phase (broke error done code) =
    if done && not (code == 0) then phase_failed else phase_outcome_unknown

abbrev pub known_phase : Bool → Answer String → Poll → String
known_phase true reply poll = phase_failed
known_phase false (failed error) poll = phase_outcome_unknown
known_phase false (gave name) poll = polled_phase poll

abbrev pub verdict : Answer (List String) → Answer String → Poll → String
verdict (failed error) reply poll = phase_outcome_unknown
verdict (gave tags) reply poll = known_phase (any_tagged tags) reply poll

-- Only a confirmed success is resolved.
abbrev pub resolution : ℕ → String → Option ℕ
resolution now phase = if phase =ₛ phase_applied then some now else none

settle-resolved :
    (phase : String) (detail : Option Fields) (at : Option ℕ) (now : ℕ) (doc : Doc)
    → is_settled doc.apply_audit ≡ false
    → doc.resolved_at ≡ none
    → (settle phase detail at now doc).resolved_at ≡ at
unfolding settle
settle-resolved phase detail none now doc e r = rw e r
settle-resolved phase detail (some at) now doc e r = rw e refl

settle-Outcome :
    (docs : Docs) (id before phase : String) (detail : Option Fields) (at : Option ℕ) (now : ℕ)
    → contains terminal_rollback_phases before ≡ false
    → Outcome docs id before none
    → Outcome (update (docs id) (settle phase detail at now) id docs) id phase at
unfolding settle update is_settled
settle-Outcome docs id before phase detail at now open_ o =
    let unsettled : is_settled o.doc.apply_audit ≡ false = rw o.audited (rw o.named open_) in
    record {
      doc = settle phase detail at now o.doc;
      audit = record { phase = phase; phase_at = now; detail = kept_detail detail };
      stored = rw o.stored (put_self id (settle phase detail at now o.doc) docs);
      used = rw unsettled o.used;
      audited = rw unsettled refl;
      named = refl;
      resolved = settle-resolved phase detail at now o.doc unsettled o.resolved;
    }

note-Outcome :
    {A : Type 0} (w : Worker) (m : Moment) (id before phase : String) (detail : Fields)
    (at : Option ℕ) (docs : Docs) (sent : List String) (reply : Reply A)
    → Quiet w
    → contains terminal_rollback_phases before ≡ false
    → check_phase phase at ≡ ok tt
    → Outcome docs id before none
    → Outcome (note w m id phase detail at docs sent reply).docs id phase at
unfolding note record_phase
note-Outcome w m id before phase detail at docs sent reply quiet open_ checked o =
    rw (quiet m docs)
      (rw checked (settle-Outcome docs id before phase (some detail) at (w.clock m) open_ o))

watch-Outcome :
    (poll : Poll) (w : Worker) (id revision name : String) (docs : Docs) (sent : List String)
    → Quiet w
    → Outcome docs id phase_applying none
    → Outcome
        (watch poll w id revision name docs sent).docs
        id
        (polled_phase poll)
        (resolution (w.clock resolving) (polled_phase poll))
unfolding watch is_established_failure check_phase contains
watch-Outcome succeeded w id revision name docs sent quiet o =
    note-Outcome w _ id phase_applying _ _ _ docs sent _ quiet refl refl o
watch-Outcome timed_out w id revision name docs sent quiet o =
    note-Outcome w _ id phase_applying _ _ _ docs sent _ quiet refl refl o
watch-Outcome (broke error done code) w id revision name docs sent quiet o =
    elim (Bool-cases (done && not (code == 0))) [
      | inl e ↦ rw e (note-Outcome w _ id phase_applying _ _ _ docs sent _ quiet refl refl o)
      | inr e ↦ rw e (note-Outcome w _ id phase_applying _ _ _ docs sent _ quiet refl refl o)
    ]

operation-Outcome :
    (poll : Poll) (w : Worker) (id revision name : String) (docs : Docs) (sent : List String)
    → Quiet w
    → Outcome docs id phase_claimed none
    → Outcome
        (launch (operation name) poll w id revision docs sent).docs
        id
        (polled_phase poll)
        (resolution (w.clock resolving) (polled_phase poll))
unfolding launch record_phase check_phase contains
operation-Outcome poll w id revision name docs sent quiet o = rw (quiet starting docs) (
    watch-Outcome poll w id revision name _ sent quiet
      (settle-Outcome docs id phase_claimed phase_applying _ none (w.clock starting) refl o))

launch-Outcome :
    (tags : Answer (List String)) (reply : Answer String) (poll : Poll) (w : Worker)
    (id revision : String) (docs : Docs)
    → Quiet w
    → Outcome docs id phase_claimed none
    → Outcome
        (launch
          (start_traffic_update tags reply revision).1
          poll
          w
          id
          revision
          docs
          (start_traffic_update tags reply revision).0).docs
        id
        (verdict tags reply poll)
        (resolution (w.clock resolving) (verdict tags reply poll))
unfolding start_traffic_update launch check_phase contains
launch-Outcome (failed error) reply poll w id revision docs quiet o =
    note-Outcome w _ id phase_claimed _ _ _ docs _ _ quiet refl refl o
launch-Outcome (gave tags) reply poll w id revision docs quiet o = go (any_tagged tags) reply
  where
    go :
        (b : Bool) (reply : Answer String)
        → Outcome
            (launch
              (start_tagged b revision reply).1
              poll
              w
              id
              revision
              docs
              (start_tagged b revision reply).0).docs
            id
            (known_phase b reply poll)
            (resolution (w.clock resolving) (known_phase b reply poll))
    go true reply = note-Outcome w _ id phase_claimed _ _ _ docs _ _ quiet refl refl o
    go false (failed error) = note-Outcome w _ id phase_claimed _ _ _ docs _ _ quiet refl refl o
    go false (gave name) = operation-Outcome poll w id revision name docs _ quiet o

flip-Outcome :
    (id : String) (now : ℕ) (docs : Docs) (doc : Doc)
    → doc.resolved_at ≡ none
    → Outcome (put id (flip "used" false (burned now) now doc) docs) id phase_claimed none
unfolding flip
flip-Outcome id now docs doc e = record {
  doc = flip "used" false (burned now) now doc;
  audit = record { phase = phase_claimed; phase_at = now; detail = none };
  stored = put_self id (flip "used" false (burned now) now doc) docs;
  used = refl;
  audited = refl;
  named = refl;
  resolved = e;
}

pub redeem-Outcome :
    (doc : Doc) (w : Worker) (run : CloudRun) (id revision : String) (docs : Docs)
    → Quiet w
    → docs id ≡ some doc
    → doc.status ≡ "pending"
    → doc.resolved_at ≡ none
    → Outcome
        (redeem (claim_pending id (w.clock claiming) docs) run w id revision).docs
        id
        (verdict run.service run.update_service run.poll)
        (resolution (w.clock resolving) (verdict run.service run.update_service run.poll))
unfolding redeem claim_pending claim claim_read
redeem-Outcome doc w run id revision docs quiet e pending r = rw e (
    rw ((eq_iff doc.status "pending").1 pending) (
      launch-Outcome run.service run.update_service run.poll w id revision _ quiet
        (flip-Outcome id (w.clock claiming) docs doc r)))
