-- ===== src/Apply/Worker/Sent.antt =====
-- What stands behind a `tofu apply` that `/apply` of workers/tofu_apply/main.py runs.
use driftscribe.Base.{
  ◌<◌, String, Bool, true, false, Option, none, some, List, [], Result, ok, raised, ◌≡◌, refl, sym,
  subst, ◌∙◌, ap, arith, Bool-cases, inl, inr,
}
use driftscribe.Base.Text.{◌=ₛ◌}
use driftscribe.Base.Json.{Json, null, obj, Fields}
use driftscribe.Base.Value.{find?}
use driftscribe.Rollback.Http.{Reply, answered, http, crashed}
use driftscribe.Signed.Store.{
  PlanApproval, PlanDocs, get_plan_approval, verify_plan_approval, signed_payload,
  plan_approval_is_expired,
}
use driftscribe.Apply.Sequence.{
  Command, Run, went, failed, freshness_drift, escaped, lock_refused, step_error, state_suspect,
  ApplyOutcome, run_apply_sequence,
}
use driftscribe.Apply.Sequence.Gate.{applies}
use driftscribe.Apply.Sequence.Cleared.{Cleared, run_apply_sequence-Cleared}
use driftscribe.Apply.Gates.{Gate, pass, refuse, crash, gates}
use driftscribe.Apply.Gates.Approved.{Approved, gates-Approved}
use driftscribe.Apply.Worker.{
  reading, Worker, ApplyRequest, ◌>>=◌, verify_operator, stored_or_404, opened, dict_or_crash,
  item_or_crash, unexpired, Claim, authorize, fail, recorded, conclude, after_gates, burned,
  after_claim, claim_for, proceed, apply,
}

pub >>=-eq-answered :
    {A B : Type 0} (m : Reply A) (next : A → Reply B) {y : B}
    → m >>= next ≡ answered y
    → (x : A) × (m ≡ answered x) × (next x ≡ answered y)
>>=-eq-answered (answered x) next e = (x, refl, e)
>>=-eq-answered (http code) next e = absurd cc
>>=-eq-answered crashed next e = absurd cc

recorded-commands :
    (docs : PlanDocs) (cs : List Command) (o : Option PlanDocs) → (recorded docs cs o).commands ≡ cs
recorded-commands docs cs none = refl
recorded-commands docs cs (some docs') = refl

conclude-commands :
    (w : Worker) (id caller : String) (email : Option String) (docs : PlanDocs)
    (m : List Command × Run ApplyOutcome)
    → (conclude w id caller email docs m).commands ≡ m.0
unfolding conclude fail
conclude-commands w id caller email docs (cs, went o) = recorded-commands _ cs _
conclude-commands w id caller email docs (cs, failed freshness_drift) = refl
conclude-commands w id caller email docs (cs, failed (lock_refused step rc err)) = refl
conclude-commands w id caller email docs (cs, failed (state_suspect rc err diag)) = refl
conclude-commands w id caller email docs (cs, failed (step_error step rc err)) = refl
conclude-commands w id caller email docs (cs, failed escaped) = refl

after_gates-Run :
    (w : Worker) (id caller : String) (email : Option String) (docs : PlanDocs)
    (g : Gate (String × Bool))
    → 0 < applies (after_gates w id caller email docs g).commands
    → (bytes : String) × (created : Bool) × (g ≡ pass (bytes, created))
      × ((after_gates w id caller email docs g).commands
          ≡ (run_apply_sequence (w.world bytes) []).0)
unfolding after_gates fail applies
after_gates-Run w id caller email docs (pass (bytes, created)) h =
    (bytes, created, refl, conclude-commands w id caller email docs _)
after_gates-Run w id caller email docs (refuse r) h = absurd (omega arith)
after_gates-Run w id caller email docs crash h = absurd (omega arith)

burned-Run :
    (w : Worker) (req : ApplyRequest) (caller : String) (c : Claim) (docs : PlanDocs)
    (o : Option Json)
    → 0 < applies (burned w req caller c docs o).commands
    → (md : Json) × (o ≡ some md)
      × (bytes : String) × (created : Bool) × (gates w.site c.payload md
            c.stored.body.payload_canonical req.generation_iac_tree
          ≡ pass (bytes, created))
      × ((burned w req caller c docs o).commands ≡ (run_apply_sequence (w.world bytes) []).0)
unfolding burned applies
burned-Run w req caller c docs none h = absurd (omega arith)
burned-Run w req caller c docs (some md) h =
    let (bytes, created, passed, ran) =
      after_gates-Run w req.approval_id caller c.operator_email docs _ h in
    (md, refl, bytes, created, passed, ran)

-- The claim that a request has won, what the gates established after it, and what OpenTofu answered
-- before the one apply.
abbrev pub Backed : Worker → ApplyRequest → String → PlanDocs → Claim → List Command → Type 0
Backed w req caller docs c cs =
    (a : PlanApproval) × ((claim_for w req caller c.operator_email docs).1 ≡ some a)
    × (md : Json) × (find? c.payload "metadata" ≡ some md)
    × (bytes : String) × (created : Bool) × Approved w.site c.payload md
        c.stored.body.payload_canonical req.generation_iac_tree bytes created
    × Cleared (w.world bytes)
    × (applies cs ≡ 1)

claimed-Backed :
    (w : Worker) (req : ApplyRequest) (caller : String) (docs : PlanDocs) (c : Claim)
    (p : PlanDocs × Option PlanApproval)
    → claim_for w req caller c.operator_email docs ≡ p
    → 0 < applies (after_claim w req caller c p).commands
    → Backed w req caller docs c (after_claim w req caller c p).commands
unfolding applies
claimed-Backed w req caller docs c (docs', none) e h = absurd (omega arith)
claimed-Backed w req caller docs c (docs', some a) e h =
    let (md, found, bytes, created, passed, ran) =
      burned-Run w req caller c docs' (find? c.payload "metadata") h in
    let (once, cleared) =
      run_apply_sequence-Cleared (w.world bytes) (subst (λ cs. 0 < applies cs) ran h) in
    (
      a,
      ap (λ p. p.1) e,
      md,
      found,
      bytes,
      created,
      gates-Approved w.site c.payload md c.stored.body.payload_canonical req.generation_iac_tree
          bytes created passed,
      cleared,
      ap applies ran ∙ once,
    )

proceed-Backed :
    (w : Worker) (req : ApplyRequest) (caller : String) (docs : PlanDocs) (r : Reply Claim)
    → 0 < applies (proceed w req caller docs r).commands
    → (c : Claim) × (r ≡ answered c)
      × Backed w req caller docs c (proceed w req caller docs r).commands
unfolding applies
proceed-Backed w req caller docs (answered c) h = (
  c,
  refl,
  claimed-Backed w req caller docs c (claim_for w req caller c.operator_email docs) refl h,
)
proceed-Backed w req caller docs (http code) h = absurd (omega arith)
proceed-Backed w req caller docs crashed h = absurd (omega arith)

opened-answered :
    (w : Worker) (token : String) (a s : PlanApproval)
    → opened w token a ≡ answered s
    → (a ≡ s)
      × ((a.body.status =ₛ "pending") ≡ true)
      × (verify_plan_approval w.site.crypto token a w.hmac_key ≡ true)
unfolding opened
opened-answered w token a s = elim (Bool-cases (a.body.status =ₛ "pending")) [
  | inl y ↦ rw y (elim (Bool-cases (verify_plan_approval w.site.crypto token a w.hmac_key)) [
    | inl v ↦ rw v (λ e. (cc, refl, refl))
    | inr n ↦ rw n (λ e. absurd cc)
  ])
  | inr n ↦ rw n (λ e. absurd cc)
]

stored-answered :
    (o : Option PlanApproval) (a : PlanApproval) → stored_or_404 o ≡ answered a → o ≡ some a
stored-answered none a e = absurd cc
stored-answered (some b) a e = cc

dict-answered : (o : Option Json) (d : Fields) → dict_or_crash o ≡ answered d → o ≡ some (obj d)
dict-answered none d e = absurd cc
dict-answered (some (obj d')) d e = cc
dict-answered (some null) d e = absurd cc
dict-answered (some _) d e = absurd cc

unexpired-answered :
    (sp d : Fields) (r : Result Bool) → unexpired sp r ≡ answered d → (sp ≡ d) × (r ≡ ok false)
unexpired-answered sp d (ok true) e = absurd cc
unexpired-answered sp d (ok false) e = (cc, refl)
unexpired-answered sp d (raised f) e = absurd cc

item-answered : (o : Option Json) (j : Json) → item_or_crash o ≡ answered j → o ≡ some j
item-answered none j e = absurd cc
item-answered (some k) j e = cc

-- The approval was pending and not expired, the token opens it, and the operator is its approver.
abbrev pub Authorized : Worker → ApplyRequest → String → Option PlanApproval → Claim → Type 0
Authorized w req caller found c =
    (found ≡ some c.stored)
    × ((c.stored.body.status =ₛ "pending") ≡ true)
    × (verify_plan_approval w.site.crypto req.approval_token c.stored w.hmac_key ≡ true)
    × (signed_payload w.site.crypto c.stored ≡ some (obj c.payload))
    × (plan_approval_is_expired w.site.crypto c.stored (w.clock reading) ≡ ok false)
    × (approver : Json) × (find? c.payload "approver" ≡ some approver)
    × (verify_operator w req.operator_jwt approver caller ≡ answered c.operator_email)

pub authorize-Authorized :
    (w : Worker) (req : ApplyRequest) (caller : String) (found : Option PlanApproval) (c : Claim)
    → authorize w req caller found ≡ answered c
    → Authorized w req caller found c
unfolding authorize
authorize-Authorized w req caller found c e =
    let (read, e_read, e1) = >>=-eq-answered (stored_or_404 found) _ e in
    let (stored, e_opened, e2) = >>=-eq-answered (opened w req.approval_token read) _ e1 in
    let (sp, e_sp, e3) =
      >>=-eq-answered (dict_or_crash (signed_payload w.site.crypto stored)) _ e2 in
    let (current, e_current, e4) =
      >>=-eq-answered
        (unexpired sp (plan_approval_is_expired w.site.crypto stored (w.clock reading))) _ e3 in
    let (approver, e_approver, e5) =
      >>=-eq-answered (item_or_crash (find? current "approver")) _ e4 in
    let (email, e_email, e6) =
      >>=-eq-answered (verify_operator w req.operator_jwt approver caller) _ e5 in
    let (same_stored, pending, verified) =
      opened-answered w req.approval_token read stored e_opened in
    let (same_sp, alive) = unexpired-answered sp current _ e_current in
    let whole : Authorized w req caller found
        (record { stored = stored; payload = current; operator_email = email }) =
      (
        stored-answered found read e_read ∙ ap some same_stored,
        sym (ap (λ a. a.body.status =ₛ "pending") same_stored) ∙ pending,
        sym (
              ap (λ a. verify_plan_approval w.site.crypto req.approval_token a w.hmac_key)
                same_stored)
            ∙ verified,
        dict-answered _ sp e_sp ∙ ap (λ d. some (obj d)) same_sp,
        alive,
        approver,
        item-answered _ approver e_approver,
        e_email,
      ) in
    subst (Authorized w req caller found) (answered_inj _ c e6) whole
  where
    answered_inj : (x y : Claim) → answered x ≡ answered y → x ≡ y
    answered_inj x y h = cc

-- If `/apply` runs `tofu apply`, then it runs it once, and before that: the approval that it read was
-- pending, was opened by the token, and had not expired; the operator was bound to its approver; the
-- request won the claim; the gates passed the bytes that it ran on, which are those that the bucket holds
-- at the URI and the generation of the signed metadata, intact, for a plan with no violation of the
-- denylist, whose tree was verified if it creates, and which the resource guard admits; and on those
-- `tofu init` succeeded and the refresh found no drift or only drift explained as benign.
pub apply-Backed :
    (w : Worker) (req : ApplyRequest) (caller : String) (docs : PlanDocs)
    → 0 < applies (apply w req caller docs).commands
    → (c : Claim) × Authorized w req caller
        (get_plan_approval req.approval_id (w.others reading docs))
        c
      × Backed w req caller (w.others reading docs) c (apply w req caller docs).commands
unfolding apply
apply-Backed w req caller docs h =
    let now = w.others reading docs in
    let found = get_plan_approval req.approval_id now in
    let (c, e, backed) = proceed-Backed w req caller now (authorize w req caller found) h in
    (c, authorize-Authorized w req caller found c e, backed)
