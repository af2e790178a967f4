-- ===== src/Apply/Propose/Minted.antt =====
-- What `/propose` of workers/tofu_apply/main.py mints.
use driftscribe.Base.{ℕ, String, Option, some, Result, ok, raised, ◌≡◌, refl, sym, subst, ◌∙◌, ap}
use driftscribe.Base.Json.{str, obj, Fields}
use driftscribe.Base.Value.{find?}
use driftscribe.Signed.Payload.{Calendar, build_plan_approval_payload}
use driftscribe.Signed.Payload.Rebuilt.{build_from-Built}
use driftscribe.Rollback.Http.{Reply, answered, http, crashed}
use driftscribe.Signed.Store.{PlanApproval, PlanDocs, create, new_doc, canonicalize_payload}
use driftscribe.Signed.Minted.{create-Minted}
use driftscribe.Apply.Gates.{Gate, pass, refuse, crash}
use driftscribe.Apply.Worker.{Worker, ending, verify_operator}
use driftscribe.Apply.Propose.{
  ProposeRequest, examined, binding_for, signable, bound, payload_for, minted, sign, verified,
  propose,
}
use driftscribe.Apply.Propose.Accepted.{Accepts, examined-Accepts}

minted_lem :
    (docs docs' : PlanDocs) (r : Result (PlanDocs × (PlanApproval × String))) (a : PlanApproval)
    (t : String)
    → minted docs r ≡ (docs', answered (a, t))
    → r ≡ ok (docs', (a, t))
minted_lem docs docs' (ok (d, g)) a t e =
    let given : g ≡ (a, t) = answered_inj g (a, t) (ap (λ x. x.1) e) in
    ap (λ x. ok (x, g)) (ap (λ x. x.0) e) ∙ ap (λ x. ok (docs', x)) given
  where
    answered_inj : (x y : PlanApproval × String) → answered x ≡ answered y → x ≡ y
    answered_inj x y h = cc
minted_lem docs docs' (raised f) a t e =
    absurd (let clash : crashed ≡ answered (a, t) = ap (λ x. x.1) e in cc)

signable-eq-answered : (r : Result Fields) (p : Fields) → signable r ≡ answered p → r ≡ ok p
signable-eq-answered (ok q) p e = cc
signable-eq-answered (raised f) p e = absurd cc

-- The payload names the approver and the metadata object of the request.
abbrev pub Binds : ProposeRequest → Fields → Type 0
Binds req payload =
    (find? payload "approver" ≡ some (str req.approver))
    × (find? payload "artifact_uri_metadata" ≡ some (str req.artifact_uri_metadata))
    × (find? payload "generation_metadata" ≡ some (str req.generation_metadata))

-- A payload that is built for a request binds what the request names.
built-Binds :
    (cal : Calendar) (req : ProposeRequest) (md p : Fields) (issued_at expires_at : String)
    → build_plan_approval_payload cal (obj md) (binding_for req issued_at expires_at) ≡ ok p
    → Binds req p
unfolding build_plan_approval_payload find?
built-Binds cal req md p issued_at expires_at e =
    let (_, _, same) = build_from-Built cal (binding_for req issued_at expires_at) md p e in
    subst (Binds req) (sym same) (refl, refl, refl)

-- A payload that is to be signed for a request.
abbrev Offered : Worker → ProposeRequest → Fields → Type 0
Offered w req p = Binds req p × Accepts w.site p req.generation_iac_tree

bound-Offered :
    (w : Worker) (req : ProposeRequest) (md p : Fields) (window : Result (String × String))
    → examined w.site req ≡ pass md
    → bound w req md window ≡ answered p
    → Offered w req p
bound-Offered w req md p (raised f) passed e = absurd cc
bound-Offered w req md p (ok (issued_at, expires_at)) passed e =
    let built = signable-eq-answered _ p e in
    (
      built-Binds w.site.crypto.calendar req md p issued_at expires_at built,
      examined-Accepts w.site req md p issued_at expires_at passed built,
    )

payload_for-Offered :
    (w : Worker) (iso : ℕ → String) (req : ProposeRequest) (g : Gate Fields) (p : Fields)
    → examined w.site req ≡ g
    → payload_for w iso req g ≡ answered p
    → Offered w req p
unfolding payload_for
payload_for-Offered w iso req (pass md) p passed e = bound-Offered w req md p _ passed e
payload_for-Offered w iso req (refuse r) p passed e = absurd cc
payload_for-Offered w iso req crash p passed e = absurd cc

-- The approval that was minted carries the text of a payload that binds what the request names, and
-- that the gates accept.
abbrev pub Carries : Worker → ProposeRequest → PlanApproval → Type 0
Carries w req a =
    (payload : Fields) × (a.body.status ≡ "pending")
    × (a.body.payload_canonical ≡ canonicalize_payload w.site.crypto payload)
    × Binds req payload
    × Accepts w.site payload req.generation_iac_tree

sign-Carries :
    (w : Worker) (caller id token : String) (docs docs' : PlanDocs) (r : Reply Fields)
    (a : PlanApproval) (t : String) (req : ProposeRequest)
    → ((p : Fields) → r ≡ answered p → Offered w req p)
    → sign w caller id token docs r ≡ (docs', answered (a, t))
    → Carries w req a
unfolding new_doc
sign-Carries w caller id token docs docs' (answered p) a t req offers e =
    let made =
      minted_lem docs docs'
        (create w.site.crypto p w.hmac_key caller id token (w.clock ending) docs) a t e in
    let (expires, pr, head, _, same, _) =
      create-Minted w.site.crypto p w.hmac_key caller id token (w.clock ending) docs docs' a t
        made in
    let (binds, accepted) = offers p refl in
    (p, ap (λ x. x.body.status) same, ap (λ x. x.body.payload_canonical) same, binds, accepted)
sign-Carries w caller id token docs docs' (http code) a t req offers e =
    absurd (let clash : http code ≡ answered (a, t) = ap (λ x. x.1) e in cc)
sign-Carries w caller id token docs docs' crashed a t req offers e =
    absurd (let clash : crashed ≡ answered (a, t) = ap (λ x. x.1) e in cc)

verified-Carries :
    (w : Worker) (iso : ℕ → String) (req : ProposeRequest) (caller id token : String)
    (docs docs' : PlanDocs) (r : Reply (Option String)) (a : PlanApproval) (t : String)
    → verified w iso req caller id token docs r ≡ (docs', answered (a, t))
    → ((email : Option String) × (r ≡ answered email)) × Carries w req a
verified-Carries w iso req caller id token docs docs' (answered email) a t e = (
  (email, refl),
  sign-Carries w caller id token (w.others ending docs) docs'
      (payload_for w iso req (examined w.site req)) a t req
      (λ p. payload_for-Offered w iso req (examined w.site req) p refl) e,
)
verified-Carries w iso req caller id token docs docs' (http code) a t e =
    absurd (let clash : http code ≡ answered (a, t) = ap (λ x. x.1) e in cc)
verified-Carries w iso req caller id token docs docs' crashed a t e =
    absurd (let clash : crashed ≡ answered (a, t) = ap (λ x. x.1) e in cc)

-- If `/propose` returns an approval, then the operator was verified for the approver of the request, and
-- the approval is pending and carries the text of a payload that names this approver and the metadata
-- object and generation of the request, and that the gates of `/apply` pass, for the same generation of
-- the tree, as long as the bucket and the image of the worker are what they were.
pub propose-Carries :
    (w : Worker) (iso : ℕ → String) (req : ProposeRequest) (caller id token : String)
    (docs docs' : PlanDocs) (a : PlanApproval) (t : String)
    → propose w iso req caller id token docs ≡ (docs', answered (a, t))
    → ((email : Option String) × (verify_operator w req.operator_jwt (str req.approver) caller
          ≡ answered email))
      × Carries w req a
unfolding propose
propose-Carries w iso req caller id token docs docs' a t e =
    verified-Carries w iso req caller id token docs docs'
      (verify_operator w req.operator_jwt (str req.approver) caller) a t e
