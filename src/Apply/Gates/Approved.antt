-- ===== src/Apply/Gates/Approved.antt =====
-- What the gates of `/apply` (workers/tofu_apply/main.py) let through.
use driftscribe.Base.{
  String, Bool, true, false, Option, none, some, List, [], ◌∷◌, Result, ok, raised, ◌≡◌, refl, sym,
  subst, ◌∙◌, ap,
}
use driftscribe.Base.Json.{Json, null, obj, Fields, get}
use driftscribe.Base.Value.{find?}
use driftscribe.Apply.Fetch.{fetch_artifact}
use driftscribe.Plan.Denylist.Rules.{Violation}
use driftscribe.Plan.Denylist.Evaluate.{evaluate, load_plan_json}
use driftscribe.Plan.Classify.{plan_has_create}
use driftscribe.Signed.Store.{Integrity, verify_artifact_integrity}
use driftscribe.Apply.Guard.{
  Refusal, Infidelity, is_text, assert_fidelity, resource_set_guard, guarded, version_mismatch,
  lockfile_mismatch,
}
use driftscribe.Apply.Gates.{
  Refused, integrity_refused, verify_refused, Gate, pass, refuse, crash, ◌>>=◌, Site, item,
  or_refuse, caught, dict_or_refuse, fetched, reproduced, intact, parsed,
  fetch_and_verify_artifacts, unviolated, denylist_or_raise, probed, faithful, fidelity_or_raise,
  tree_gate, verify_iac_tree_or_raise, gates,
}

pub >>=-eq-pass :
    {A B : Type 0} (m : Gate A) (next : A → Gate B) {y : B}
    → m >>= next ≡ pass y
    → (x : A) × (m ≡ pass x) × (next x ≡ pass y)
>>=-eq-pass (pass x) next e = (x, refl, e)
>>=-eq-pass (refuse r) next e = absurd cc
>>=-eq-pass crash next e = absurd cc

unviolated-eq-pass : (r : Result (List Violation)) → unviolated r ≡ pass tt → r ≡ ok []
unviolated-eq-pass (ok []) e = refl
unviolated-eq-pass (ok (v ∷ vs)) e = absurd cc
unviolated-eq-pass (raised f) e = absurd cc

pub dict_or_refuse-eq-pass :
    (r : Refused) (j : Json) (d : Fields) → dict_or_refuse r j ≡ pass d → j ≡ obj d
dict_or_refuse-eq-pass r (obj d') d e = cc
dict_or_refuse-eq-pass r null d e = absurd cc
dict_or_refuse-eq-pass r _ d e = absurd cc

faithful-eq-pass : (o : Option Infidelity) → faithful o ≡ pass tt → o ≡ none
faithful-eq-pass none e = refl
faithful-eq-pass (some f) e = absurd cc

caught-eq-pass : {A : Type 0} (r : Result A) (x : A) → caught r ≡ pass x → r ≡ ok x
caught-eq-pass (ok y) x e = cc
caught-eq-pass (raised f) x e = absurd cc

intact-eq-pass : (o : Option Integrity) → intact o ≡ pass tt → o ≡ none
intact-eq-pass none e = refl
intact-eq-pass (some f) e = absurd cc

-- The fidelity check ends in the guard on the plan's resources.
assert_fidelity-guard :
    (md : Fields) (v l : String) (plan : Fields) (declared : List String) (c i : Bool)
    → assert_fidelity md v l plan declared c i ≡ none
    → resource_set_guard plan declared c i ≡ none
unfolding assert_fidelity
assert_fidelity-guard md v l plan declared c i =
    go (is_text (get md "opentofu_version") v) (is_text (get md "provider_lockfile_sha256") l)
      (resource_set_guard plan declared c i)
  where
    go :
        (a b : Bool) (o : Option Refusal)
        → (driftscribe.Base.if◌then◌else◌ (driftscribe.Base.not a) (some version_mismatch) (
            driftscribe.Base.if◌then◌else◌
              (driftscribe.Base.not b)
              (some lockfile_mismatch)
              (guarded o)))
          ≡ none
        → o ≡ none
    go true true none e = refl
    go true true (some r) e = absurd cc
    go true false o e = absurd cc
    go false b o e = absurd cc

pub or_refuse-eq-pass :
    {A : Type 0} (r : Refused) (o : Option A) (x : A) → or_refuse r o ≡ pass x → o ≡ some x
or_refuse-eq-pass r none x e = absurd cc
or_refuse-eq-pass r (some y) x e = cc

-- What the bucket holds for the artifact that the metadata name by a URI and a generation.
abbrev pub Held : Site → Fields → String → String → String → String → Type 0
Held w md uri_key generation_key basename bytes =
    (uri : Json) × (find? md uri_key ≡ some uri)
    × (generation : Json) × (find? md generation_key ≡ some generation)
    × (fetch_artifact w.bucket uri generation basename ≡ some bytes)

-- A plan and the bytes of its saved form: those that the bucket holds at the URI and the generation of
-- the metadata, intact and parsed.
abbrev pub Fetched : Site → Fields → Fields → String → Type 0
Fetched w md plan plan_bytes =
    Held w md "artifact_uri_plan" "generation_plan" "plan.tfplan" plan_bytes
    × (json_bytes : String) × Held w md "artifact_uri_json" "generation_json" "plan.json" json_bytes
    × (plan_sha256 : Json) × (plan_json_sha256 : Json) × (item md "plan_sha256" ≡ pass plan_sha256)
    × (item md "plan_json_sha256" ≡ pass plan_json_sha256)
    × (verify_artifact_integrity w.crypto plan_bytes json_bytes plan_sha256 plan_json_sha256
        ≡ ok none)
    × (text : String) × (w.decode json_bytes ≡ some text)
    × (load_plan_json w.crypto.loads text ≡ (some plan, none))

fetched-Held :
    (w : Site) (md : Fields) (uri_key generation_key basename bytes : String)
    → fetched w md uri_key generation_key basename ≡ pass bytes
    → Held w md uri_key generation_key basename bytes
unfolding fetched item
fetched-Held w md uri_key generation_key basename bytes e =
    let (uri, e_uri, e1) = >>=-eq-pass (or_refuse verify_refused (find? md uri_key)) _ e in
    let (generation, e_generation, e2) =
      >>=-eq-pass (or_refuse verify_refused (find? md generation_key)) _ e1 in
    (
      uri,
      or_refuse-eq-pass verify_refused _ uri e_uri,
      generation,
      or_refuse-eq-pass verify_refused _ generation e_generation,
      or_refuse-eq-pass integrity_refused _ bytes e2,
    )

parsed-eq-pass :
    (p : Option Fields × Option Violation) (plan : Fields)
    → parsed p ≡ pass plan
    → p ≡ (some plan, none)
parsed-eq-pass (some q, none) plan e = let same : q ≡ plan = cc in ap (λ x. (some x, none)) same
parsed-eq-pass (some q, some v) plan e = absurd cc
parsed-eq-pass (none, o) plan e = absurd cc

pub pass_inj : {A : Type 0} (x y : A) → pass x ≡ pass y → x ≡ y
pass_inj x y e = cc

pass_lem : {A B : Type 0} (p q : A × B) → pass p ≡ pass q → (p.0 ≡ q.0) × (p.1 ≡ q.1)
pass_lem p q e = (ap (λ x. x.0) (pass_inj p q e), ap (λ x. x.1) (pass_inj p q e))

fetch_and_verify_artifacts-Fetched :
    (w : Site) (md plan : Fields) (bytes : String)
    → fetch_and_verify_artifacts w md ≡ pass (plan, bytes)
    → Fetched w md plan bytes
unfolding fetch_and_verify_artifacts
fetch_and_verify_artifacts-Fetched w md plan bytes e =
    let (plan_bytes, e_held, e1) =
      >>=-eq-pass (fetched w md "artifact_uri_plan" "generation_plan" "plan.tfplan") _ e in
    let (json_bytes, e_json_held, e2) =
      >>=-eq-pass (fetched w md "artifact_uri_json" "generation_json" "plan.json") _ e1 in
    let (sha, e_sha, e3) = >>=-eq-pass (item md "plan_sha256") _ e2 in
    let (json_sha, e_json_sha, e4) = >>=-eq-pass (item md "plan_json_sha256") _ e3 in
    let (integrity, e_integrity, e5) =
      >>=-eq-pass (caught (verify_artifact_integrity w.crypto plan_bytes json_bytes sha json_sha)) _
        e4 in
    let (_, e_intact, e6) = >>=-eq-pass (intact integrity) _ e5 in
    let (text, e_text, e7) = >>=-eq-pass (or_refuse verify_refused (w.decode json_bytes)) _ e6 in
    let (plan', e_plan, e8) = >>=-eq-pass (parsed (load_plan_json w.crypto.loads text)) _ e7 in
    let (same_plan, same_bytes) = pass_lem (plan', plan_bytes) (plan, bytes) e8 in
    subst (λ p. Fetched w md p bytes) same_plan
      (subst (λ b. Fetched w md plan' b) same_bytes
        (
          fetched-Held w md _ _ _ plan_bytes e_held,
          json_bytes,
          fetched-Held w md _ _ _ json_bytes e_json_held,
          sha,
          json_sha,
          e_sha,
          e_json_sha,
          caught-eq-pass _ _ e_integrity ∙ ap ok (intact-eq-pass integrity e_intact),
          text,
          or_refuse-eq-pass verify_refused (w.decode json_bytes) text e_text,
          parsed-eq-pass (load_plan_json w.crypto.loads text) plan' e_plan,
        ))

-- What the gates establish before OpenTofu runs on the bytes of a plan.
abbrev pub Approved : Site → Fields → Json → String → Option String → String → Bool → Type 0
Approved w sp signed_md canonical generation bytes created =
    (reproduced w sp canonical ≡ pass tt)
    × (md : Fields) × (signed_md ≡ obj md)
    × (plan : Fields) × Fetched w md plan bytes
    × (evaluate plan ≡ ok [])
    × (created ≡ plan_has_create (obj plan))
    × (tree_gate created (verify_iac_tree_or_raise w md (get sp "artifact_uri_metadata") generation)
        ≡ pass tt)
    × (resource_set_guard plan w.declared created created ≡ none)

-- The gates pass only a plan that has been fetched intact from where the signed payload says, which the
-- denylist passes, whose tree has been verified if it creates or imports, and which the guard passes.
pub gates-Approved :
    (w : Site) (sp : Fields) (signed_md : Json) (canonical : String) (generation : Option String)
    (bytes : String) (created : Bool)
    → gates w sp signed_md canonical generation ≡ pass (bytes, created)
    → Approved w sp signed_md canonical generation bytes created
unfolding gates denylist_or_raise fidelity_or_raise
gates-Approved w sp signed_md canonical generation bytes created e =
    let (_, e_reproduced, e1) = >>=-eq-pass (reproduced w sp canonical) _ e in
    let (md, e_md, e2) = >>=-eq-pass (dict_or_refuse verify_refused signed_md) _ e1 in
    let ((plan, plan_bytes), e_fetched, e3) = >>=-eq-pass (fetch_and_verify_artifacts w md) _ e2 in
    let (_, e_clean, e4) = >>=-eq-pass (unviolated (evaluate plan)) _ e3 in
    let (_, e_tree, e5) =
      >>=-eq-pass
        (tree_gate (plan_has_create (obj plan))
          (verify_iac_tree_or_raise w md (get sp "artifact_uri_metadata") generation))
        _ e4 in
    let (_, e_fidelity, e6) =
      >>=-eq-pass (fidelity_or_raise w md plan (plan_has_create (obj plan))) _ e5 in
    let (baked, _, e_faithful) = >>=-eq-pass (probed w.probe) _ e_fidelity in
    let (same_bytes, same_created) =
      pass_lem (plan_bytes, plan_has_create (obj plan)) (bytes, created) e6 in
    (
      e_reproduced,
      md,
      dict_or_refuse-eq-pass verify_refused signed_md md e_md,
      plan,
      fetch_and_verify_artifacts-Fetched w md plan bytes
          (e_fetched ∙ ap (λ b. pass (plan, b)) same_bytes),
      unviolated-eq-pass (evaluate plan) e_clean,
      sym same_created,
      subst
          (λ c.
            tree_gate c (verify_iac_tree_or_raise w md (get sp "artifact_uri_metadata") generation)
            ≡ pass tt)
          same_created e_tree,
      subst (λ c. resource_set_guard plan w.declared c c ≡ none) same_created
          (assert_fidelity-guard md baked w.lockfile_sha256 plan w.declared _ _
            (faithful-eq-pass _ e_faithful)),
    )
