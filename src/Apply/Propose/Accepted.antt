-- ===== src/Apply/Propose/Accepted.antt =====
-- What `/propose` mints, the gates of `/apply` accept (workers/tofu_apply/main.py).
use driftscribe.Base.{
  String, Bool, true, false, ◌||◌, Option, some, List, [], ◌∷◌, ok, require, require-eq-ok,
  >>-eq-ok, >>=-eq-ok, ◌≡◌, refl, sym, subst, ◌∙◌, ap, arith, eq_iff, Bool-cases, inl, inr,
}
use driftscribe.Base.Text.{◌=ₛ◌, contains}
use driftscribe.Base.Sorted.{sorted_names, insert, precedes}
use driftscribe.Base.Json.{Json, str, obj, Fields, end, field, get}
use driftscribe.Base.Value.{find?}
use driftscribe.Plan.Classify.{plan_has_create}
use driftscribe.Signed.Metadata.{metadata_of, equals, metadata_schema_version}
use driftscribe.Signed.Payload.{
  Binding, keys, same_texts, c2_metadata_keys, inputs_of, check_metadata, payload_of,
  build_plan_approval_payload,
}
use driftscribe.Signed.Payload.Rebuilt.{build_from-Built}
use driftscribe.Signed.Minted.{eq_self}
use driftscribe.Signed.Store.{canonicalize_payload}
use driftscribe.Apply.Drift.Diff.{contains-sorted_names}
use driftscribe.Apply.Fetch.{fetch_artifact}
use driftscribe.Apply.Guard.{assert_fidelity}
use driftscribe.Apply.Gates.{
  Gate, pass, integrity_refused, verify_refused, ◌>>=◌, Site, or_refuse, item, signed_text,
  binding_of, fetched, reproduced, verified_parts, dict_or_refuse, fetch_and_verify_artifacts,
  denylist_or_raise, tree_gate, same_fields, verify_iac_tree_or_raise, fidelity_or_raise, gates,
}
use driftscribe.Apply.Gates.Approved.{
  >>=-eq-pass, pass_inj, dict_or_refuse-eq-pass, or_refuse-eq-pass,
}
use driftscribe.Apply.Propose.{ProposeRequest, examined, binding_for}

-- A key that is there has its value.
find?-get : (md : Fields) (k : String) → contains (keys md) k ≡ true → find? md k ≡ some (get md k)
unfolding keys contains find? get
find?-get end k = λ e. absurd cc
find?-get (field key v rest) k = elim (Bool-cases (key =ₛ k)) [
  | inl same ↦ λ e. rw same (refl)
  | inr other ↦ λ e. rw other (find?-get rest k (later_key key k (contains (keys rest) k) other e))
]
  where
    later_key : (key k : String) (b : Bool) → (key =ₛ k) ≡ false → (k =ₛ key || b) ≡ true → b ≡ true
    later_key key k b other e = ground (arith, eq_iff key k, eq_iff k key)

same_texts_lem : (xs ys : List String) → same_texts xs ys ≡ true → xs ≡ ys
unfolding same_texts
same_texts_lem [] [] e = refl
same_texts_lem [] (y ∷ ys) e = absurd cc
same_texts_lem (x ∷ xs) [] e = absurd cc
same_texts_lem (x ∷ xs) (y ∷ ys) e =
    let first : x ≡ y = ground (arith, eq_iff x y) in
    let rest = same_texts_lem xs ys (ground arith) in cc

-- Metadata that pass the check on their keys have each of the fifteen.
has_key :
    (md : Fields) (k : String)
    → check_metadata md ≡ ok tt
    → contains (sorted_names c2_metadata_keys) k ≡ true
    → find? md k ≡ some (get md k)
unfolding check_metadata
has_key md k e known =
    let (listed, _) =
      (>>-eq-ok
          (require (same_texts (sorted_names (keys md)) (sorted_names c2_metadata_keys))
            "metadata keys")
          (require (equals metadata_schema_version (get md "schema_version"))
            "metadata.schema_version")).0
        e in
    let same =
      same_texts_lem (sorted_names (keys md)) (sorted_names c2_metadata_keys)
        ((require-eq-ok _ _).0 listed) in
    find?-get md k (sym (contains-sorted_names (keys md) k) ∙ ap (λ xs. contains xs k) same ∙ known)

item-known :
    (md : Fields) (k : String)
    → check_metadata md ≡ ok tt
    → contains (sorted_names c2_metadata_keys) k ≡ true
    → item md k ≡ pass (get md k)
unfolding item
item-known md k e known = ap (or_refuse verify_refused) (has_key md k e known)

-- The metadata that are signed, for those that passed the checks.
abbrev canonical : Fields → Fields
canonical md = metadata_of (inputs_of md)

-- What is fetched for two values.
abbrev fetch_of : Site → String → Gate Json → Gate Json → Gate String
fetch_of w basename uri generation = uri >>= λ u.
    generation >>= λ g. or_refuse integrity_refused (fetch_artifact w.bucket u g basename)

fetched-canonical :
    (w : Site) (md : Fields)
    → check_metadata md ≡ ok tt
    → (fetched w (canonical md) "artifact_uri_plan" "generation_plan" "plan.tfplan"
        ≡ fetched w md "artifact_uri_plan" "generation_plan" "plan.tfplan")
      × (fetched w (canonical md) "artifact_uri_json" "generation_json" "plan.json"
          ≡ fetched w md "artifact_uri_json" "generation_json" "plan.json")
unfolding fetched item find? get contains sorted_names insert precedes
fetched-canonical w md e = (
  ap (λ x. fetch_of w "plan.tfplan" x (pass (get md "generation_plan")))
        (sym (item-known md "artifact_uri_plan" e refl))
      ∙ ap (λ x. fetch_of w "plan.tfplan" (item md "artifact_uri_plan") x)
          (sym (item-known md "generation_plan" e refl)),
  ap (λ x. fetch_of w "plan.json" x (pass (get md "generation_json")))
        (sym (item-known md "artifact_uri_json" e refl))
      ∙ ap (λ x. fetch_of w "plan.json" (item md "artifact_uri_json") x)
          (sym (item-known md "generation_json" e refl)),
)

fetch_and_verify_artifacts-canonical :
    (w : Site) (md : Fields)
    → check_metadata md ≡ ok tt
    → fetch_and_verify_artifacts w (canonical md) ≡ fetch_and_verify_artifacts w md
unfolding fetch_and_verify_artifacts item find? get contains sorted_names insert precedes
fetch_and_verify_artifacts-canonical w md e =
    let (plan_same, json_same) = fetched-canonical w md e in
    let json_fetched = fetched w (canonical md) "artifact_uri_json" "generation_json" "plan.json" in
    let plan_fetched = fetched w md "artifact_uri_plan" "generation_plan" "plan.tfplan" in
    ap
      (λ x.
        verified_parts w x json_fetched (pass (get md "plan_sha256"))
          (pass (get md "plan_json_sha256")))
      plan_same
    ∙ ap
        (λ x.
          verified_parts w plan_fetched x (pass (get md "plan_sha256"))
            (pass (get md "plan_json_sha256")))
        json_same
    ∙ ap
        (λ x.
          verified_parts w plan_fetched
            (fetched w md "artifact_uri_json" "generation_json" "plan.json") x
            (pass (get md "plan_json_sha256")))
        (sym (item-known md "plan_sha256" e refl))
    ∙ ap
        (λ x.
          verified_parts w plan_fetched
            (fetched w md "artifact_uri_json" "generation_json" "plan.json") (item md "plan_sha256")
            x)
        (sym (item-known md "plan_json_sha256" e refl))

-- The other gates read the same values in both.
tree-canonical :
    (w : Site) (md : Fields) (uri : Json) (generation : Option String)
    → verify_iac_tree_or_raise w (canonical md) uri generation
      ≡ verify_iac_tree_or_raise w md uri generation
unfolding verify_iac_tree_or_raise same_fields get
tree-canonical w md uri generation = refl

fidelity-canonical :
    (w : Site) (md plan : Fields) (allow : Bool)
    → fidelity_or_raise w (canonical md) plan allow ≡ fidelity_or_raise w md plan allow
unfolding fidelity_or_raise assert_fidelity get
fidelity-canonical w md plan allow = refl

-- The signed payload reproduces itself, while the bucket holds the metadata that were signed.
reproduced-payload :
    (w : Site) (md : Fields) (b : Binding) (meta_bytes : String)
    → fetch_artifact w.bucket
        (str b.artifact_uri_metadata)
        (str b.generation_metadata)
        "metadata.json"
      ≡ some meta_bytes
    → w.loads_bytes meta_bytes ≡ some (obj md)
    → build_plan_approval_payload w.crypto.calendar (obj md) b ≡ ok (payload_of (canonical md) b)
    → reproduced w
        (payload_of (canonical md) b)
        (canonicalize_payload w.crypto (payload_of (canonical md) b))
      ≡ pass tt
unfolding reproduced fetched item binding_of signed_text find?
reproduced-payload w md b meta_bytes e_meta e_loaded e_built = rw e_meta (
    rw e_loaded
      (rw e_built (rw (eq_self (canonicalize_payload w.crypto (payload_of (canonical md) b))))))

-- The gates pass what `/propose` examined, once its payload is built and while the site stays the same.
abbrev pub Accepts : Site → Fields → Option String → Type 0
Accepts w payload generation =
    (md : Json) × (find? payload "metadata" ≡ some md)
    × (bytes : String) × (created : Bool) × (gates w payload md
          (canonicalize_payload w.crypto payload) generation
        ≡ pass (bytes, created))

payload-Accepts :
    (w : Site) (md plan : Fields) (b : Binding) (generation : Option String) (bytes : String)
    → reproduced w
        (payload_of (canonical md) b)
        (canonicalize_payload w.crypto (payload_of (canonical md) b))
      ≡ pass tt
    → fetch_and_verify_artifacts w (canonical md) ≡ pass (plan, bytes)
    → denylist_or_raise plan ≡ pass tt
    → tree_gate
        (plan_has_create (obj plan))
        (verify_iac_tree_or_raise w (canonical md) (str b.artifact_uri_metadata) generation)
      ≡ pass tt
    → fidelity_or_raise w (canonical md) plan (plan_has_create (obj plan)) ≡ pass tt
    → Accepts w (payload_of (canonical md) b) generation
unfolding gates find? get
payload-Accepts w md plan b generation bytes e1 e2 e3 e4 e5 = (
  obj (canonical md),
  refl,
  bytes,
  plan_has_create (obj plan),
  rw e1 (rw e2 (rw e3 (rw e4 (rw e5)))),
)

pub examined-Accepts :
    (w : Site) (req : ProposeRequest) (md p : Fields) (issued_at expires_at : String)
    → examined w req ≡ pass md
    → build_plan_approval_payload w.crypto.calendar (obj md) (binding_for req issued_at expires_at)
      ≡ ok p
    → Accepts w p req.generation_iac_tree
unfolding examined build_plan_approval_payload
examined-Accepts w req md p issued_at expires_at e e_built =
    let b = binding_for req issued_at expires_at in
    let (meta_bytes, e_meta, e1) =
      >>=-eq-pass
        (or_refuse integrity_refused (
          fetch_artifact w.bucket (str req.artifact_uri_metadata) (str req.generation_metadata)
            "metadata.json"))
        _ e in
    let (loaded, e_loaded, e2) =
      >>=-eq-pass (or_refuse verify_refused (w.loads_bytes meta_bytes)) _ e1 in
    let (d, e_dict, e3) = >>=-eq-pass (dict_or_refuse verify_refused loaded) _ e2 in
    let ((plan, bytes), e_fetched, e4) = >>=-eq-pass (fetch_and_verify_artifacts w d) _ e3 in
    let (_, e_clean, e5) = >>=-eq-pass (denylist_or_raise plan) _ e4 in
    let (_, e_tree, e6) =
      >>=-eq-pass
        (tree_gate (plan_has_create (obj plan))
          (verify_iac_tree_or_raise w d (str req.artifact_uri_metadata) req.generation_iac_tree))
        _ e5 in
    let (_, e_fidelity, e7) =
      >>=-eq-pass (fidelity_or_raise w d plan (plan_has_create (obj plan))) _ e6 in
    let same : d ≡ md = pass_inj d md e7 in
    let (_, e_keys, _) = >>=-eq-ok (check_metadata md) _ e_built in
    let (_, _, is_payload) = build_from-Built w.crypto.calendar b md p e_built in
    let at_md : loaded ≡ obj md =
      dict_or_refuse-eq-pass verify_refused loaded d e_dict ∙ ap obj same in
    subst (λ x. Accepts w x req.generation_iac_tree) (sym is_payload)
      (payload-Accepts w md plan b req.generation_iac_tree bytes
        (reproduced-payload w md b meta_bytes
          (or_refuse-eq-pass integrity_refused _ meta_bytes e_meta)
          (or_refuse-eq-pass verify_refused _ loaded e_loaded ∙ ap some at_md)
          (e_built ∙ ap ok is_payload))
        (fetch_and_verify_artifacts-canonical w md e_keys
          ∙ subst (λ x. fetch_and_verify_artifacts w x ≡ pass (plan, bytes)) same e_fetched)
        e_clean
        (ap (tree_gate (plan_has_create (obj plan)))
            (tree-canonical w md (str req.artifact_uri_metadata) req.generation_iac_tree)
          ∙ subst
              (λ x.
                tree_gate (plan_has_create (obj plan)) (
                  verify_iac_tree_or_raise w x (str req.artifact_uri_metadata)
                    req.generation_iac_tree)
                ≡ pass tt)
              same e_tree)
        (fidelity-canonical w md plan (plan_has_create (obj plan))
          ∙ subst (λ x. fidelity_or_raise w x plan (plan_has_create (obj plan)) ≡ pass tt) same
              e_fidelity))
