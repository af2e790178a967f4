-- ===== src/Plan/Denylist/Parity.antt =====
-- A node that the infra surfaces flag is one that the denylist refuses to touch.
use driftscribe.Base.{
  String, true, false, List, [], ◌∷◌, ◌++◌, ◌≡◌, refl, sym, subst, inl, inr, ◌⊎◌, arith, All, ok,
  ◌≢◌, ◌∙◌,
}
use driftscribe.Base.Text.{contains}
use driftscribe.Base.Json.{Json, str, arr, Items, Fields, elems, get, dict_of, is_null}
use driftscribe.Plan.Denylist.Names.{
  Actions, control_plane_bucket_suffixes, control_plane_service_names,
  service_managed_bucket_suffixes, service_managed_bucket_prefixes, service_managed_pubsub_prefixes,
}
use driftscribe.Plan.Denylist.Checks.{
  is_mutation, is_service_managed_bucket_name, is_service_managed_pubsub_name,
}
use driftscribe.Plan.Denylist.Nodes.{node_matches, is_control_plane_node}
use driftscribe.Plan.Denylist.Protected.{Unprotected, Unlike, Spared}
use driftscribe.Plan.Denylist.Evaluate.{row, read_entry, evaluate}
use driftscribe.Plan.Denylist.Admission.{EntryAccepted, Passes, Accepted}
use driftscribe.Plan.Denylist.Pass.{evaluate_iff}

-- The resource type that a plan writes for an asset type.
pub data TypeOf : String → String → Type 0 where
  bucket : TypeOf "storage.googleapis.com/Bucket" "google_storage_bucket"
  service : TypeOf "run.googleapis.com/Service" "google_cloud_run_v2_service"
  topic : TypeOf "pubsub.googleapis.com/Topic" "google_pubsub_topic"
  subscription : TypeOf "pubsub.googleapis.com/Subscription" "google_pubsub_subscription"

-- What holds of both sides holds of the name that one of them carries.
either_side :
    (P : Json → Type 0) (before after : Json) (name : String)
    → (before ≡ str name) ⊎ (after ≡ str name)
    → P before
    → P after
    → P (str name)
either_side P before after name (inl e) b a = subst P e b
either_side P before after name (inr e) b a = subst P e a

-- A name that is flagged, on either side of the change, is protected whatever stands on the other.
flagged-Unprotected :
    {asset_type rtype : String} (before after : Fields) (name : String)
    → TypeOf asset_type rtype
    → node_matches asset_type name ≡ true
    → (get before "name" ≡ str name) ⊎ (get after "name" ≡ str name)
    → ¬ (Unprotected rtype before after)
unfolding node_matches contains is_service_managed_bucket_name is_service_managed_pubsub_name
flagged-Unprotected before after name bucket m e u =
    let (_, b, a) = u.bucket refl in
    let (mb, ma) = u.managed_bucket refl in
    let p = either_side (Unlike control_plane_bucket_suffixes []) _ _ name e b a in
    let q =
      either_side (Unlike service_managed_bucket_suffixes service_managed_bucket_prefixes) _ _ name
        e mb ma in
    ground arith
flagged-Unprotected before after name service m e u =
    let (_, b, a) = u.service refl in
    let p = either_side (Spared control_plane_service_names) _ _ name e b a in
    absurd (let f = sym m ∙ p in cc)
flagged-Unprotected before after name topic m e u =
    let (_, b, a) = u.pubsub refl in
    let p = either_side (Unlike [] service_managed_pubsub_prefixes) _ _ name e b a in ground arith
flagged-Unprotected before after name subscription m e u =
    let (_, b, a) = u.pubsub refl in
    let p = either_side (Unlike [] service_managed_pubsub_prefixes) _ _ name e b a in ground arith

All-middle :
    (P : Json → Type 0) (pre : List Json) (j : Json) (post : List Json)
    → All P (pre ++ (j ∷ post))
    → P j
All-middle P [] j post h = h.0
All-middle P (x ∷ pre) j post h = All-middle P pre j post h.1

Passes-entry :
    (changes : Json) {items : Items} (pre : List Json) (j : Json) (post : List Json)
    → changes ≡ arr items
    → elems items ≡ pre ++ (j ∷ post)
    → Passes changes
    → EntryAccepted (read_entry j)
Passes-entry changes pre j post c e p =
    All-middle (λ j. EntryAccepted (read_entry j)) pre j post (rw e at ((rw c at p).accepted))

-- A plan never passes with an entry of one of the four adoptable types whose actions are a mutation, or
-- that imports, if `is_control_plane_node` flags, for the asset type, a name that the entry has before
-- the change or after it.
pub flagged_never_passes :
    (plan : Fields) (items : Items) (pre : List Json) (j : Json) (post : List Json) (rc : Fields)
    (asset_type rtype name : String) (change : Fields) (actions : Actions)
    → get plan "resource_changes" ≡ arr items
    → elems items ≡ pre ++ (j ∷ post)
    → read_entry j ≡ row rc rtype change actions
    → (is_mutation actions ≡ true) ⊎ (is_null (get change "importing") ≡ false)
    → TypeOf asset_type rtype
    → (get (dict_of (get change "before")) "name" ≡ str name)
      ⊎ (get (dict_of (get change "after")) "name" ≡ str name)
    → is_control_plane_node asset_type (str name) ≡ true
    → evaluate plan ≢ ok []
unfolding is_control_plane_node
flagged_never_passes plan items pre j post rc asset_type rtype name change actions c e r active t n
      flagged passed =
    let entry =
      Passes-entry (get plan "resource_changes") pre j post c e ((evaluate_iff plan).0 passed) in
    let accepted : Accepted rtype change actions = rw r at entry in
    flagged-Unprotected (dict_of (get change "before")) (dict_of (get change "after")) name t
      (ground arith) n (accepted.unprotected active)
