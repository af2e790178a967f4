-- ===== src/Apply/Drift.antt =====
-- workers/tofu_apply/tofu_runner.py: `classify_refresh_drift` and what it calls. A verdict keeps its
-- paths and leaves out the wording of its reason; Python's limit on nesting is not modelled.
pub mod Classify
pub mod Diff
pub mod Benign
use Prim.Native.Char.{code}
use Prim.Native.Nat.{zero}
use Prim.Native.String
use driftscribe.Base.{
  ℕ, suc, String, Bool, true, false, not, ◌&&◌, ◌||◌, Option, none, some, List, [], ◌∷◌, ◌++◌, map,
  Result, ok, raised, type_error, ◌>>=◌, if◌then◌else◌, ◌==◌, ◌≡◌, refl,
}
use driftscribe.Base.Text.{◌=ₛ◌, starts_with, contains}
use driftscribe.Base.Json.{
  Json, null, bool, num, str, arr, obj, Items, nil, cons, Fields, end, field, elems, get, get_or,
  is_null,
}
use driftscribe.Base.Value.{Python, shown_value, find?, json_eq, is_truthy}
use driftscribe.Base.Sorted.{sorted_names}
use driftscribe.Plan.Classify.{is_quiet_list}

pub record DriftAllowlist : Type 0 where
  pub paths : List String
  pub subtrees : List String
  pub normalization_paths : List String

abbrev pub cloud_run_allowlist : DriftAllowlist
cloud_run_allowlist = record {
  paths =
      "generation" ∷ "observed_generation" ∷ "etag" ∷ "update_time" ∷ "last_modifier" ∷ "client"
      ∷ "client_version" ∷ "latest_created_revision" ∷ "latest_ready_revision" ∷ "reconciling" ∷ [];
  subtrees = "conditions" ∷ "terminal_condition" ∷ "traffic_statuses" ∷ [];
  normalization_paths =
      "annotations" ∷ "custom_audiences" ∷ "labels" ∷ "template.annotations" ∷ "template.labels"
      ∷ "template.containers.args" ∷ "template.containers.command"
      ∷ "template.containers.depends_on" ∷ [];
}

abbrev pub bucket_allowlist : DriftAllowlist
bucket_allowlist = record { paths = "updated" ∷ []; subtrees = []; normalization_paths = [] }

unfoldable pub benign_drift_allowlists : String → Option DriftAllowlist
benign_drift_allowlists name =
    if name =ₛ "google_cloud_run_v2_service"
    then some cloud_run_allowlist
    else if name =ₛ "google_storage_bucket"
    then some bucket_allowlist
    else none

-- How many characters `\d+\]` takes off the front of a text, if it matches there.
unfoldable pub index_length : Python → Bool → String → Option ℕ
index_length py seen String.[] = none
index_length py seen (String.◌∷◌ c s) =
    let further = index_length py true s in
    if py.is_digit (code c)
    then elim further [ none ↦ none | some n ↦ some (suc n) ]
    else if seen && (code c == b']')
    then some 1
    else none

-- `_LIST_INDEX_RE.sub("", path)`, with the number of characters that a match still takes.
unfoldable pub strip_indices : Python → ℕ → String → String
strip_indices py skip String.[] = String.[]
strip_indices py (suc skip) (String.◌∷◌ c s) = strip_indices py skip s
strip_indices py zero (String.◌∷◌ c s) =
    if code c == b'['
    then elim (index_length py false s) [
      | none ↦ String.◌∷◌ c (strip_indices py zero s)
      | some n ↦ strip_indices py n s
    ]
    else String.◌∷◌ c (strip_indices py zero s)

unfoldable pub normalize_attr_path : Python → String → String
normalize_attr_path py path = strip_indices py zero path

abbrev pub is_empty_collection : Json → Bool
is_empty_collection (arr nil) = true
is_empty_collection (obj end) = true
is_empty_collection _ = false

-- `_is_null_empty_normalization`
unfoldable pub is_null_empty_normalization : Json → Json → Bool
is_null_empty_normalization before after =
    if is_null before
    then is_empty_collection after
    else if is_null after
    then is_empty_collection before
    else false

-- The two sets of paths that `_diff_leaf_paths` returns: changed, and normalized.
abbrev pub Leaves : Type 0
Leaves = List String × List String

abbrev pub join : Leaves → Leaves → Leaves
join (c, n) (d, m) = (c ++ d, n ++ m)

abbrev pub changed_leaf : Python → String → Leaves
changed_leaf py prefix = (normalize_attr_path py prefix ∷ [], [])

-- `f"{prefix}.{key}" if prefix else str(key)`
abbrev pub sub_path : String → String → String
sub_path String.[] key = key
sub_path (String.◌∷◌ c s) key = String.◌++◌ (String.◌∷◌ c s) (String.◌++◌ "." key)

-- `f"{prefix}[{i}]"`: the index is stripped again wherever the path is used, so it is left at 0.
abbrev pub at_index : String → String
at_index prefix = String.◌++◌ prefix "[0]"

-- The keys that only the second object has.
unfoldable pub added_keys : Python → Fields → Fields → String → Leaves
added_keys py before end prefix = ([], [])
added_keys py before (field k v rest) prefix =
    let more = added_keys py before rest prefix in
    elim (find? before k) [ none ↦ join (changed_leaf py (sub_path prefix k)) more | some _ ↦ more ]

unfoldable pub added_items : Python → Items → String → Leaves
added_items py nil prefix = ([], [])
added_items py (cons j js) prefix =
    join (changed_leaf py (at_index prefix)) (added_items py js prefix)

-- The two values that are no `_MISSING`: equal ones and normalizations first.
abbrev pub diff_unless_same : Python → Json → Json → String → Leaves → Leaves
diff_unless_same py before after prefix deeper =
    if json_eq py before after
    then ([], [])
    else if is_null_empty_normalization before after
    then ([], normalize_attr_path py prefix ∷ [])
    else deeper

-- `_diff_leaf_paths`
unfoldable mutual
  pub diff_leaf_paths : Python → Json → Json → String → Leaves
  diff_leaf_paths py (obj fs) (obj gs) prefix =
      diff_unless_same py (obj fs) (obj gs) prefix
        (join (diff_fields py fs gs prefix) (added_keys py fs gs prefix))
  diff_leaf_paths py (arr xs) (arr ys) prefix =
      diff_unless_same py (arr xs) (arr ys) prefix (diff_items py xs ys prefix)
  diff_leaf_paths py before after prefix =
      diff_unless_same py before after prefix (changed_leaf py prefix)

  pub diff_fields : Python → Fields → Fields → String → Leaves
  diff_fields py end gs prefix = ([], [])
  diff_fields py (field k v rest) gs prefix =
      join
        (elim (find? gs k) [
          | none ↦ changed_leaf py (sub_path prefix k)
          | some w ↦ diff_leaf_paths py v w (sub_path prefix k)
        ])
        (diff_fields py rest gs prefix)

  pub diff_items : Python → Items → Items → String → Leaves
  diff_items py nil ys prefix = added_items py ys prefix
  diff_items py (cons x xs) nil prefix =
      join (changed_leaf py (at_index prefix)) (diff_items py xs nil prefix)
  diff_items py (cons x xs) (cons y ys) prefix =
      join (diff_leaf_paths py x y (at_index prefix)) (diff_items py xs ys prefix)

unfoldable pub under_subtree : String → List String → Bool
under_subtree path [] = false
under_subtree path (p ∷ ps) =
    (path =ₛ p || starts_with path (String.◌++◌ p ".")) || under_subtree path ps

-- `_is_computed_only_path`
unfoldable pub is_computed_only_path : String → DriftAllowlist → Bool
is_computed_only_path path allowlist =
    contains allowlist.paths path || under_subtree path allowlist.subtrees

-- `_has_true`
unfoldable mutual
  pub has_true : Json → Bool
  has_true (bool b) = b
  has_true (arr js) = items_have_true js
  has_true (obj fs) = fields_have_true fs
  has_true _ = false

  pub items_have_true : Items → Bool
  items_have_true nil = false
  items_have_true (cons j js) = has_true j || items_have_true js

  pub fields_have_true : Fields → Bool
  fields_have_true end = false
  fields_have_true (field k v rest) = has_true v || fields_have_true rest
