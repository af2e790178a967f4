-- ===== src/Apply/Drift/Classify.antt =====
-- workers/tofu_apply/tofu_runner.py: `classify_refresh_drift`, over the paths of Apply/Drift.
use Prim.Native.String
use driftscribe.Base.{
  String, Bool, true, false, not, ◌&&◌, ◌||◌, Option, none, some, List, [], ◌∷◌, ◌++◌, Result, ok,
  raised, type_error, ◌>>=◌, is_empty, if◌then◌else◌,
}
use driftscribe.Base.Text.{◌=ₛ◌, contains}
use driftscribe.Base.Json.{Json, null, str, arr, obj, nil, end, Fields, elems, get, get_or}
use driftscribe.Base.Value.{Python, shown_value, is_truthy}
use driftscribe.Base.Sorted.{sorted_names}
use driftscribe.Plan.Classify.{is_quiet_list}
use driftscribe.Apply.Drift.{
  DriftAllowlist, benign_drift_allowlists, Leaves, diff_leaf_paths, is_computed_only_path, has_true,
}

-- `RefreshDriftVerdict`
pub record Verdict : Type 0 where
  pub benign : Bool
  pub paths : List String

abbrev pub refused : Verdict
refused = record { benign = false; paths = [] }

-- `actions in (["no-op"], ["read"])`
abbrev pub is_quiet : Json → Bool
is_quiet (arr items) = is_quiet_list (elems items)
is_quiet _ = false

abbrev pub is_update_list : List Json → Bool
is_update_list (str a ∷ []) = a =ₛ "update"
is_update_list _ = false

-- `actions == ["update"]`
abbrev pub is_update : Json → Bool
is_update (arr items) = is_update_list (elems items)
is_update _ = false

abbrev pub quiet_change : Json → Bool
quiet_change (obj change) = is_quiet (get change "actions")
quiet_change _ = false

-- One round of the loop over `resource_changes`: whether it goes on.
abbrev pub quiet_entry : Json → Bool
quiet_entry (obj rc) = quiet_change (get rc "change")
quiet_entry _ = false

unfoldable pub all_quiet : List Json → Bool
all_quiet [] = true
all_quiet (rc ∷ rcs) = quiet_entry rc && all_quiet rcs

abbrev pub no_actions : Json → Bool
no_actions null = true
no_actions (arr rcs) = all_quiet (elems rcs)
no_actions _ = false

-- `BENIGN_DRIFT_ALLOWLISTS.get(type or "")`, where a list or an object that is not empty has no hash.
unfoldable pub allowlist_of : Json → Result (Option DriftAllowlist)
allowlist_of (str s) = ok (benign_drift_allowlists s)
allowlist_of (arr nil) = ok none
allowlist_of (obj end) = ok none
allowlist_of (arr _) = raised type_error
allowlist_of (obj _) = raised type_error
allowlist_of _ = ok none

-- The paths of an entry that may stand, and those that are material.
pub record Sorted : Type 0 where
  pub computed : List String
  pub material : List String

abbrev pub nothing : Sorted
nothing = record { computed = []; material = [] }

abbrev pub both : Sorted → Sorted → Sorted
both a b = record { computed = a.computed ++ b.computed; material = a.material ++ b.material }

-- A path goes to the one list or the other by a test, each as a labelled text.
unfoldable pub sort_paths : (String → Bool) → (String → String) → List String → Sorted
sort_paths stands label [] = nothing
sort_paths stands label (p ∷ ps) =
    let rest = sort_paths stands label ps in
    if stands p
    then record { computed = label p ∷ rest.computed; material = rest.material }
    else record { computed = rest.computed; material = label p ∷ rest.material }

abbrev pub benign_norm : DriftAllowlist → String → Bool
benign_norm allowlist p =
    contains allowlist.normalization_paths p || is_computed_only_path p allowlist

unfoldable pub sort_leaves : DriftAllowlist → String → Leaves → Sorted
sort_leaves allowlist addr (changed, normalized) =
    both
      (sort_paths (benign_norm allowlist)
        (λ p. String.◌++◌ addr (String.◌++◌ ":" (String.◌++◌ p " [null<->empty]")))
        (sorted_names normalized))
      (sort_paths (λ p. is_computed_only_path p allowlist)
        (λ p. String.◌++◌ addr (String.◌++◌ ":" p)) (sorted_names changed))

-- `none` stands for the verdict that the loop returns at once.
abbrev pub drift_values : Python → DriftAllowlist → String → Json → Json → Option Sorted
drift_values py allowlist addr (obj before) (obj after) =
    some (sort_leaves allowlist addr (diff_leaf_paths py (obj before) (obj after) ""))
drift_values py allowlist addr _ _ = none

abbrev pub has_markers : Fields → Bool
has_markers change =
    has_true (get change "before_sensitive")
    || has_true (get change "after_sensitive")
    || has_true (get change "after_unknown")

abbrev pub drift_update : Python → String → Fields → Option DriftAllowlist → Option Sorted
drift_update py addr change none = none
drift_update py addr change (some allowlist) =
    if has_markers change
    then none
    else drift_values py allowlist addr (get change "before") (get change "after")

unfoldable pub drift_change : Python → String → Json → Json → Result (Option Sorted)
drift_change py addr type (obj change) =
    let actions = get change "actions" in
    if is_quiet actions
    then ok (some nothing)
    else if not (is_update actions)
    then ok none
    else (do allowlist ← allowlist_of type; ok (drift_update py addr change allowlist))
drift_change py addr type _ = ok none

-- One round of the loop over `resource_drift`.
unfoldable pub drift_entry : Python → Json → Result (Option Sorted)
drift_entry py (obj entry) =
    drift_change py (shown_value py (get_or entry "address" (str "<unknown>"))) (get entry "type")
      (get entry "change")
drift_entry py _ = ok none

abbrev pub and_then : Option Sorted → Result (Option Sorted) → Result (Option Sorted)
and_then none rest = ok none
and_then (some a) (ok (some b)) = ok (some (both a b))
and_then (some a) (ok none) = ok none
and_then (some a) (raised fault) = raised fault

unfoldable pub drift_entries : Python → List Json → Result (Option Sorted)
drift_entries py [] = ok (some nothing)
drift_entries py (e ∷ es) =
    let rest = drift_entries py es in drift_entry py e >>= λ o. and_then o rest

abbrev pub conclude : Option Sorted → Verdict
conclude none = refused
conclude (some found) =
    if is_empty found.material
    then record { benign = true; paths = found.computed }
    else record { benign = false; paths = found.material }

abbrev pub drift_verdict : Python → Json → Result Verdict
drift_verdict py (arr entries) = drift_entries py (elems entries) >>= λ o. ok (conclude o)
drift_verdict py _ = ok refused

-- `classify_refresh_drift`
unfoldable pub classify_refresh_drift : Python → Json → Result Verdict
classify_refresh_drift py (obj show) =
    if is_truthy py (get show "output_changes")
    then ok refused
    else if not (no_actions (get show "resource_changes"))
    then ok refused
    else drift_verdict py (get show "resource_drift")
classify_refresh_drift py _ = ok refused
