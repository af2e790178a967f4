-- ===== src/Apply/Guard/Admits.antt =====
-- Which plans the guard of workers/tofu_apply/tofu_runner.py lets through.
use driftscribe.Base.{
  String, Bool, true, false, Option, none, some, List, [], ◌∷◌, ◌≡◌, ◌↔◌, ◌⊎◌, arith, eq_iff, All,
}
use driftscribe.Base.Text.{starts_with, has_infix, contains}
use driftscribe.Base.Json.{Json, null, str, arr, obj, Fields, elems, get, is_null, dict_of}
use driftscribe.Plan.Classify.{holds, is_quiet_list}
use driftscribe.Apply.Guard.{
  Refusal, normalize_address, is_no_op_list, guard_import, guard_touch, guard_change, guard_entry,
  guard_entries, guard_changes, resource_set_guard, or_next,
}

-- An address that stands at the top level and that the baked configuration declares.
abbrev pub Declared : List String → String → Type 0
Declared declared address =
    (starts_with address "module." ≡ false) × (contains declared (normalize_address address) ≡ true)

-- An import of a plain declared address that changes nothing, once imports are allowed.
abbrev pub AdmitsImport : Bool → List String → Json → List Json → Type 0
AdmitsImport allow declared (str address) actions =
    (actions ≡ str "no-op" ∷ [])
    × (has_infix address "[" ≡ false)
    × (allow ≡ true)
    × Declared declared address
AdmitsImport allow declared _ actions = ⊥

-- A change of a declared address that is no replacement, and no creation unless those are allowed.
abbrev pub AdmitsTouch : Bool → List String → Json → List Json → Type 0
AdmitsTouch allow declared (str address) actions =
    ((holds "create" actions ≡ false) ⊎ ((holds "delete" actions ≡ false) × (allow ≡ true)))
    × Declared declared address
AdmitsTouch allow declared _ actions = ⊥

abbrev pub AdmitsChange : Bool → Bool → List String → Json → Json → Json → Type 0
AdmitsChange allow_create allow_import declared address importing (arr items) =
    ((is_null importing ≡ false) × AdmitsImport allow_import declared address (elems items))
    ⊎ ((is_null importing ≡ true)
        × ((is_quiet_list (elems items) ≡ true)
            ⊎ AdmitsTouch allow_create declared address (elems items)))
AdmitsChange allow_create allow_import declared address importing _ = ⊥

abbrev pub AdmitsEntry : Bool → Bool → List String → Json → Type 0
AdmitsEntry allow_create allow_import declared (obj rc) =
    AdmitsChange allow_create allow_import declared (get rc "address")
      (get (dict_of (get rc "change")) "importing") (get (dict_of (get rc "change")) "actions")
AdmitsEntry allow_create allow_import declared _ = ⊥

-- A plan that lists its changes, each of them admitted.
abbrev pub AdmitsPlan : Bool → Bool → List String → Json → Type 0
AdmitsPlan allow_create allow_import declared (arr rcs) =
    All (AdmitsEntry allow_create allow_import declared) (elems rcs)
AdmitsPlan allow_create allow_import declared _ = ⊥

is_no_op_list_iff : (js : List Json) → (is_no_op_list js ≡ true) ↔ (js ≡ str "no-op" ∷ [])
is_no_op_list_iff [] = ground arith
is_no_op_list_iff (null ∷ js) = ground arith
is_no_op_list_iff (str a ∷ []) = ground (arith, eq_iff a "no-op")
is_no_op_list_iff (str a ∷ (j ∷ js)) = ground arith
is_no_op_list_iff (j ∷ js) = ground arith

import_iff :
    (allow : Bool) (declared : List String) (address : Json) (actions : List Json)
    → (guard_import allow declared address actions ≡ none)
      ↔ AdmitsImport allow declared address actions
unfolding guard_import
import_iff allow declared (str a) actions = ground (arith, is_no_op_list_iff actions)
import_iff allow declared null actions = ground arith
import_iff allow declared _ actions = ground arith

touch_iff :
    (allow : Bool) (declared : List String) (address : Json) (actions : List Json)
    → (guard_touch allow declared address actions ≡ none)
      ↔ AdmitsTouch allow declared address actions
unfolding guard_touch
touch_iff allow declared (str a) actions = ground arith
touch_iff allow declared null actions = ground arith
touch_iff allow declared _ actions = ground arith

change_iff :
    (c i : Bool) (declared : List String) (address importing actions : Json)
    → (guard_change c i declared address importing actions ≡ none)
      ↔ AdmitsChange c i declared address importing actions
change_iff c i declared address importing (arr items) =
    ground (
      arith,
      import_iff i declared address (elems items),
      touch_iff c declared address (elems items),
    )
change_iff c i declared address importing null = ground arith
change_iff c i declared address importing _ = ground arith

entry_iff :
    (c i : Bool) (declared : List String) (rc : Json)
    → (guard_entry c i declared rc ≡ none) ↔ AdmitsEntry c i declared rc
unfolding guard_entry
entry_iff c i declared (obj rc) = change_iff c i declared _ _ _
entry_iff c i declared null = ground arith
entry_iff c i declared _ = ground arith

or_next-eq-none : (a b : Option Refusal) → (or_next a b ≡ none) ↔ ((a ≡ none) × (b ≡ none))
or_next-eq-none none b = ground arith
or_next-eq-none (some r) b = ground arith

entries_iff :
    (c i : Bool) (declared : List String) (rcs : List Json)
    → (guard_entries c i declared rcs ≡ none) ↔ All (AdmitsEntry c i declared) rcs
unfolding guard_entries
entries_iff c i declared [] = ground arith
entries_iff c i declared (rc ∷ rcs) =
    let (one, back) = entry_iff c i declared rc in
    let (more, again) = entries_iff c i declared rcs in
    let (split, join) =
      or_next-eq-none (guard_entry c i declared rc) (guard_entries c i declared rcs) in
    ((λ e. (one (split e).0, more (split e).1)), λ h. join (back h.0, again h.1))

-- The guard finds no reason to refuse a plan exactly if the plan lists its changes and each of them
-- either imports a plain declared address without changing it, where imports are allowed, or is a
-- no-op or a read, or touches a declared address outside of modules without replacing it, and
-- without creating it unless creations are allowed.
pub resource_set_guard_iff :
    (plan : Fields) (declared : List String) (c i : Bool)
    → (resource_set_guard plan declared c i ≡ none)
      ↔ AdmitsPlan c i declared (get plan "resource_changes")
unfolding resource_set_guard
resource_set_guard_iff plan declared c i = go (get plan "resource_changes")
  where
    go : (j : Json) → (guard_changes c i declared j ≡ none) ↔ AdmitsPlan c i declared j
    go (arr rcs) = entries_iff c i declared (elems rcs)
    go null = ground arith
    go _ = ground arith
