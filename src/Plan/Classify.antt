-- ===== src/Plan/Classify.antt =====
-- driftscribe_lib/iac_plan_classify.py: which plans create or import a resource.
pub mod Routes
use driftscribe.Base.{String, Bool, true, false, not, ◌&&◌, ◌||◌, List, [], ◌∷◌, if◌then◌else◌}
use driftscribe.Base.Text.{◌=ₛ◌}
use driftscribe.Base.Json.{Json, str, arr, obj, Fields, elems, get, is_null}

-- `text in actions`, for a list that may hold anything.
unfoldable pub holds : String → List Json → Bool
holds s [] = false
holds s (str a ∷ js) = a =ₛ s || holds s js
holds s (_ ∷ js) = holds s js

-- `actions in (["no-op"], ["read"])`
unfoldable pub is_quiet_list : List Json → Bool
is_quiet_list (str a ∷ []) = a =ₛ "no-op" || a =ₛ "read"
is_quiet_list _ = false

abbrev pub list_creates : Json → List Json → Bool
list_creates importing actions =
    if not (is_null importing)
    then true
    else if is_quiet_list actions
    then false
    else holds "create" actions

abbrev pub change_creates : Fields → Json → Bool
change_creates change (arr actions) = list_creates (get change "importing") (elems actions)
change_creates change _ = true

abbrev pub entry_creates : Json → Bool
entry_creates (obj change) = change_creates change (get change "actions")
entry_creates _ = true

-- One round of the loop of `plan_has_create`: whether it returns `True`.
unfoldable pub creates : Json → Bool
creates (obj rc) = entry_creates (get rc "change")
creates _ = true

unfoldable pub any_creates : List Json → Bool
any_creates [] = false
any_creates (rc ∷ rcs) = creates rc || any_creates rcs

abbrev pub changes_create : Json → Bool
changes_create (arr rcs) = any_creates (elems rcs)
changes_create _ = true

unfoldable pub plan_has_create : Json → Bool
plan_has_create (obj plan) = changes_create (get plan "resource_changes")
plan_has_create _ = true

abbrev pub entry_imports : Json → Bool
entry_imports (obj change) = not (is_null (get change "importing"))
entry_imports _ = false

-- One round of the loop of `plan_has_import`.
unfoldable pub imports : Json → Bool
imports (obj rc) = entry_imports (get rc "change")
imports _ = false

unfoldable pub any_imports : List Json → Bool
any_imports [] = false
any_imports (rc ∷ rcs) = imports rc || any_imports rcs

abbrev pub changes_import : Json → Bool
changes_import (arr rcs) = any_imports (elems rcs)
changes_import _ = false

unfoldable pub plan_has_import : Json → Bool
plan_has_import (obj plan) = changes_import (get plan "resource_changes")
plan_has_import _ = false
