-- ===== src/Apply/Guard.antt =====
-- workers/tofu_apply/tofu_runner.py: `resource_set_guard` and `assert_fidelity`. A refusal keeps its
-- reason; the wording and the address that it names are left out.
pub mod Admits
use Prim.Native.Char.{code}
use Prim.Native.String
use driftscribe.Base.{
  ◌≡◌, refl, String, Bool, true, false, not, ◌&&◌, ◌||◌, Option, none, some, List, [], ◌∷◌,
  if◌then◌else◌, ◌==◌,
}
use driftscribe.Base.Text.{◌=ₛ◌, starts_with, has_infix, contains}
use driftscribe.Base.Json.{
  Json, null, bool, num, str, arr, obj, Fields, elems, get, is_null, dict_of,
}
use driftscribe.Plan.Classify.{holds, is_quiet_list}

pub data Refusal : Type 0 where
  no_resource_changes malformed_entry malformed_actions : Refusal
  import_without_address import_with_changes import_of_module import_of_index : Refusal
  import_not_allowed import_undeclared : Refusal
  without_address of_module replaces creates_resource undeclared : Refusal

-- What stands after the first `]`.
unfoldable pub after_bracket : String → Option String
after_bracket String.[] = none
after_bracket (String.◌∷◌ c s) =
    let rest = after_bracket s in if code c == b']' then some s else rest

-- What `\[[^\]]*\]$` leaves of a text after its `[`: `$` matches at the end, or before a newline there.
abbrev pub instance_end : Option String → Option String
instance_end none = none
instance_end (some rest) =
    if rest =ₛ "" then some rest else if rest =ₛ "\n" then some rest else none

-- `_normalize_address`
unfoldable pub normalize_address : String → String
normalize_address String.[] = String.[]
normalize_address (String.◌∷◌ c s) =
    let later = normalize_address s in
    if code c == b'['
    then elim (instance_end (after_bracket s)) [ none ↦ String.◌∷◌ c later | some rest ↦ rest ]
    else String.◌∷◌ c later

-- `actions != ["no-op"]` is false.
abbrev pub is_no_op_list : List Json → Bool
is_no_op_list (str a ∷ []) = a =ₛ "no-op"
is_no_op_list _ = false

unfoldable pub guard_import : Bool → List String → Json → List Json → Option Refusal
guard_import allow declared (str address) actions =
    if not (is_no_op_list actions)
    then some import_with_changes
    else if starts_with address "module."
    then some import_of_module
    else if has_infix address "["
    then some import_of_index
    else if not allow
    then some import_not_allowed
    else if not (contains declared (normalize_address address))
    then some import_undeclared
    else none
guard_import allow declared _ actions = some import_without_address

unfoldable pub guard_touch : Bool → List String → Json → List Json → Option Refusal
guard_touch allow declared (str address) actions =
    if starts_with address "module."
    then some of_module
    else if holds "create" actions && holds "delete" actions
    then some replaces
    else if holds "create" actions && not allow
    then some creates_resource
    else if not (contains declared (normalize_address address))
    then some undeclared
    else none
guard_touch allow declared _ actions = some without_address

abbrev pub guard_change : Bool → Bool → List String → Json → Json → Json → Option Refusal
guard_change allow_create allow_import declared address importing (arr items) =
    if not (is_null importing)
    then guard_import allow_import declared address (elems items)
    else if is_quiet_list (elems items)
    then none
    else guard_touch allow_create declared address (elems items)
guard_change allow_create allow_import declared address importing _ = some malformed_actions

-- One round of the loop.
unfoldable pub guard_entry : Bool → Bool → List String → Json → Option Refusal
guard_entry allow_create allow_import declared (obj rc) =
    let change = dict_of (get rc "change") in
    guard_change allow_create allow_import declared (get rc "address") (get change "importing")
      (get change "actions")
guard_entry allow_create allow_import declared _ = some malformed_entry

abbrev pub or_next : Option Refusal → Option Refusal → Option Refusal
or_next (some r) next = some r
or_next none next = next

unfoldable pub guard_entries : Bool → Bool → List String → List Json → Option Refusal
guard_entries allow_create allow_import declared [] = none
guard_entries allow_create allow_import declared (rc ∷ rcs) =
    or_next (guard_entry allow_create allow_import declared rc)
      (guard_entries allow_create allow_import declared rcs)

abbrev pub guard_changes : Bool → Bool → List String → Json → Option Refusal
guard_changes allow_create allow_import declared (arr rcs) =
    guard_entries allow_create allow_import declared (elems rcs)
guard_changes allow_create allow_import declared _ = some no_resource_changes

unfoldable pub resource_set_guard : Fields → List String → Bool → Bool → Option Refusal
resource_set_guard plan declared allow_create allow_import =
    guard_changes allow_create allow_import declared (get plan "resource_changes")

pub data Infidelity : Type 0 where
  version_mismatch lockfile_mismatch : Infidelity
  refused_by_guard : Refusal → Infidelity

-- `value == text`, where the value may be anything that JSON holds.
abbrev pub is_text : Json → String → Bool
is_text (str s) t = s =ₛ t
is_text _ t = false

abbrev pub guarded : Option Refusal → Option Infidelity
guarded none = none
guarded (some r) = some (refused_by_guard r)

-- `assert_fidelity`: the `FidelityError` that it raises, if any.
unfoldable pub assert_fidelity :
    Fields → String → String → Fields → List String → Bool → Bool → Option Infidelity
assert_fidelity signed_metadata version lockfile plan declared allow_create allow_import =
    if not (is_text (get signed_metadata "opentofu_version") version)
    then some version_mismatch
    else if not (is_text (get signed_metadata "provider_lockfile_sha256") lockfile)
    then some lockfile_mismatch
    else guarded (resource_set_guard plan declared allow_create allow_import)

normalized : normalize_address "google_x.y[\"k\"]" ≡ "google_x.y"
unfolding normalize_address after_bracket
normalized = refl
