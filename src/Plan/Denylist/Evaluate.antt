-- ===== src/Plan/Denylist/Evaluate.antt =====
-- `evaluate` of driftscribe_lib/iac_plan_denylist.py: one pass over the resource changes, then the
-- two rules about the plan as a whole. An exception ends the pass, and the violations found before
-- it are lost.
use driftscribe.Base.{
  String, Bool, true, false, not, ◌&&◌, ◌||◌, Option, none, some, List, [], ◌∷◌, ◌++◌, Result, ok,
  raised, type_error, ◌>>=◌, ◌>>◌, if◌then◌else◌, ltb, length, is_empty,
}
use driftscribe.Base.Text.{contains}
use driftscribe.Base.Json.{Json, str, arr, obj, Fields, elems, get, is_null}
use driftscribe.Plan.Denylist.Names.{
  Actions, delete_action_tuples, forget_action_tuples, replace_action_tuples, all_known_tuples,
  adoptable_resource_types,
}
use driftscribe.Plan.Denylist.Rules.{
  Violation, plan_json_unparseable, plan_json_missing_resource_changes, plan_json_malformed_change,
  import_with_changes_forbidden, import_type_not_adoptable, import_mixed_plan_forbidden,
  import_batch_forbidden, delete_action_forbidden, forget_action_forbidden,
  replace_action_forbidden, unknown_action_forbidden,
}
use driftscribe.Plan.Denylist.Checks.{
  address_of, violation, in_tuples, tuple_eq, is_mutation, identity_dicts,
  check_control_plane_service, check_control_plane_sa, check_control_plane_bucket,
  check_service_managed_bucket, check_service_managed_pubsub, check_control_plane_secret,
  check_control_plane_kms, check_wif, check_iam,
}

-- `load_plan_json`, over the library's `json.loads`: `none` stands for a `JSONDecodeError`.
abbrev pub plan_of : Option Json → Option Fields × Option Violation
plan_of (some (obj plan)) = (some plan, none)
plan_of _ = (none, some (record { rule = plan_json_unparseable; subject = [] }))

unfoldable pub load_plan_json : (String → Option Json) → String → Option Fields × Option Violation
load_plan_json loads text = plan_of (loads text)

-- What `_iter_resource_changes` yields for one entry. `malformed` keeps the address that the
-- caller's message names, if the entry is an object.
pub data Entry : Type 0 where
  malformed : List Json → Entry
  row : Fields → String → Fields → Actions → Entry

abbrev pub cons_text : String → Option Actions → Option Actions
cons_text a none = none
cons_text a (some as') = some (a ∷ as')

-- `tuple(actions)`, if every action is a text.
unfoldable pub texts : List Json → Option Actions
texts [] = some []
texts (str a ∷ js) = cons_text a (texts js)
texts (_ ∷ js) = none

abbrev pub with_actions : Fields → String → Fields → Option Actions → Entry
with_actions rc rtype change none = malformed (address_of rc ∷ [])
with_actions rc rtype change (some actions) = row rc rtype change actions

abbrev pub actions_of : Json → Option Actions
actions_of (arr items) = texts (elems items)
actions_of _ = none

abbrev pub with_change : Fields → Json → Json → Entry
with_change rc (str rtype) (obj change) =
    with_actions rc rtype change (actions_of (get change "actions"))
with_change rc _ _ = malformed (address_of rc ∷ [])

unfoldable pub read_entry : Json → Entry
read_entry (obj rc) = with_change rc (get rc "type") (get rc "change")
read_entry _ = malformed []

-- One violation if the test fails, none if it holds.
abbrev pub unless : Bool → Violation → List Violation
unless true v = []
unless false v = v ∷ []

abbrev pub is_obj : Json → Bool
is_obj (obj _) = true
is_obj _ = false

-- The admission floors for an entry that imports.
unfoldable pub admission : Fields → String → Actions → Json → List Violation
admission rc rtype actions importing =
    if is_null importing
    then []
    else unless (is_obj importing) (violation plan_json_malformed_change rc)
      ++ (unless (tuple_eq actions ("no-op" ∷ [])) (violation import_with_changes_forbidden rc)
          ++ unless (contains adoptable_resource_types rtype)
              (violation import_type_not_adoptable rc))

-- The hard-deny floors on the action.
unfoldable pub floors : Fields → Actions → List Violation
floors rc actions =
    unless (not (in_tuples actions delete_action_tuples)) (violation delete_action_forbidden rc)
    ++ (unless (not (in_tuples actions forget_action_tuples)) (violation forget_action_forbidden rc)
        ++ unless (not (in_tuples actions replace_action_tuples))
            (violation replace_action_forbidden rc))

-- The lists appended by calls in a row.
unfoldable pub gather : List (Result (List Violation)) → Result (List Violation)
gather [] = ok []
gather (r ∷ rs) = do found ← r; rest ← gather rs; ok (found ++ rest)

unfoldable pub identity_rules : Fields → String → Fields × Fields → Result (List Violation)
identity_rules rc rtype (before, after) = gather (
    check_control_plane_service rc rtype before after
    ∷ check_control_plane_sa rc rtype before after
    ∷ check_control_plane_bucket rc rtype before after
    ∷ check_service_managed_bucket rc rtype before after
    ∷ check_service_managed_pubsub rc rtype before after
    ∷ check_control_plane_secret rc rtype before after
    ∷ check_control_plane_kms rc rtype before after
    ∷ check_wif rc rtype
    ∷ check_iam rc rtype
    ∷ [])

-- What the body of the loop appends for a well-formed entry.
unfoldable pub row_violations : Fields → String → Fields → Actions → Result (List Violation)
row_violations rc rtype change actions =
    let importing = get change "importing" in
    let admitted = admission rc rtype actions importing in
    if in_tuples actions all_known_tuples
    then (do
      found ←
          if is_mutation actions || not (is_null importing)
          then identity_rules rc rtype (identity_dicts change)
          else ok []
      ok (admitted ++ (floors rc actions ++ found)))
    else ok (admitted ++ violation unknown_action_forbidden rc ∷ [])

-- The three lists that the loop grows.
pub record Scan : Type 0 where
  pub violations : List Violation
  pub importing_addresses : List Json
  pub other_mutation_addresses : List Json

-- The addresses that an entry adds to `importing_addresses` and to `other_mutation_addresses`.
unfoldable pub importing_of : Entry → List Json
importing_of (malformed _) = []
importing_of (row rc rtype change actions) =
    if is_null (get change "importing") then [] else address_of rc ∷ []

unfoldable pub mutation_of : Entry → List Json
mutation_of (malformed _) = []
mutation_of (row rc rtype change actions) =
    if is_null (get change "importing") && is_mutation actions then address_of rc ∷ [] else []

unfoldable pub entry_violations : Entry → Result (List Violation)
unfolding row_violations
entry_violations (malformed subject) =
    ok (record { rule = plan_json_malformed_change; subject = subject } ∷ [])
entry_violations (row rc rtype change actions) = row_violations rc rtype change actions

-- One round of the loop.
unfoldable pub visit : Scan → Entry → Result Scan
unfolding entry_violations importing_of mutation_of
visit s e = do
  found ← entry_violations e
  ok (record {
    violations = s.violations ++ found;
    importing_addresses = s.importing_addresses ++ importing_of e;
    other_mutation_addresses = s.other_mutation_addresses ++ mutation_of e;
  })

unfoldable pub scan : Scan → List Json → Result Scan
unfolding visit read_entry
scan s [] = ok s
scan s (j ∷ js) = do s' ← visit s (read_entry j); scan s' js

-- `', '.join(addresses)` raises unless each is a text.
unfoldable pub join_addresses : List Json → Result (Unit {0})
join_addresses [] = ok tt
join_addresses (str a ∷ js) = join_addresses js
join_addresses (_ ∷ js) = raised type_error

unfoldable pub batch_rule : Scan → Result (List Violation)
batch_rule s =
    if ltb 1 (length s.importing_addresses)
    then (do
      join_addresses s.importing_addresses
      ok (record { rule = import_batch_forbidden; subject = s.importing_addresses } ∷ []))
    else ok []

unfoldable pub mixed_rule : Scan → Result (List Violation)
mixed_rule s =
    if is_empty s.importing_addresses || is_empty s.other_mutation_addresses then ok [] else (do
      join_addresses s.importing_addresses
      join_addresses s.other_mutation_addresses
      ok (
          record {
            rule = import_mixed_plan_forbidden;
            subject = s.importing_addresses ++ s.other_mutation_addresses;
          }
          ∷ []))

-- The end of `evaluate`, after the loop.
unfoldable pub finish : Scan → Result (List Violation)
finish s = do batch ← batch_rule s; mixed ← mixed_rule s; ok (s.violations ++ (batch ++ mixed))

abbrev pub start : Scan
start = record { violations = []; importing_addresses = []; other_mutation_addresses = [] }

unfoldable pub evaluate_changes : Json → Result (List Violation)
evaluate_changes (arr items) = do s ← scan start (elems items); finish s
evaluate_changes _ = ok (record { rule = plan_json_missing_resource_changes; subject = [] } ∷ [])

unfoldable pub evaluate : Fields → Result (List Violation)
evaluate plan = evaluate_changes (get plan "resource_changes")
