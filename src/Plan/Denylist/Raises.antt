-- ===== src/Plan/Denylist/Raises.antt =====
-- The plans at which `evaluate` raises instead of returning a violation.
use driftscribe.Base.{String, true, false, List, ◌∷◌, ◌≡◌, refl, raised, type_error}
use driftscribe.Base.Text.{contains}
use driftscribe.Base.Json.{Json, str, arr, Items, Fields, cons, elems, get, dict_of, member}
use driftscribe.Plan.Denylist.Names.{
  Actions, cloud_run_service_types, control_plane_service_names, all_known_tuples,
}
use driftscribe.Plan.Denylist.Checks.{
  check_control_plane_service, is_mutation, identity_dicts, in_tuples,
}
use driftscribe.Plan.Denylist.Evaluate.{
  row, read_entry, gather, identity_rules, row_violations, entry_violations, Scan, visit, scan,
  start, evaluate_changes, evaluate,
}

service-raises :
    (rc : Fields) (rtype : String) (before after : Fields) (name : String) (value : Items)
    → contains cloud_run_service_types rtype ≡ true
    → get before "name" ≡ str name
    → contains control_plane_service_names name ≡ false
    → get after "name" ≡ arr value
    → check_control_plane_service rc rtype before after ≡ raised type_error
unfolding check_control_plane_service member
service-raises rc rtype before after name value t b s a = rw (t, b, a) (rw s refl)

row-raises :
    (rc : Fields) (rtype : String) (change : Fields) (actions : Actions)
    → in_tuples actions all_known_tuples ≡ true
    → is_mutation actions ≡ true
    → identity_rules rc rtype (identity_dicts change) ≡ raised type_error
    → row_violations rc rtype change actions ≡ raised type_error
unfolding row_violations
row-raises rc rtype change actions k m e = rw (k, m) (rw e refl)

identity-raises :
    (rc : Fields) (rtype : String) (before after : Fields)
    → check_control_plane_service rc rtype before after ≡ raised type_error
    → identity_rules rc rtype (before, after) ≡ raised type_error
unfolding identity_rules gather
identity-raises rc rtype before after e = rw e refl

scan-raises :
    (s : Scan) (j : Json) (js : List Json)
    → entry_violations (read_entry j) ≡ raised type_error
    → scan s (j ∷ js) ≡ raised type_error
unfolding scan visit
scan-raises s j js e = rw e refl

-- A known change of a Cloud Run service whose old name is an unreserved text and whose new name is
-- a list makes `evaluate` raise a `TypeError`, if it stands first in the plan.
pub list_name-raises :
    (plan : Fields) (j : Json) (rest : Items) (rc : Fields) (rtype : String) (change : Fields)
    (actions : Actions) (name : String) (value : Items)
    → get plan "resource_changes" ≡ arr (cons j rest)
    → read_entry j ≡ row rc rtype change actions
    → in_tuples actions all_known_tuples ≡ true
    → is_mutation actions ≡ true
    → contains cloud_run_service_types rtype ≡ true
    → get (dict_of (get change "before")) "name" ≡ str name
    → contains control_plane_service_names name ≡ false
    → get (dict_of (get change "after")) "name" ≡ arr value
    → evaluate plan ≡ raised type_error
unfolding evaluate evaluate_changes entry_violations identity_dicts
list_name-raises plan j rest rc rtype change actions name value p r k m t b s a =
    let service = service-raises rc rtype _ _ name value t b s a in
    let entry : entry_violations (read_entry j) ≡ raised type_error =
      rw r (row-raises rc rtype change actions k m (identity-raises rc rtype _ _ service)) in
    rw p (rw (scan-raises start j (elems rest) entry) refl)
