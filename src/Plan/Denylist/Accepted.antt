-- ===== src/Plan/Denylist/Accepted.antt =====
-- What the loop of `evaluate` appends for one entry is nothing exactly when the entry is accepted.
use driftscribe.Base.{
  String, Bool, true, false, not, ◌||◌, List, [], ◌∷◌, ◌++◌, Result, ok, ◌>>=◌, ◌≡◌, ◌⊎◌, inl, inr,
  ◌↔◌, arith, Bool-cases, if◌then◌else◌,
}
use driftscribe.Base.Text.{contains}
use driftscribe.Base.Json.{Json, Fields, get, is_null}
use driftscribe.Plan.Denylist.Names.{Actions, all_known_tuples, adoptable_resource_types}
use driftscribe.Plan.Denylist.Rules.{Violation}
use driftscribe.Plan.Denylist.Checks.{in_tuples, is_mutation, identity_dicts}
use driftscribe.Plan.Denylist.Evaluate.{
  Entry, malformed, row, is_obj, admission, floors, identity_rules, row_violations,
  entry_violations,
}
use driftscribe.Plan.Denylist.Admission.{Accepted, EntryAccepted}
use driftscribe.Plan.Denylist.Screens.{Silent}
use driftscribe.Plan.Denylist.Silent.{identity_rules-Silent}
use driftscribe.Plan.Denylist.Settled.{tuple_eq_iff, floors-eq-nil}

admission-eq-nil :
    (rc : Fields) (rtype : String) (actions : Actions) (importing : Json)
    → (admission rc rtype actions importing ≡ []) ↔ (
        is_null importing ≡ false
        → (is_obj importing ≡ true)
          × (actions ≡ "no-op" ∷ [])
          × (contains adoptable_resource_types rtype ≡ true))
unfolding admission
admission-eq-nil rc rtype actions importing =
    let e = tuple_eq_iff actions ("no-op" ∷ []) in
    elim (Bool-cases (is_null importing)) [ inl absent ↦ ground arith | inr present ↦ ground arith ]

-- A loop body adds nothing exactly when each of its parts adds nothing.
abbrev body :
    Bool
    → Bool
    → List Violation
    → List Violation
    → Violation
    → Result (List Violation)
    → Result (List Violation)
body known checked admitted floored unknown identity =
    if known
    then (do found ← if checked then identity else ok []; ok (admitted ++ (floored ++ found)))
    else ok (admitted ++ unknown ∷ [])

body-Silent :
    (known checked : Bool) (admitted floored : List Violation) (unknown : Violation)
    (identity : Result (List Violation))
    → Silent (body known checked admitted floored unknown identity)
      ↔ (((known ≡ true) × (floored ≡ [])) × (admitted ≡ []) × (checked ≡ true → Silent identity))
body-Silent false checked [] floored unknown identity = ground arith
body-Silent false checked (v ∷ vs) floored unknown identity = ground arith
body-Silent true false [] [] unknown identity = ground arith
body-Silent true false [] (v ∷ vs) unknown identity = ground arith
body-Silent true false (v ∷ vs) floored unknown identity = ground arith
body-Silent true true [] [] unknown identity = ground arith
body-Silent true true [] (v ∷ vs) unknown identity = ground arith
body-Silent true true (v ∷ vs) floored unknown identity = ground arith

row-parts :
    (rc : Fields) (rtype : String) (change : Fields) (actions : Actions)
    → Silent (row_violations rc rtype change actions) ↔ (
        ((in_tuples actions all_known_tuples ≡ true) × (floors rc actions ≡ []))
        × (admission rc rtype actions (get change "importing") ≡ [])
        × ((is_mutation actions || not (is_null (get change "importing"))) ≡ true
            → Silent (identity_rules rc rtype (identity_dicts change))))
unfolding row_violations
row-parts rc rtype change actions = body-Silent _ _ _ _ _ _

or_not : (a b : Bool) → ((a || not b) ≡ true) ↔ ((a ≡ true) ⊎ (b ≡ false))
or_not a b = ground arith

row_violations-Silent :
    (rc : Fields) (rtype : String) (change : Fields) (actions : Actions)
    → Silent (row_violations rc rtype change actions) ↔ Accepted rtype change actions
unfolding identity_dicts
row_violations-Silent rc rtype change actions =
    let parts = row-parts rc rtype change actions in
    let act = floors-eq-nil rc actions in
    let adopt = admission-eq-nil rc rtype actions (get change "importing") in
    let clear = identity_rules-Silent rc rtype _ _ in
    (
      (λ e. record {
        settled = act.0 (parts.0 e).0;
        adoption = adopt.0 (parts.0 e).1;
        unprotected = λ h. clear.0 ((parts.0 e).2 ((or_not _ _).1 h));
      }),
      λ a.
          parts.1
            (act.1 a.settled, adopt.1 a.adoption, λ h. clear.1 (a.unprotected ((or_not _ _).0 h))),
    )

pub entry_violations-Silent : (e : Entry) → Silent (entry_violations e) ↔ EntryAccepted e
unfolding entry_violations
entry_violations-Silent (malformed subject) = ((λ e. cc), λ h. absurd h)
entry_violations-Silent (row rc rtype change actions) =
    row_violations-Silent rc rtype change actions
