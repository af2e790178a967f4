-- ===== src/Plan/Classify/Routes.antt =====
-- How the two predicates and the denylist agree on the route that a plan takes.
use driftscribe.Base.{
  String, true, false, List, [], ◌∷◌, ◌≡◌, refl, ◌↔◌, ◌⊎◌, arith, All, inl, inr, ok, Option, some,
  none, eq_iff,
}
use driftscribe.Base.Json.{Json, null, str, arr, obj, Fields, elems, get, is_null}
use driftscribe.Plan.Classify.{
  creates, any_creates, plan_has_create, imports, any_imports, plan_has_import, holds,
  is_quiet_list, changes_import, changes_create, change_creates, list_creates, entry_creates,
}
use driftscribe.Plan.Denylist.Names.{Actions}
use driftscribe.Plan.Denylist.Evaluate.{
  Entry, malformed, row, read_entry, texts, cons_text, evaluate, with_actions, actions_of,
  with_change,
}
use driftscribe.Plan.Denylist.Admission.{EntryAccepted, AllAccepted, Passes}
use driftscribe.Plan.Denylist.Pass.{evaluate_iff}
use driftscribe.Plan.Denylist.Settled.{Quiet, Settled}

imports-creates : (rc : Json) → imports rc ≡ true → creates rc ≡ true
unfolding imports creates
imports-creates null h = cc
imports-creates rc h = ground arith

any_imports-any_creates : (rcs : List Json) → any_imports rcs ≡ true → any_creates rcs ≡ true
unfolding any_imports any_creates
any_imports-any_creates [] h = cc
any_imports-any_creates (rc ∷ rcs) h =
    ground (arith, imports-creates rc, any_imports-any_creates rcs)

changes_import-changes_create : (j : Json) → changes_import j ≡ true → changes_create j ≡ true
changes_import-changes_create null h = refl
changes_import-changes_create (arr rcs) h = any_imports-any_creates (elems rcs) h
changes_import-changes_create _ h = refl

-- A plan with an import is always routed as one that creates.
pub has_import-has_create :
    (plan : Json) → plan_has_import plan ≡ true → plan_has_create plan ≡ true
unfolding plan_has_import plan_has_create
has_import-has_create null h = refl
has_import-has_create (obj plan) h = changes_import-changes_create (get plan "resource_changes") h
has_import-has_create _ h = refl

-- An entry that leaves the set of resources as it is: nothing is imported, and the action is none
-- at all, a read, or an update in place.
abbrev pub InPlace : Entry → Type 0
InPlace (malformed _) = ⊥
InPlace (row rc rtype change actions) =
    (is_null (get change "importing") ≡ true) × (Quiet actions ⊎ (actions ≡ "update" ∷ []))

cons_text-one :
    (a b : String) (read : Option Actions)
    → cons_text b read ≡ some (a ∷ [])
    → (b ≡ a) × (read ≡ some [])
cons_text-one a b none h = absurd cc
cons_text-one a b (some []) h = ground arith
cons_text-one a b (some (c ∷ cs)) h = absurd cc

texts-none : (js : List Json) → texts js ≡ some [] → js ≡ []
unfolding texts
texts-none [] h = refl
texts-none (str b ∷ js) h = ground arith
texts-none (j ∷ js) h = absurd cc

texts-one : (js : List Json) (a : String) → texts js ≡ some (a ∷ []) → js ≡ str a ∷ []
unfolding texts
texts-one [] a h = absurd cc
texts-one (str b ∷ js) a h =
    let (same, rest) = cons_text-one a b (texts js) h in
    let last = texts-none js rest in ground arith
texts-one (j ∷ js) a h = absurd cc

list_creates-InPlace :
    (rc : Fields) (rtype : String) (change : Fields) (js : List Json) (actions : Actions)
    → texts js ≡ some actions
    → Settled actions
    → (list_creates (get change "importing") js ≡ false) ↔ InPlace (row rc rtype change actions)
unfolding is_quiet_list holds
list_creates-InPlace rc rtype change js actions t (inl (inl e)) =
    let one = texts-one js _ (rw e at t) in rw one (rw e (ground arith))
list_creates-InPlace rc rtype change js actions t (inl (inr e)) =
    let one = texts-one js _ (rw e at t) in rw one (rw e (ground arith))
list_creates-InPlace rc rtype change js actions t (inr (inl e)) =
    let one = texts-one js _ (rw e at t) in
    rw one (
      rw e
        (ground (arith, eq_iff "create" "no-op", eq_iff "create" "read", eq_iff "create" "update")))
list_creates-InPlace rc rtype change js actions t (inr (inr e)) =
    let one = texts-one js _ (rw e at t) in rw one (rw e (ground arith))

-- For an accepted entry the two readings of it agree, layer by layer of the document.
module _ (rc : Fields) where
  list-InPlace :
      (rtype : String) (change : Fields) (js : List Json) (read : Option Actions)
      → texts js ≡ read
      → EntryAccepted (with_actions rc rtype change read)
      → (list_creates (get change "importing") js ≡ false)
        ↔ InPlace (with_actions rc rtype change read)
  list-InPlace rtype change js none t h = absurd h
  list-InPlace rtype change js (some actions) t h =
      list_creates-InPlace rc rtype change js actions t h.settled

  actions-InPlace :
      (rtype : String) (change : Fields) (actions : Json)
      → EntryAccepted (with_actions rc rtype change (actions_of actions))
      → (change_creates change actions ≡ false)
        ↔ InPlace (with_actions rc rtype change (actions_of actions))
  actions-InPlace rtype change (arr items) h =
      list-InPlace rtype change (elems items) (texts (elems items)) refl h
  actions-InPlace rtype change null h = absurd h
  actions-InPlace rtype change _ h = absurd h

  change-InPlace :
      (rtype change : Json)
      → EntryAccepted (with_change rc rtype change)
      → (entry_creates change ≡ false) ↔ InPlace (with_change rc rtype change)
  change-InPlace (str rtype) (obj change) h = actions-InPlace rtype change (get change "actions") h
  change-InPlace (str rtype) null h = absurd h
  change-InPlace (str rtype) _ h = absurd h
  change-InPlace null _ h = absurd h
  change-InPlace _ _ h = absurd h

creates-InPlace :
    (j : Json) → EntryAccepted (read_entry j) → (creates j ≡ false) ↔ InPlace (read_entry j)
unfolding creates read_entry
creates-InPlace (obj rc) h = change-InPlace rc (get rc "type") (get rc "change") h
creates-InPlace null h = absurd h
creates-InPlace _ h = absurd h

any_creates-InPlace :
    (js : List Json)
    → AllAccepted js
    → (any_creates js ≡ false) ↔ All (λ j. InPlace (read_entry j)) js
unfolding any_creates
any_creates-InPlace [] h = ((λ e. tt), λ p. refl)
any_creates-InPlace (j ∷ js) (h, hs) =
    let one = creates-InPlace j h in
    let more = any_creates-InPlace js hs in
    (
      (λ e. (one.0 (ground arith), more.0 (ground arith))),
      λ p. let x = one.1 p.0 in let y = more.1 p.1 in ground arith,
    )

abbrev pub AllInPlace : Json → Type 0
AllInPlace (arr rcs) = All (λ j. InPlace (read_entry j)) (elems rcs)
AllInPlace _ = ⊥

changes_create-InPlace : (j : Json) → Passes j → (changes_create j ≡ false) ↔ AllInPlace j
changes_create-InPlace (arr rcs) h = any_creates-InPlace (elems rcs) h.accepted
changes_create-InPlace null h = absurd h
changes_create-InPlace _ h = absurd h

-- Of the plans that the denylist passes, exactly those are routed as creating nothing whose every
-- entry imports nothing and is a no-op, a read, or an update in place.
pub evaluate-has_create :
    (plan : Fields)
    → evaluate plan ≡ ok []
    → (plan_has_create (obj plan) ≡ false) ↔ AllInPlace (get plan "resource_changes")
unfolding plan_has_create
evaluate-has_create plan e =
    changes_create-InPlace (get plan "resource_changes") ((evaluate_iff plan).0 e)
