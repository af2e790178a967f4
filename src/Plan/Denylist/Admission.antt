-- ===== src/Plan/Denylist/Admission.antt =====
-- Which plans pass, stated without the rules.
use driftscribe.Base.{◌≤◌, String, true, false, List, [], ◌∷◌, ◌++◌, ◌≡◌, ◌⊎◌, All, length}
use driftscribe.Base.Text.{contains}
use driftscribe.Base.Json.{Json, arr, Fields, elems, get, dict_of, is_null}
use driftscribe.Plan.Denylist.Names.{Actions, adoptable_resource_types}
use driftscribe.Plan.Denylist.Checks.{is_mutation}
use driftscribe.Plan.Denylist.Evaluate.{
  Entry, malformed, row, read_entry, is_obj, importing_of, mutation_of,
}
use driftscribe.Plan.Denylist.Protected.{Unprotected}
use driftscribe.Plan.Denylist.Settled.{Settled}

-- What one well-formed entry must be: one of four actions, an import only of an adoptable type and
-- with nothing to change, and clear of the control plane if it changes or imports anything.
pub record Accepted (rtype : String) (change : Fields) (actions : Actions) : Type 0 where
  pub settled : Settled actions
  pub adoption :
      is_null (get change "importing") ≡ false
      → (is_obj (get change "importing") ≡ true)
        × (actions ≡ "no-op" ∷ [])
        × (contains adoptable_resource_types rtype ≡ true)
  pub unprotected :
      (is_mutation actions ≡ true) ⊎ (is_null (get change "importing") ≡ false)
      → Unprotected rtype (dict_of (get change "before")) (dict_of (get change "after"))

abbrev pub EntryAccepted : Entry → Type 0
EntryAccepted (malformed _) = ⊥
EntryAccepted (row rc rtype change actions) = Accepted rtype change actions

-- The entries that import, and the others that change something.
abbrev pub imports : List Json → List Json
imports [] = []
imports (j ∷ js) = importing_of (read_entry j) ++ imports js

abbrev pub mutations : List Json → List Json
mutations [] = []
mutations (j ∷ js) = mutation_of (read_entry j) ++ mutations js

abbrev pub AllAccepted : List Json → Type 0
AllAccepted = All (λ j. EntryAccepted (read_entry j))

-- The rules about the whole plan: at most one import, and an import only on its own.
abbrev pub Alone : List Json → List Json → Type 0
Alone importing others = (length importing ≤ 1) × ((importing ≡ []) ⊎ (others ≡ []))

-- A plan that may be applied: it lists its changes, each is accepted, and an import stands alone.
pub record Admissible (changes : List Json) : Type 0 where
  pub accepted : AllAccepted changes
  pub alone : Alone (imports changes) (mutations changes)

-- A plan whose list of changes is there and may be applied.
abbrev pub Passes : Json → Type 0
Passes (arr items) = Admissible (elems items)
Passes _ = ⊥
