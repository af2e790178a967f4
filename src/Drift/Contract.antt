-- ===== src/Drift/Contract.antt =====
-- agent/contract.py: the operations contract and the validators of its fields.
use Prim.Native.Char.{code}
use Prim.Native.String
use driftscribe.Base.{
  String, Bool, false, not, ◌||◌, Option, none, some, List, [], ◌∷◌, Result, require, ◌>>◌, ok,
  if◌then◌else◌, ◌==◌,
}
use driftscribe.Base.Text.{◌=ₛ◌, starts_with, contains, has_infix}

-- An association list for a Python dict: the first pair with a key counts.
unfoldable pub lookup {ℓ} : {V : Type ℓ} → String → List (String × V) → Option V
lookup key [] = none
lookup key ((k, v) ∷ rest) = if k =ₛ key then some v else lookup key rest

-- One character more at the front of the first part.
abbrev pub grow : List String → String → List String
grow [] c = c ∷ []
grow (p ∷ ps) c = String.◌++◌ c p ∷ ps

-- The parts of a path between slashes. `Path(v).parts` also drops empty and `.` parts, which no
-- rule looks for.
unfoldable pub parts : String → List String
parts String.[] = "" ∷ []
parts (String.◌∷◌ c s) =
    let rest = parts s in if code c == b'/' then "" ∷ rest else grow rest (String.◌∷◌ c String.[])

-- `v.startswith("/") or ".." in Path(v).parts`
unfoldable pub escapes : String → Bool
escapes v = starts_with v "/" || contains (parts v) ".."

pub record DocsRef : Type 0 where
  pub file : String
  pub section : String

pub record EnvVarRule : Type 0 where
  pub value : String
  pub docs : DocsRef
  pub allow_manual_change : Bool
  pub operator_note : Option String

pub record OpsContract : Type 0 where
  pub service : String
  pub environment : String
  pub cloud_run_service : String
  pub region : String
  pub github_repo : String
  pub expected_env : List (String × EnvVarRule)

unfoldable pub no_path_traversal : DocsRef → Result (Unit {0})
no_path_traversal docs = require (not (escapes docs.file)) "invalid docs.file path"

-- Truth of an optional text: `None` and the empty text are false.
abbrev pub truthy : Option String → Bool
truthy none = false
truthy (some s) = not (s =ₛ "")

abbrev pub is_multiline : Option String → Bool
is_multiline none = false
is_multiline (some s) = has_infix s "\n" || has_infix s "\r"

unfoldable pub operator_note_required_when_manual : EnvVarRule → Result (Unit {0})
operator_note_required_when_manual rule =
    require (not rule.allow_manual_change || truthy rule.operator_note) "operator_note is required"
    >> require (not (is_multiline rule.operator_note)) "operator_note must be a single line"

-- The validators that run over every rule when a contract is loaded.
unfoldable pub check_rules : List (String × EnvVarRule) → Result (Unit {0})
unfolding no_path_traversal operator_note_required_when_manual
check_rules [] = ok tt
check_rules ((name, rule) ∷ rest) =
    no_path_traversal rule.docs >> (operator_note_required_when_manual rule >> check_rules rest)
