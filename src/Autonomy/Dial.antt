-- ===== src/Autonomy/Dial.antt =====
-- agent/autonomy.py. A read of the store ends in an exception, in no document, or in a document.
use driftscribe.Base.{
  ℕ, suc, String, Bool, true, false, ◌&&◌, Option, none, some, List, [], ◌∷◌, if◌then◌else◌, leb,
}
use driftscribe.Base.Text.{◌=ₛ◌, contains}
use driftscribe.Base.Json.{Json, null, str, obj, Fields, get}
use driftscribe.Drift.Contract.{lookup}

pub data Stored : Type 0 where
  unreadable : Stored
  absent : Stored
  found : Json → Stored

abbrev pub autonomy_modes : List String
autonomy_modes = "observe" ∷ "propose" ∷ "propose_apply" ∷ []

abbrev pub default_mode : String
default_mode = "propose_apply"

abbrev pub fail_closed_reason : String
fail_closed_reason = "autonomy state could not be read — failing closed to Observe"

pub record AutonomyState : Type 0 where
  pub mode : String
  pub reason : Json
  pub actor : Json
  pub updated_at : Json
  pub read_error : Bool

abbrev pub closed_state : AutonomyState
closed_state = record {
  mode = "observe";
  reason = str fail_closed_reason;
  actor = null;
  updated_at = null;
  read_error = true;
}

-- A document whose `mode` is one of the modes, or anything else.
abbrev pub state_of : Fields → Json → AutonomyState
state_of doc (str mode) =
    if contains autonomy_modes mode
    then record {
      mode = mode;
      reason = get doc "reason";
      actor = get doc "actor";
      updated_at = get doc "updated_at";
      read_error = false;
    }
    else closed_state
state_of doc _ = closed_state

abbrev pub never_chosen : AutonomyState
never_chosen = record {
  mode = default_mode;
  reason = null;
  actor = null;
  updated_at = null;
  read_error = false;
}

unfoldable pub read_autonomy_state : Stored → AutonomyState
read_autonomy_state unreadable = closed_state
read_autonomy_state absent = never_chosen
read_autonomy_state (found null) = never_chosen
read_autonomy_state (found (obj doc)) = state_of doc (get doc "mode")
read_autonomy_state (found _) = closed_state

abbrev pub tier_min_mode : List (String × String)
tier_min_mode = ("report", "observe") ∷ ("propose", "propose") ∷ ("apply", "propose_apply") ∷ []

-- `AUTONOMY_MODES.index(mode)`, for a mode that is in the list.
unfoldable pub index : List String → String → ℕ
index [] mode = 0
index (m ∷ modes) mode = let later = index modes mode in if mode =ₛ m then 0 else suc later

abbrev pub allows : Option String → String → Bool
allows none mode = false
allows (some min_mode) mode =
    contains autonomy_modes mode && leb (index autonomy_modes min_mode) (index autonomy_modes mode)

unfoldable pub mode_allows : String → String → Bool
mode_allows mode tier = allows (lookup tier tier_min_mode) mode

-- `tiers.get(name, "apply")`
abbrev pub tier_or_apply : Option String → String
tier_or_apply none = "apply"
tier_or_apply (some tier) = tier

unfoldable pub filter_tools_for_mode {ℓ} :
    {Tool : Type ℓ} → List (String × Tool) → List (String × String) → String → List (String × Tool)
filter_tools_for_mode [] tiers mode = []
filter_tools_for_mode ((name, fn) ∷ tools) tiers mode =
    let rest = filter_tools_for_mode tools tiers mode in
    if mode_allows mode (tier_or_apply (lookup name tiers)) then (name, fn) ∷ rest else rest
