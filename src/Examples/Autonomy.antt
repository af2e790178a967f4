-- ===== src/Examples/Autonomy.antt =====
-- Two tools, and a dial that cannot be read.
use driftscribe.Base.{ℕ, String, false, List, [], ◌∷◌, ◌≡◌, refl, ◌↔◌, arith}
use driftscribe.Base.Text.{contains}
use driftscribe.Base.Json.{obj, end}
use driftscribe.Autonomy.Dial.{
  Stored, unreadable, found, read_autonomy_state, filter_tools_for_mode, index,
}
use driftscribe.Autonomy.Pause.{read_pause_state}
use driftscribe.Autonomy.Closed.{Within, filter-Within, ReportsOnly, unreadable-ReportsOnly}
use driftscribe.Autonomy.Stopped.{Running, read_pause_state_iff}

abbrev tools : List (String × ℕ)
tools = ("read_env", 1) ∷ ("open_pr", 2) ∷ ("merge", 3) ∷ []

abbrev tiers : List (String × String)
tiers = ("read_env", "report") ∷ ("open_pr", "propose") ∷ []

filter-Within_example :
    Within
      (filter_tools_for_mode tools tiers "propose")
      (filter_tools_for_mode tools tiers "propose_apply")
unfolding contains index
filter-Within_example = filter-Within tools tiers "propose" "propose_apply" refl (omega arith)

unreadable-ReportsOnly_example :
    ReportsOnly tiers (filter_tools_for_mode tools tiers (read_autonomy_state unreadable).mode)
unreadable-ReportsOnly_example = unreadable-ReportsOnly unreadable tools tiers (λ h. h)

abbrev clobbered : Stored
clobbered = found (obj end)

read_pause_state_iff_example : ((read_pause_state clobbered).paused ≡ false) ↔ Running clobbered
read_pause_state_iff_example = read_pause_state_iff clobbered
