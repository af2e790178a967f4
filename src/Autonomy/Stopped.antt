-- ===== src/Autonomy/Stopped.antt =====
-- agent/pause.py: when the agent may go on.
use driftscribe.Base.{true, false, ◌≡◌, refl, ◌↔◌}
use driftscribe.Base.Json.{Json, null, bool, obj, Fields, get}
use driftscribe.Autonomy.Dial.{Stored, unreadable, absent, found}
use driftscribe.Autonomy.Pause.{read_pause_state, pause_of}

-- No document, or `None`, or one that says that the agent is not paused.
abbrev pub Running : Stored → Type 0
Running unreadable = ⊥
Running absent = Unit
Running (found null) = Unit
Running (found (obj doc)) = get doc "paused" ≡ bool false
Running (found _) = ⊥

pause_of_iff : (doc : Fields) (j : Json) → ((pause_of doc j).paused ≡ false) ↔ (j ≡ bool false)
pause_of_iff doc (bool true) = ((λ e. absurd cc), λ e. absurd cc)
pause_of_iff doc (bool false) = ((λ e. refl), λ e. refl)
pause_of_iff doc null = ((λ e. absurd cc), λ e. absurd cc)
pause_of_iff doc _ = ((λ e. absurd cc), λ e. absurd cc)

-- The pause flag reads as not paused exactly if there is no document, or `None` for one, or the document
-- is an object whose `paused` is false; a failed read and any other document count as paused.
pub read_pause_state_iff : (s : Stored) → ((read_pause_state s).paused ≡ false) ↔ Running s
unfolding read_pause_state
read_pause_state_iff unreadable = ((λ e. cc), λ h. absurd h)
read_pause_state_iff absent = ((λ e. tt), λ h. refl)
read_pause_state_iff (found (obj doc)) = pause_of_iff doc (get doc "paused")
read_pause_state_iff (found null) = ((λ e. tt), λ h. refl)
read_pause_state_iff (found (bool b)) = ((λ e. cc), λ h. absurd h)
read_pause_state_iff (found _) = ((λ e. cc), λ h. absurd h)
