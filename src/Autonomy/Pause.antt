-- ===== src/Autonomy/Pause.antt =====
-- agent/pause.py.
use driftscribe.Base.{String, Bool, true, false}
use driftscribe.Base.Json.{Json, null, bool, str, obj, Fields, get}
use driftscribe.Autonomy.Dial.{Stored, unreadable, absent, found}

abbrev pub pause_fail_closed_reason : String
pause_fail_closed_reason = "pause state could not be read — failing closed"

pub record PauseState : Type 0 where
  pub paused : Bool
  pub reason : Json
  pub actor : Json
  pub updated_at : Json
  pub read_error : Bool

abbrev pub paused_by_error : PauseState
paused_by_error = record {
  paused = true;
  reason = str pause_fail_closed_reason;
  actor = null;
  updated_at = null;
  read_error = true;
}

abbrev pub pause_of : Fields → Json → PauseState
pause_of doc (bool b) = record {
  paused = b;
  reason = get doc "reason";
  actor = get doc "actor";
  updated_at = get doc "updated_at";
  read_error = false;
}
pause_of doc _ = paused_by_error

abbrev pub not_paused : PauseState
not_paused = record {
  paused = false;
  reason = null;
  actor = null;
  updated_at = null;
  read_error = false;
}

unfoldable pub read_pause_state : Stored → PauseState
read_pause_state unreadable = paused_by_error
read_pause_state absent = not_paused
read_pause_state (found null) = not_paused
read_pause_state (found (obj doc)) = pause_of doc (get doc "paused")
read_pause_state (found _) = paused_by_error
