-- ===== src/Rollback/CloudRun.antt =====
-- workers/rollback/main.py: the calls of Cloud Run. What the service answers during one request is
-- a record of the answers; a call that raises gives the name of the exception's class.
use driftscribe.Base.{ℕ, String, Bool, true, false, not, ◌&&◌, List, [], ◌∷◌, ◌==◌, if◌then◌else◌}
use driftscribe.Base.Text.{◌=ₛ◌}

pub data Answer (A : Type 0) : Type 0 where
  gave : A → Answer A
  failed : String → Answer A

-- How `op.result(timeout)` ends. If it raises, the operation shows whether it is done and its
-- error code, 0 for none.
pub data Poll : Type 0 where
  succeeded : Poll
  timed_out : Poll
  broke : String → Bool → ℕ → Poll

-- The tags of the traffic targets at the preflight and at the start, the operation's name, and the
-- poll.
pub record CloudRun : Type 0 where
  pub preflight : Answer (List String)
  pub service : Answer (List String)
  pub update_service : Answer String
  pub poll : Poll

-- `_assert_no_tagged_targets`, the loop: whether a traffic target has a tag.
unfoldable pub any_tagged : List String → Bool
any_tagged [] = false
any_tagged (tag ∷ tags) = let later = any_tagged tags in if tag =ₛ "" then later else true

-- How `_start_traffic_update` ends: an operation, an `HTTPException` with its code and the code's
-- digits, or another exception.
pub data Started : Type 0 where
  operation : String → Started
  refused : ℕ → String → Started
  lost : String → Started

abbrev pub asked : Answer String → Started
asked (gave name) = operation name
asked (failed error) = lost error

abbrev pub start_tagged : Bool → String → Answer String → List String × Started
start_tagged true target_revision reply = ([], refused 409 "409")
start_tagged false target_revision reply = (target_revision ∷ [], asked reply)

-- `_start_traffic_update`, with the revisions that it asked for.
unfoldable pub start_traffic_update :
    Answer (List String) → Answer String → String → List String × Started
start_traffic_update (failed error) reply target_revision = ([], lost error)
start_traffic_update (gave tags) reply target_revision =
    start_tagged (any_tagged tags) target_revision reply

-- `_is_established_failure`
unfoldable pub is_established_failure : Bool → ℕ → Bool
is_established_failure done error_code = done && not (error_code == 0)
