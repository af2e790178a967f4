-- ===== src/Apply/Sequence.antt =====
-- workers/tofu_apply/tofu_runner.py: `run_apply_sequence` and what it calls. Each call of `run_tofu`
-- is recorded, newest first, and its answer may depend on the calls before it; a call that raises
-- anything has no answer. The flags of a command and the wording of errors are left out.
pub mod Gate
pub mod Cleared
pub mod Clean
use Prim.Native.Char.{code}
use Prim.Native.String
use driftscribe.Base.{
  ℕ, String, Bool, true, false, not, ◌&&◌, ◌||◌, Option, none, some, List, [], ◌∷◌, Result, ok,
  raised, if◌then◌else◌, ◌==◌, is_empty,
}
use driftscribe.Base.Json.{Json, bool, num, str, obj, Fields, get}
use driftscribe.Base.Value.{Python, json_eq}
use driftscribe.Base.Text.{◌=ₛ◌}
use driftscribe.Drift.Secrets.{folded, is_infix}
use driftscribe.Apply.Drift.Classify.{Verdict, refused, classify_refresh_drift}

-- `init`, `plan -refresh-only -out`, `show -json refresh.tfplan`, `state pull`, `apply plan.tfplan`,
-- and the `plan -refresh-only -lock=false` of the diagnosis.
pub data Command : Type 0 where
  init refresh_only show_refresh state_pull apply_plan diagnose : Command

-- A return code: below 0 for a process that a signal ended.
pub data Exit : Type 0 where
  exited signalled : ℕ → Exit

abbrev pub is_exit : Exit → ℕ → Bool
is_exit (exited n) m = n == m
is_exit (signalled n) m = false

pub record Answer : Type 0 where
  pub rc : Exit
  pub out : String
  pub err : String

-- What the sequence takes from outside: OpenTofu, `json.loads` (`none` where it raises), and Python.
pub record World : Type 0 where
  pub tofu : Command → List Command → Option Answer
  pub loads : String → Option Json
  pub py : Python

-- `PostFailureState`, without the two texts of the refresh.
pub record PostFailureState : Type 0 where
  pub state_suspect : Bool
  pub serial_before : Option Json
  pub serial_after : Option Json
  pub serial_bumped : Bool
  pub refresh_exit : Option Exit
  pub refresh_drift : Bool

-- The exceptions that leave the sequence; `escaped` stands for one that `run_tofu` raised.
pub data Failure : Type 0 where
  freshness_drift escaped : Failure
  lock_refused step_error : Command → Exit → String → Failure
  state_suspect : Exit → String → PostFailureState → Failure

pub data Run (A : Type 0) : Type 0 where
  went : A → Run A
  failed : Failure → Run A

-- A step takes the calls made so far and returns those made after it.
abbrev pub Step : Type 0 → Type 0
Step A = List Command → List Command × Run A

abbrev pub continue : {A B : Type 0} → (A → Step B) → List Command × Run A → List Command × Run B
continue next (ran, went x) = next x ran
continue next (ran, failed e) = (ran, failed e)

infixl 5 ◌>>=◌ ◌>>◌
abbrev pub ◌>>=◌ : {A B : Type 0} → Step A → (A → Step B) → Step B
(first >>= next) ran = continue next (first ran)

abbrev pub ◌>>◌ : {B : Type 0} → Step (Unit {0}) → Step B → Step B
first >> next = first >>= λ _. next

abbrev pub return : {A : Type 0} → A → Step A
return x ran = (ran, went x)

abbrev pub fail : {A : Type 0} → Failure → Step A
fail e ran = (ran, failed e)

-- A call of `run_tofu` under `try`.
unfoldable pub attempt : World → Command → Step (Option Answer)
attempt w c ran = (c ∷ ran, went (w.tofu c ran))

abbrev pub answered : Option Answer → Step Answer
answered none = fail escaped
answered (some a) = return a

-- A call of `run_tofu`.
unfoldable pub run_tofu : World → Command → Step Answer
run_tofu w c = attempt w c >>= answered

-- `_is_lock_contention`
unfoldable pub is_lock_contention : String → Bool
is_lock_contention stderr = is_infix (folded "error acquiring the state lock") (folded stderr)

-- `_raise_step_failure`
unfoldable pub step_failure : Command → Answer → Failure
step_failure step a =
    if is_lock_contention a.err then lock_refused step a.rc a.err else step_error step a.rc a.err

-- Whether `json.loads` reads the spelling of a number as an `int`: not so with a fraction or an
-- exponent, nor for `NaN`, `Infinity` and `-Infinity`.
unfoldable pub spells_int : String → Bool
spells_int String.[] = true
spells_int (String.◌∷◌ c s) =
    not (code c == b'.' || code c == b'e' || code c == b'E' || code c == b'N' || code c == b'I')
    && spells_int s

-- `serial if isinstance(serial, int) else None`: a Boolean is an `int`.
abbrev pub int_or_none : Json → Option Json
int_or_none (bool b) = some (bool b)
int_or_none (num n) = if spells_int n then some (num n) else none
int_or_none _ = none

abbrev pub str_or_none : Json → Option String
str_or_none (str s) = some s
str_or_none _ = none

-- The serial and the lineage of a state, where they could be read.
abbrev pub Reading : Type 0
Reading = Option Json × Option String

abbrev pub read_state : Option Json → Reading
read_state (some (obj doc)) = (int_or_none (get doc "serial"), str_or_none (get doc "lineage"))
read_state _ = (none, none)

unfoldable pub reading_of : World → Option Answer → Reading
reading_of w none = (none, none)
reading_of w (some a) = if not (is_exit a.rc 0) then (none, none) else read_state (w.loads a.out)

-- `_state_serial_lineage`
unfoldable pub state_serial_lineage : World → Step Reading
state_serial_lineage w = attempt w state_pull >>= λ a. return (reading_of w a)

abbrev pub same_serial : Python → Option Json → Option Json → Bool
same_serial py (some before) (some after) = json_eq py after before
same_serial py _ _ = false

abbrev pub other_serial : Python → Option Json → Option Json → Bool
other_serial py (some before) (some after) = not (json_eq py after before)
other_serial py _ _ = false

abbrev pub same_lineage : Option String → Option String → Bool
same_lineage (some before) (some after) = after =ₛ before
same_lineage _ _ = false

unfoldable pub provably_clean : Python → Reading → Reading → Exit → Bool
provably_clean py (serial, lineage) (serial', lineage') rc =
    same_serial py serial serial' && same_lineage lineage lineage' && is_exit rc 0

-- The verdict of the diagnosis on what its refresh answered.
unfoldable pub post_failure : Python → Reading → Reading → Option Answer → PostFailureState
post_failure py before after none = record {
  state_suspect = true;
  serial_before = before.0;
  serial_after = after.0;
  serial_bumped = other_serial py before.0 after.0;
  refresh_exit = none;
  refresh_drift = false;
}
post_failure py before after (some a) = record {
  state_suspect = not (provably_clean py before after a.rc);
  serial_before = before.0;
  serial_after = after.0;
  serial_bumped = other_serial py before.0 after.0;
  refresh_exit = some a.rc;
  refresh_drift = is_exit a.rc 2;
}

-- `_diagnose_post_failure_state`
unfoldable pub diagnose_post_failure_state : World → Reading → Step PostFailureState
diagnose_post_failure_state w before = do
  after ← state_serial_lineage w
  a ← attempt w diagnose
  return (post_failure w.py before after a)

abbrev pub verdict_or_refused : Result Verdict → Verdict
verdict_or_refused (ok v) = v
verdict_or_refused (raised e) = refused

abbrev pub classified : World → Option Json → Verdict
classified w none = refused
classified w (some show) = verdict_or_refused (classify_refresh_drift w.py show)

-- What `_refresh_drift_verdict` makes of the answer of `show`.
unfoldable pub verdict_of : World → Answer → Verdict
verdict_of w a = if not (is_exit a.rc 0) then refused else classified w (w.loads a.out)

-- `_refresh_drift_verdict`
unfoldable pub refresh_drift_verdict : World → Step Verdict
refresh_drift_verdict w = run_tofu w show_refresh >>= λ a. return (verdict_of w a)

pub record ApplyOutcome : Type 0 where
  pub freshness_exit : Exit
  pub state_serial : Option Json
  pub state_lineage : Option String
  pub benign_drift_paths : List String

-- What follows the answer to `init`.
unfoldable pub after_init : Answer → Step (Unit {0})
after_init a = if not (is_exit a.rc 0) then fail (step_failure init a) else return tt

unfoldable pub initialize : World → Step (Unit {0})
initialize w = run_tofu w init >>= after_init

-- The verdict on refresh drift, for the exit code 2.
unfoldable pub tolerated : Verdict → Step (List String)
tolerated verdict =
    if not verdict.benign
    then fail freshness_drift
    else if is_empty verdict.paths
    then fail freshness_drift
    else return verdict.paths

-- What follows the answer to the refresh: the exit code, and the drift that passes.
unfoldable pub after_refresh : World → Answer → Step (Exit × List String)
after_refresh w a =
    if is_exit a.rc 2
    then (do verdict ← refresh_drift_verdict w; paths ← tolerated verdict; return (a.rc, paths))
    else if not (is_exit a.rc 0)
    then fail (step_failure refresh_only a)
    else return (a.rc, [])

-- The freshness gate.
unfoldable pub freshness : World → Step (Exit × List String)
freshness w = run_tofu w refresh_only >>= after_refresh w

unfoldable pub after_diagnosis : Answer → PostFailureState → Step (Unit {0})
after_diagnosis a diag =
    if diag.state_suspect
    then fail (state_suspect a.rc a.err diag)
    else fail (step_error apply_plan a.rc a.err)

-- What follows the answer to `apply`: after a failure the exception, the lock's first.
unfoldable pub after_apply : World → Reading → Answer → Step (Unit {0})
after_apply w before a =
    if not (is_exit a.rc 0)
    then if is_lock_contention a.err
      then fail (lock_refused apply_plan a.rc a.err)
      else (diagnose_post_failure_state w before >>= after_diagnosis a)
    else return tt

-- The saved plan is applied, with the state read before.
unfoldable pub apply_saved_plan : World → Step (Unit {0})
apply_saved_plan w = do
  before ← state_serial_lineage w
  a ← run_tofu w apply_plan
  after_apply w before a

-- `run_apply_sequence`
unfoldable pub run_apply_sequence : World → Step ApplyOutcome
run_apply_sequence w = do
  initialize w
  (exit, paths) ← freshness w
  apply_saved_plan w
  (serial, lineage) ← state_serial_lineage w
  return (record {
    freshness_exit = exit;
    state_serial = serial;
    state_lineage = lineage;
    benign_drift_paths = paths;
  })
