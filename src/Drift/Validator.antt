-- ===== src/Drift/Validator.antt =====
-- agent/validator.py. `validate` raises `ValidationError`, here a `value_error` with a short text in
-- place of the message. A proposal's action is one of the enumeration, so step 1 never fails.
pub mod Observed
pub mod Reported
pub mod Rollback
use Prim.Native.Char.{code}
use Prim.Native.String
use driftscribe.Base.{
  ℕ, zero, suc, ◌+◌, String, Bool, true, false, not, ◌&&◌, ◌||◌, Option, none, some, List, [], ◌∷◌,
  Result, ok, raised, value_error, require, ◌>>=◌, ◌>>◌, if◌then◌else◌, is_empty, leb, ◌==◌,
}
use driftscribe.Base.Text.{◌=ₛ◌}
use driftscribe.Drift.Models.{
  ContractStatus, absent, present_allow_manual, present_disallow_manual, DecisionAction, docs_pr,
  drift_issue, escalation, no_op, rollback, upgrade_pr, EnvDiff, DecisionProposal, in_unit_range,
}
use driftscribe.Drift.Contract.{lookup, escapes, EnvVarRule, OpsContract, truthy}
use driftscribe.Drift.Secrets.{is_secret_name}

abbrev pub is_lower : ℕ → Bool
is_lower c = leb b'a' c && leb c b'z'

abbrev pub is_digit : ℕ → Bool
is_digit c = leb b'0' c && leb c b'9'

-- The rest of a revision name: at most `room` characters of `[a-z0-9-]`, then one of `[a-z0-9]`.
unfoldable pub is_revision_tail : ℕ → String → Bool
is_revision_tail room String.[] = false
is_revision_tail room (String.◌∷◌ c String.[]) = is_lower (code c) || is_digit (code c)
is_revision_tail zero (String.◌∷◌ c (String.◌∷◌ d s)) = false
is_revision_tail (suc room) (String.◌∷◌ c (String.◌∷◌ d s)) =
    (is_lower (code c) || is_digit (code c) || code c == b'-')
    && is_revision_tail room (String.◌∷◌ d s)

-- `_REVISION_NAME.fullmatch(rev)`
unfoldable pub is_revision_name : String → Bool
unfolding is_revision_tail
is_revision_name String.[] = false
is_revision_name (String.◌∷◌ c s) = is_lower (code c) && is_revision_tail 62 s

-- The characters that `str.strip` removes.
abbrev pub is_space : ℕ → Bool
is_space c =
    (leb 9 c && leb c 13)
    || (leb 28 c && leb c 32)
    || c == 133
    || c == 160
    || c == 5760
    || (leb 8192 c && leb c 8202)
    || c == 8232
    || c == 8233
    || c == 8239
    || c == 8287
    || c == 12288

-- `not s.strip()`
unfoldable pub is_blank : String → Bool
is_blank String.[] = true
is_blank (String.◌∷◌ c s) = is_space (code c) && is_blank s

-- `_validate_path`
unfoldable pub validate_path : Option String → Result (Unit {0})
validate_path none = ok tt
validate_path (some p) = require (not (escapes p)) "target docs path rejected"

-- Equality of optional texts, Python's `==` on `str | None`.
abbrev pub same_value : Option String → Option String → Bool
same_value none none = true
same_value (some a) (some b) = a =ₛ b
same_value _ _ = false

abbrev pub LiveEnv : Type 0
LiveEnv = List (String × String)

-- Whether an observed value is one of those that the live-env gate counts.
abbrev pub counts : EnvVarRule → Option String → Bool
counts rule none = false
counts rule (some v) = not rule.allow_manual_change && not (v =ₛ rule.value)

-- The loop of `_authorize_rollback_from_live_env`.
unfoldable pub observed_violations : List (String × EnvVarRule) → LiveEnv → ℕ
observed_violations [] env = 0
observed_violations ((name, rule) ∷ rest) env =
    let later = observed_violations rest env in
    if counts rule (lookup name env) then suc later else later

unfoldable pub authorize_rollback_from_live_env : OpsContract → Option LiveEnv → Result (Unit {0})
authorize_rollback_from_live_env contract none =
    raised (value_error "no observed live env available")
authorize_rollback_from_live_env contract (some env) =
    require (not (observed_violations contract.expected_env env == 0))
      "no confirmed hard contract violation was observed"

abbrev pub Seen : Type 0
Seen = List (String × Option String)

abbrev pub agrees_with_seen : Option (Option String) → Option String → Bool
agrees_with_seen none live = true
agrees_with_seen (some earlier) live = same_value earlier live

-- The loop that refuses two live values for one variable.
unfoldable pub no_conflicts : Seen → List EnvDiff → Result (Unit {0})
no_conflicts seen [] = ok tt
no_conflicts seen (diff ∷ diffs) = do
  require (agrees_with_seen (lookup diff.name seen) diff.live) "conflicting live values"
  no_conflicts ((diff.name, diff.live) ∷ seen) diffs

-- What the contract makes of one reported diff: no deviation, or the status derived from it.
unfoldable pub derived_status : Option EnvVarRule → Option String → Option ContractStatus
derived_status none none = none
derived_status none (some v) = some absent
derived_status (some rule) live =
    if same_value live (some rule.value)
    then none
    else some (if rule.allow_manual_change then present_allow_manual else present_disallow_manual)

abbrev pub tally : Option ContractStatus → ℕ → Result ℕ
tally none n = ok n
tally (some present_disallow_manual) n = ok (suc n)
tally (some _) n = raised (value_error "contract-derived status is not present_disallow_manual")

-- The loop that counts the reported hard violations.
unfoldable pub reported_violations : OpsContract → List EnvDiff → ℕ → Result ℕ
reported_violations contract [] n = ok n
reported_violations contract (diff ∷ diffs) n = do
  m ← tally (derived_status (lookup diff.name contract.expected_env) diff.live) n
  reported_violations contract diffs m

unfoldable pub check_revision : Option String → Result (Unit {0})
check_revision none = raised (value_error "rollback requires target_revision")
check_revision (some rev) = do
  require (not (is_blank rev)) "rollback requires target_revision"
  require (is_revision_name rev) "target_revision does not match"

-- Step 5.
unfoldable pub check_rollback : DecisionProposal → OpsContract → Option LiveEnv → Result (Unit {0})
check_rollback proposal contract live_env = do
  check_revision proposal.target_revision
  require proposal.requires_human_review "rollback requires requires_human_review"
  no_conflicts [] proposal.env_diffs
  violations ← reported_violations contract proposal.env_diffs 0
  require (not (violations == 0)) "no env_diff deviates from the contract"
  authorize_rollback_from_live_env contract live_env

abbrev pub check_sanction : Option EnvVarRule → EnvDiff → Result (Unit {0})
check_sanction none diff = require (truthy diff.recent_pr_match) "requires recent_pr_match evidence"
check_sanction (some rule) diff =
    require rule.allow_manual_change "contract says allow_manual_change=False"

-- The first loop of step 6.
unfoldable pub check_documented : OpsContract → List EnvDiff → Result (Unit {0})
check_documented contract [] = ok tt
check_documented contract (diff ∷ diffs) = do
  require (not (is_secret_name diff.name)) "would document secret-like var"
  check_sanction (lookup diff.name contract.expected_env) diff
  check_documented contract diffs

abbrev pub check_target : Option EnvVarRule → String → String → Result (Unit {0})
check_target none file section = ok tt
check_target (some rule) file section = do
  require (rule.docs.file =ₛ file) "target_docs_file does not match"
  require (rule.docs.section =ₛ section) "target_docs_section does not match"

-- The second loop of step 6.
unfoldable pub check_targets : OpsContract → String → String → List EnvDiff → Result (Unit {0})
check_targets contract file section [] = ok tt
check_targets contract file section (diff ∷ diffs) = do
  check_target (lookup diff.name contract.expected_env) file section
  check_targets contract file section diffs

abbrev pub text_of : Option String → String
text_of none = ""
text_of (some s) = s

-- Step 6.
unfoldable pub check_docs_pr : DecisionProposal → OpsContract → Result (Unit {0})
check_docs_pr proposal contract = do
  require (truthy proposal.target_docs_file) "docs_pr requires target_docs_file"
  require (truthy proposal.target_docs_section) "docs_pr requires target_docs_section"
  check_documented contract proposal.env_diffs
  check_targets contract (text_of proposal.target_docs_file) (text_of proposal.target_docs_section)
      proposal.env_diffs

abbrev pub is_drift_action : DecisionAction → Bool
is_drift_action upgrade_pr = false
is_drift_action _ = true

abbrev pub is_no_op : DecisionAction → Bool
is_no_op no_op = true
is_no_op _ = false

-- Steps 5 and 6, by the action.
unfoldable pub check_semantics :
    DecisionAction → DecisionProposal → OpsContract → Option LiveEnv → Result (Unit {0})
check_semantics rollback proposal contract live_env = check_rollback proposal contract live_env
check_semantics docs_pr proposal contract live_env = check_docs_pr proposal contract
check_semantics _ proposal contract live_env = ok tt

unfoldable pub validate : DecisionProposal → OpsContract → Option LiveEnv → Result (Unit {0})
validate proposal contract live_env = do
  require (is_drift_action proposal.action) "not in the drift workload's action set"
  require (in_unit_range proposal.confidence) "confidence out of range"
  require (is_no_op proposal.action || not (is_empty proposal.env_diffs))
      "requires at least one env_diff"
  validate_path proposal.target_docs_file
  check_semantics proposal.action proposal contract live_env
