-- ===== src/Drift/Classifier.antt =====
-- agent/classifier.py. Which characters belong to a word, Python's `\w`, is a parameter.
pub mod Valid
pub mod Among
pub mod Rounds
pub mod Evidence
pub mod Judged
use Prim.Native.Char.{code}
use Prim.Native.String
use driftscribe.Base.{
  ℕ, String, Bool, true, false, not, ◌&&◌, ◌||◌, Option, none, some, List, [], ◌∷◌, ◌++◌, map,
  Result, ok, raised, value_error, if◌then◌else◌, ltb, ◌==◌,
}
use driftscribe.Base.Text.{◌=ₛ◌, strip_prefix?}
use driftscribe.Base.Sorted.{sorted_names}
use driftscribe.Drift.Models.{
  ContractStatus, absent, present_allow_manual, present_disallow_manual, DecisionAction, docs_pr,
  drift_issue, escalation, no_op, EnvDiff, DecisionProposal, thousandths,
}
use driftscribe.Drift.Contract.{lookup, EnvVarRule, OpsContract, truthy}
use driftscribe.Drift.Validator.{LiveEnv, same_value}

-- A pull request. A text is `none` where the value is `None`, which the code prints as "None"; a
-- key that is missing counts as the empty text.
pub record PullRequest : Type 0 where
  pub merged : Bool
  pub title : Option String
  pub body : Option String
  pub url : Option String

abbrev pub shown : Option String → String
shown none = "None"
shown (some s) = s

abbrev pub differs : Bool → Bool → Bool
differs true b = not b
differs false b = b

abbrev pub starts_word : (ℕ → Bool) → String → Bool
starts_word is_word String.[] = false
starts_word is_word (String.◌∷◌ c s) = is_word (code c)

-- Whether the last character of the name, or the one before it if the name is empty, is of a word.
unfoldable pub ends_word : (ℕ → Bool) → Bool → String → Bool
ends_word is_word before String.[] = before
ends_word is_word before (String.◌∷◌ c s) = ends_word is_word (is_word (code c)) s

abbrev pub ends_at : (ℕ → Bool) → Bool → String → Option String → Bool
ends_at is_word before name none = false
ends_at is_word before name (some rest) =
    differs (ends_word is_word before name) (starts_word is_word rest)

-- `token.search(haystack)` for `\b`, the name, `\b`; `before` tells of the character before.
unfoldable pub token_search : (ℕ → Bool) → Bool → String → String → Bool
token_search is_word before name String.[] =
    differs before false && ends_at is_word before name (strip_prefix? String.[] name)
token_search is_word before name (String.◌∷◌ c s) =
    (differs before (is_word (code c))
      && ends_at is_word before name (strip_prefix? (String.◌∷◌ c s) name))
    || token_search is_word (is_word (code c)) name s

-- `_strict_pr_match`
unfoldable pub strict_pr_match : (ℕ → Bool) → List PullRequest → String → Option String
strict_pr_match is_word [] name = none
strict_pr_match is_word (pr ∷ prs) name =
    let rest = strict_pr_match is_word prs name in
    let haystack = String.◌++◌ (shown pr.title) (String.◌++◌ " " (shown pr.body)) in
    if not pr.merged
    then rest
    else if token_search is_word false name haystack
    then pr.url
    else rest

abbrev pub Finding : Type 0
Finding = EnvDiff × DecisionAction

abbrev pub absent_finding : String → Option String → Option String → Finding
absent_finding name live pr_url = (
  record {
    name = name;
    expected = none;
    live = live;
    contract_status = absent;
    debug_config_value = none;
    recent_pr_match = pr_url;
  },
  if truthy pr_url then docs_pr else escalation,
)

abbrev pub present_finding : String → EnvVarRule → Option String → Finding
present_finding name rule live = (
  record {
    name = name;
    expected = some rule.value;
    live = live;
    contract_status =
        if rule.allow_manual_change then present_allow_manual else present_disallow_manual;
    debug_config_value = none;
    recent_pr_match = none;
  },
  if rule.allow_manual_change then docs_pr else drift_issue,
)

-- One round of the loop: the diff and the action that it appends, if any.
unfoldable pub finding :
    (ℕ → Bool) → List PullRequest → Option EnvVarRule → Option String → String → List Finding
finding is_word prs none live name =
    absent_finding name live (strict_pr_match is_word prs name) ∷ []
finding is_word prs (some rule) live name =
    if same_value live (some rule.value) then [] else present_finding name rule live ∷ []

unfoldable pub findings :
    (ℕ → Bool) → OpsContract → LiveEnv → List PullRequest → List String → List Finding
findings is_word contract env prs [] = []
findings is_word contract env prs (name ∷ names) =
    finding is_word prs (lookup name contract.expected_env) (lookup name env) name
    ++ findings is_word contract env prs names

abbrev pub same_action : DecisionAction → DecisionAction → Bool
same_action docs_pr docs_pr = true
same_action drift_issue drift_issue = true
same_action escalation escalation = true
same_action _ _ = false

unfoldable pub among : DecisionAction → List Finding → Bool
among a [] = false
among a ((diff, b) ∷ fs) = same_action a b || among a fs

-- `next(p for p in _ACTION_PRIORITY if p in actions)`; `none` stands for `StopIteration`.
unfoldable pub chosen : List Finding → Option DecisionAction
chosen fs =
    if among drift_issue fs
    then some drift_issue
    else if among escalation fs
    then some escalation
    else if among docs_pr fs
    then some docs_pr
    else none

abbrev pub rationale_of : DecisionAction → String
rationale_of docs_pr =
    "Change is sanctioned (contract allows manual or a recent merged PR mentions the var); updating docs."
rationale_of drift_issue =
    "Change violates the contract (allow_manual_change=false). Refusing to document."
rationale_of _ =
    "Variable observed in production has no contract entry and no recent merged PR mentions it. Reviewer needed."

abbrev pub is_escalation : DecisionAction → Bool
is_escalation escalation = true
is_escalation _ = false

abbrev pub file_of : Option EnvVarRule → String
file_of none = "demo/docs/runbook.md"
file_of (some rule) = rule.docs.file

abbrev pub section_of : Option EnvVarRule → String
section_of none = "Runtime Configuration"
section_of (some rule) = rule.docs.section

abbrev pub proposal_of :
    Option DecisionAction → OpsContract → Finding → List Finding → Result DecisionProposal
proposal_of none contract primary others = raised (value_error "StopIteration")
proposal_of (some action) contract primary others =
    let rule = lookup primary.0.name contract.expected_env in
    ok (record {
      action = action;
      env_diffs = primary.0 ∷ map (λ f. f.0) others;
      target_docs_file = some (file_of rule);
      target_docs_section = some (section_of rule);
      target_revision = none;
      rationale = rationale_of action;
      confidence = thousandths 900;
      requires_human_review = is_escalation action;
      blocked_reason = none;
    })

unfoldable pub conclude : OpsContract → List Finding → Result DecisionProposal
conclude contract [] = ok (record {
  action = no_op;
  env_diffs = [];
  target_docs_file = none;
  target_docs_section = none;
  target_revision = none;
  rationale = "Live state matches contract.";
  confidence = thousandths 1000;
  requires_human_review = false;
  blocked_reason = none;
})
conclude contract (primary ∷ others) =
    proposal_of (chosen (primary ∷ others)) contract primary others

-- `classify`
unfoldable pub classify :
    (ℕ → Bool) → OpsContract → LiveEnv → List PullRequest → Result DecisionProposal
classify is_word contract env prs = conclude contract (
    findings is_word contract env prs
      (sorted_names (map (λ p. p.0) contract.expected_env ++ map (λ p. p.0) env)))
