-- ===== src/Drift/Classifier/Valid.antt =====
-- agent/classifier.py and agent/validator.py: the proposals of the classifier under the validator.
use mathlib.Core.Path.{subst}
use driftscribe.Base.{
  ℕ, String, Bool, true, false, not, Option, none, some, List, [], ◌∷◌, ok, ◌≡◌, refl, ◌⊎◌, inl,
  inr, arith, All, Bool-cases, >>-eq-ok, require-eq-ok, if◌then◌else◌, ◌>>◌, All-append,
}
use driftscribe.Base.Text.{◌=ₛ◌, starts_with, strip_prefix?, contains}
use driftscribe.Drift.Models.{
  DecisionAction, docs_pr, drift_issue, escalation, no_op, rollback, upgrade_pr, DecisionProposal,
}
use driftscribe.Drift.Contract.{
  lookup, escapes, parts, operator_note_required_when_manual, DocsRef, EnvVarRule, OpsContract,
  check_rules, no_path_traversal,
}
use driftscribe.Drift.Validator.{LiveEnv, validate, validate_path, same_value, check_semantics}
use driftscribe.Drift.Classifier.{
  PullRequest, Finding, finding, findings, among, chosen, proposal_of, conclude, file_of,
  same_action,
}

docs-safe : (docs : DocsRef) → no_path_traversal docs ≡ ok tt → escapes docs.file ≡ false
unfolding no_path_traversal
docs-safe docs h = let p = (require-eq-ok (not (escapes docs.file)) _).0 h in ground arith

-- A rule that a checked contract finds has a safe path.
rules-safe :
    (name : String) (rules : List (String × EnvVarRule)) (rule : EnvVarRule)
    → check_rules rules ≡ ok tt
    → lookup name rules ≡ some rule
    → escapes rule.docs.file ≡ false
unfolding check_rules lookup
rules-safe name [] rule h e = absurd cc
rules-safe name ((k, r) ∷ rest) rule h e =
    let note = operator_note_required_when_manual r in
    let (safe, more) = (>>-eq-ok (no_path_traversal r.docs) (note >> check_rules rest)).0 h in
    let (noted, later) = (>>-eq-ok note (check_rules rest)).0 more in
    elim (Bool-cases (k =ₛ name)) [
      | inl here ↦
          let f = rw here at e in
          let same : r ≡ rule = cc in
          subst (λ (x : EnvVarRule). escapes x.docs.file ≡ false) same (docs-safe r.docs safe)
      | inr other ↦ rules-safe name rest rule later (rw other at e)
    ]

file-safe :
    (o : Option EnvVarRule)
    → ((rule : EnvVarRule) → o ≡ some rule → escapes rule.docs.file ≡ false)
    → validate_path (some (file_of o)) ≡ ok tt
unfolding validate_path escapes parts starts_with strip_prefix? contains
file-safe none h = refl
file-safe (some rule) h = rw (h rule refl)

-- The three actions that the classifier chooses from its findings.
abbrev pub Chosen : Option DecisionAction → Type 0
Chosen (some drift_issue) = Unit
Chosen (some escalation) = Unit
Chosen (some docs_pr) = Unit
Chosen _ = ⊥

-- Every action that a round appends is one of the three, so one of them is found.
abbrev pub Listed : DecisionAction → Type 0
Listed a = ((a ≡ drift_issue) ⊎ (a ≡ escalation)) ⊎ (a ≡ docs_pr)

unlisted :
    (a : DecisionAction)
    → Listed a
    → same_action drift_issue a ≡ false
    → same_action escalation a ≡ false
    → same_action docs_pr a ≡ false
    → ⊥
unlisted a (inl (inl e)) p q r = let f = rw e at p in cc
unlisted a (inl (inr e)) p q r = let f = rw e at q in cc
unlisted a (inr e) p q r = let f = rw e at r in cc

pub chosen-Chosen : (f : Finding) (fs : List Finding) → Listed f.1 → Chosen (chosen (f ∷ fs))
unfolding chosen among
chosen-Chosen (d, drift_issue) fs l = tt
chosen-Chosen (d, escalation) fs l = elim (Bool-cases (among drift_issue fs)) [
  | inl e ↦ rw e tt
  | inr e ↦ rw e tt
]
chosen-Chosen (d, docs_pr) fs l = elim (Bool-cases (among drift_issue fs)) [
  | inl e ↦ rw e tt
  | inr e ↦ elim (Bool-cases (among escalation fs)) [
    | inl f ↦ rw e (rw f tt)
    | inr f ↦ rw e (rw f tt)
  ]
]
chosen-Chosen (d, no_op) fs l = absurd (unlisted no_op l refl refl refl)
chosen-Chosen (d, rollback) fs l = absurd (unlisted rollback l refl refl refl)
chosen-Chosen (d, upgrade_pr) fs l = absurd (unlisted upgrade_pr l refl refl refl)

if-Listed : (b : Bool) (x y : DecisionAction) → Listed x → Listed y → Listed (if b then x else y)
if-Listed true x y l m = l
if-Listed false x y l m = m

finding-Listed :
    (is_word : ℕ → Bool) (prs : List PullRequest) (o : Option EnvVarRule) (live : Option String)
    (name : String)
    → All (λ f. Listed f.1) (finding is_word prs o live name)
unfolding finding
finding-Listed is_word prs none live name =
    (if-Listed _ docs_pr escalation (inr refl) (inl (inr refl)), tt)
finding-Listed is_word prs (some rule) live name =
    elim (Bool-cases (same_value live (some rule.value))) [
      | inl e ↦ rw e tt
      | inr e ↦
          rw e
            (if-Listed rule.allow_manual_change docs_pr drift_issue (inr refl) (inl (inl refl)), tt)
    ]

pub findings-Listed :
    (is_word : ℕ → Bool) (contract : OpsContract) (env : LiveEnv) (prs : List PullRequest)
    (names : List String)
    → All (λ f. Listed f.1) (findings is_word contract env prs names)
unfolding findings
findings-Listed is_word contract env prs [] = tt
findings-Listed is_word contract env prs (name ∷ names) =
    All-append _ _ _ (finding-Listed is_word prs _ _ name)
      (findings-Listed is_word contract env prs names)

-- A proposal that passes, or one for a docs pull request.
abbrev pub Passing : OpsContract → Option LiveEnv → DecisionProposal → Type 0
Passing contract live p = (p.action ≡ docs_pr) ⊎ (validate p contract live ≡ ok tt)

proposal_of-Passing :
    (o : Option DecisionAction) (contract : OpsContract) (live : Option LiveEnv) (primary : Finding)
    (others : List Finding)
    → check_rules contract.expected_env ≡ ok tt
    → Chosen o
    → (p : DecisionProposal) × (proposal_of o contract primary others ≡ ok p)
      × Passing contract live p
unfolding validate check_semantics
proposal_of-Passing (some docs_pr) contract live primary others h c = (_, refl, inl refl)
proposal_of-Passing (some drift_issue) contract live primary others h c = (
  _,
  refl,
  inr (
      rw
        (file-safe (lookup primary.0.name contract.expected_env)
          (λ rule e. rules-safe primary.0.name contract.expected_env rule h e))
        refl),
)
proposal_of-Passing (some escalation) contract live primary others h c = (
  _,
  refl,
  inr (
      rw
        (file-safe (lookup primary.0.name contract.expected_env)
          (λ rule e. rules-safe primary.0.name contract.expected_env rule h e))
        refl),
)
proposal_of-Passing none contract live primary others h c = absurd c
proposal_of-Passing (some no_op) contract live primary others h c = absurd c
proposal_of-Passing (some rollback) contract live primary others h c = absurd c
proposal_of-Passing (some upgrade_pr) contract live primary others h c = absurd c

pub conclude-Passing :
    (contract : OpsContract) (live : Option LiveEnv) (fs : List Finding)
    → check_rules contract.expected_env ≡ ok tt
    → All (λ f. Listed f.1) fs
    → (p : DecisionProposal) × (conclude contract fs ≡ ok p) × Passing contract live p
unfolding conclude validate check_semantics validate_path
conclude-Passing contract live [] h l = (_, refl, inr refl)
conclude-Passing contract live (f ∷ fs) h (l, _) =
    proposal_of-Passing (chosen (f ∷ fs)) contract live f fs h (chosen-Chosen f fs l)
