-- ===== src/Drift/Classifier/Evidence.antt =====
-- agent/classifier.py and agent/validator.py: the diffs of a docs pull request under step 6 of the
-- validator.
use driftscribe.Base.{
  ℕ, String, Bool, false, Option, none, some, List, [], ◌∷◌, map, ok, ◌≡◌, refl, inl, inr, ap,
  arith, All, Bool-cases, require, All-append,
}
use driftscribe.Drift.Models.{DecisionAction, docs_pr, drift_issue, escalation, EnvDiff}
use driftscribe.Drift.Contract.{lookup, EnvVarRule, OpsContract, truthy}
use driftscribe.Drift.Validator.{LiveEnv, same_value, check_sanction}
use driftscribe.Drift.Classifier.{
  PullRequest, Finding, finding, findings, among, same_action, strict_pr_match,
}
use driftscribe.Drift.Classifier.Valid.{Listed}

-- What step 6 of the validator asks of one diff: a rule that allows the change, or a pull request.
abbrev pub Evident : OpsContract → EnvDiff → Type 0
Evident contract diff = check_sanction (lookup diff.name contract.expected_env) diff ≡ ok tt

abbrev pub Backed : OpsContract → Finding → Type 0
Backed contract f = f.1 ≡ docs_pr → Evident contract f.0

finding-Backed :
    (is_word : ℕ → Bool) (contract : OpsContract) (prs : List PullRequest) (o : Option EnvVarRule)
    (live : Option String) (name : String)
    → lookup name contract.expected_env ≡ o
    → All (Backed contract) (finding is_word prs o live name)
unfolding finding
finding-Backed is_word contract prs none live name e = (
  elim (Bool-cases (truthy (strict_pr_match is_word prs name))) [
    | inl y ↦ rw e (λ _. ap (λ b. require b "requires recent_pr_match evidence") y)
    | inr n ↦ rw n (λ f. absurd cc)
  ],
  tt,
)
finding-Backed is_word contract prs (some rule) live name e =
    elim (Bool-cases (same_value live (some rule.value))) [
      | inl y ↦ rw y tt
      | inr n ↦ rw n (
        elim (Bool-cases rule.allow_manual_change) [
          | inl y ↦ rw e (simp y (λ _. refl))
          | inr m ↦ simp m (λ f. absurd cc)
        ],
        tt,
      )
    ]

pub findings-Backed :
    (is_word : ℕ → Bool) (contract : OpsContract) (env : LiveEnv) (prs : List PullRequest)
    (names : List String)
    → All (Backed contract) (findings is_word contract env prs names)
unfolding findings
findings-Backed is_word contract env prs [] = tt
findings-Backed is_word contract env prs (name ∷ names) =
    All-append _ _ _
      (finding-Backed is_word contract prs (lookup name contract.expected_env) (lookup name env)
        name refl)
      (findings-Backed is_word contract env prs names)

only_docs_pr :
    (a : DecisionAction)
    → Listed a
    → same_action drift_issue a ≡ false
    → same_action escalation a ≡ false
    → a ≡ docs_pr
only_docs_pr a (inl (inl e)) v u = let f = rw e at v in absurd cc
only_docs_pr a (inl (inr e)) v u = let f = rw e at u in absurd cc
only_docs_pr a (inr e) v u = e

-- Where no finding asks for more than a docs pull request, every diff has its evidence.
pub Backed-Evident :
    (contract : OpsContract) (fs : List Finding)
    → All (λ f. Listed f.1) fs
    → All (Backed contract) fs
    → among drift_issue fs ≡ false
    → among escalation fs ≡ false
    → All (Evident contract) (map (λ f. f.0) fs)
unfolding among
Backed-Evident contract [] l b v u = tt
Backed-Evident contract ((d, a) ∷ fs) (la, l) (ba, b) v u =
    let v1 : same_action drift_issue a ≡ false = ground arith in
    let u1 : same_action escalation a ≡ false = ground arith in
    (ba (only_docs_pr a la v1 u1), Backed-Evident contract fs l b (ground arith) (ground arith))
