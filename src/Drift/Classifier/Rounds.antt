-- ===== src/Drift/Classifier/Rounds.antt =====
-- agent/classifier.py: which action one round of the loop of `classify` appends, said of the contract, the
-- live environment and the pull requests.
use driftscribe.Base.{
  ℕ, String, Bool, true, false, ◌||◌, Option, none, some, List, ◌≡◌, ◌≢◌, refl, sym, ◌∙◌, ap, subst,
  ◌⊎◌, inl, inr, ◌↔◌, arith, Bool-cases, eq_iff, if◌then◌else◌,
}
use driftscribe.Base.Text.{is_some}
use driftscribe.Drift.Models.{DecisionAction, docs_pr, drift_issue, escalation}
use driftscribe.Drift.Contract.{lookup, EnvVarRule, OpsContract, truthy}
use driftscribe.Drift.Validator.{LiveEnv, same_value}
use driftscribe.Drift.Classifier.{PullRequest, finding, among, strict_pr_match, same_action}

-- The contract names the variable, forbids to change it by hand, and it has not the value asked for.
abbrev pub Violated : OpsContract → LiveEnv → String → Type 0
Violated contract env name =
    (rule : EnvVarRule) × (lookup name contract.expected_env ≡ some rule)
    × (lookup name env ≢ some rule.value)
    × (rule.allow_manual_change ≡ false)

-- The variable is live, the contract does not name it, and no pull request is found for it.
abbrev pub Unexplained : (ℕ → Bool) → OpsContract → LiveEnv → List PullRequest → String → Type 0
Unexplained is_word contract env prs name =
    (value : String) × (lookup name env ≡ some value)
    × (lookup name contract.expected_env ≡ none)
    × (truthy (strict_pr_match is_word prs name) ≡ false)

-- The variable differs where the contract allows it, or a pull request is found for a new one.
abbrev pub Sanctioned : (ℕ → Bool) → OpsContract → LiveEnv → List PullRequest → String → Type 0
Sanctioned is_word contract env prs name =
    ((rule : EnvVarRule) × (lookup name contract.expected_env ≡ some rule)
      × (lookup name env ≢ some rule.value)
      × (rule.allow_manual_change ≡ true))
    ⊎ ((value : String) × (lookup name env ≡ some value)
        × (lookup name contract.expected_env ≡ none)
        × (truthy (strict_pr_match is_word prs name) ≡ true))

-- The same for what the two dicts hold at a name.
abbrev pub DiffersAt : Bool → Option EnvVarRule → Option String → Type 0
DiffersAt allowed o live =
    (rule : EnvVarRule) × (o ≡ some rule)
    × (live ≢ some rule.value)
    × (rule.allow_manual_change ≡ allowed)

abbrev pub NewAt : Bool → Bool → Option EnvVarRule → Option String → Type 0
NewAt known explained o live =
    (value : String) × (live ≡ some value) × (o ≡ none) × (explained ≡ known)

same_value_iff :
    (live : Option String) (v : String) → (same_value live (some v) ≡ true) ↔ (live ≡ some v)
same_value_iff none v = ((λ e. absurd cc), λ e. absurd cc)
same_value_iff (some w) v =
    ((λ e. ap some ((eq_iff w v).0 e)), λ e. (eq_iff w v).1 (let same : w ≡ v = cc in same))

other_value_iff :
    (live : Option String) (v : String) → (same_value live (some v) ≡ false) ↔ (live ≢ some v)
other_value_iff live v = (
  (λ n e. let y = (same_value_iff live v).1 e in cc),
  λ n. elim (Bool-cases (same_value live (some v))) [
    | inl y ↦ absurd (n ((same_value_iff live v).0 y))
    | inr m ↦ m
  ],
)

-- What one round appends, for a variable that the contract names and for one that it does not.
present_iff :
    (is_word : ℕ → Bool) (prs : List PullRequest) (a : DecisionAction) (rule : EnvVarRule)
    (live : Option String) (name : String)
    → (among a (finding is_word prs (some rule) live name) ≡ true) ↔ (
        (live ≢ some rule.value)
        × (same_action a (if rule.allow_manual_change then docs_pr else drift_issue) ≡ true))
unfolding finding among
present_iff is_word prs a rule live name =
    let (other, differs) = other_value_iff live rule.value in
    elim (Bool-cases (same_value live (some rule.value))) [
      | inl y ↦ rw y ((λ e. absurd cc), λ (n, _). absurd (let f = differs n in cc))
      | inr n ↦ rw n ((λ e. (other n, ground arith)), λ (_, e). ground arith)
    ]

absent_lem :
    (is_word : ℕ → Bool) (prs : List PullRequest) (a : DecisionAction) (live : Option String)
    (name : String)
    → among a (finding is_word prs none live name)
      ≡ same_action a (if truthy (strict_pr_match is_word prs name) then docs_pr else escalation)
unfolding finding among
absent_lem is_word prs a live name = ground arith

-- The action is appended, for a variable of the contract or of the live environment.
abbrev pub AppendsAt :
    (ℕ → Bool)
    → List PullRequest
    → DecisionAction
    → Option EnvVarRule
    → Option String
    → String
    → Type 0
AppendsAt is_word prs a o live name =
    ((is_some o || is_some live) ≡ true) × (among a (finding is_word prs o live name) ≡ true)

pub drift_issue_iff :
    (is_word : ℕ → Bool) (prs : List PullRequest) (o : Option EnvVarRule) (live : Option String)
    (name : String)
    → AppendsAt is_word prs drift_issue o live name ↔ DiffersAt false o live
drift_issue_iff is_word prs none live name = (
  (λ (_, e).
      absurd (let f = sym (absent_lem is_word prs drift_issue live name) ∙ e in ground arith)),
  λ (rule, e, _, _). absurd cc,
)
drift_issue_iff is_word prs (some rule) live name =
    let (there, back) = present_iff is_word prs drift_issue rule live name in
    (
      (λ (_, e). let (n, f) = there e in (rule, refl, n, ground arith)),
      λ (r, e, n, f).
          let same : rule ≡ r = cc in
          (
            refl,
            back (
              (subst (λ (x : EnvVarRule). live ≢ some x.value) (sym same) n),
              (let g = subst (λ (x : EnvVarRule). x.allow_manual_change ≡ false) (sym same) f in
                  rw g refl),
            ),
          ),
    )

pub escalation_iff :
    (is_word : ℕ → Bool) (prs : List PullRequest) (o : Option EnvVarRule) (live : Option String)
    (name : String)
    → AppendsAt is_word prs escalation o live name
      ↔ NewAt false (truthy (strict_pr_match is_word prs name)) o live
escalation_iff is_word prs none none name = ((λ (e, _). absurd cc), λ (v, e, _, _). absurd cc)
escalation_iff is_word prs none (some v) name =
    let same = absent_lem is_word prs escalation (some v) name in
    (
      (λ (_, e). (v, refl, refl, (let f = sym same ∙ e in ground arith))),
      λ (w, _, _, n). (refl, same ∙ (rw n refl)),
    )
escalation_iff is_word prs (some rule) live name =
    let (there, back) = present_iff is_word prs escalation rule live name in
    ((λ (_, e). let (n, f) = there e in absurd (ground arith)), λ (v, _, e, _). absurd cc)

pub docs_pr_iff :
    (is_word : ℕ → Bool) (prs : List PullRequest) (o : Option EnvVarRule) (live : Option String)
    (name : String)
    → AppendsAt is_word prs docs_pr o live name
      ↔ (DiffersAt true o live ⊎ NewAt true (truthy (strict_pr_match is_word prs name)) o live)
docs_pr_iff is_word prs none none name = (
  (λ (e, _). absurd cc),
  λ s. elim s [ inl (r, e, _, _) ↦ absurd cc | inr (v, e, _, _) ↦ absurd cc ],
)
docs_pr_iff is_word prs none (some v) name =
    let same = absent_lem is_word prs docs_pr (some v) name in
    (
      (λ (_, e). inr (v, refl, refl, (let f = sym same ∙ e in ground arith))),
      λ s. elim s [ inl (r, e, _, _) ↦ absurd cc | inr (w, _, _, n) ↦ (refl, same ∙ (rw n refl)) ],
    )
docs_pr_iff is_word prs (some rule) live name =
    let (there, back) = present_iff is_word prs docs_pr rule live name in
    (
      (λ (_, e). let (n, f) = there e in inl (rule, refl, n, ground arith)),
      λ s. elim s [
        | inl (r, e, n, f) ↦
            let same : rule ≡ r = cc in
            (
              refl,
              back (
                (subst (λ (x : EnvVarRule). live ≢ some x.value) (sym same) n),
                (let g = subst (λ (x : EnvVarRule). x.allow_manual_change ≡ true) (sym same) f in
                    rw g refl),
              ),
            )
        | inr (v, _, e, _) ↦ absurd cc
      ],
    )
