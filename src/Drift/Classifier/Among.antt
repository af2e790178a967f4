-- ===== src/Drift/Classifier/Among.antt =====
-- agent/classifier.py: the variables for which `classify` appends an action.
use driftscribe.Base.{
  ℕ, String, Bool, true, ◌||◌, List, [], ◌∷◌, ◌++◌, map, ◌≡◌, refl, sym, ◌∙◌, ap, inl, inr, ◌↔◌,
  arith, Bool-cases, eq_iff,
}
use driftscribe.Base.Text.{◌=ₛ◌, contains, is_some}
use driftscribe.Base.Sorted.{sorted_names}
use driftscribe.Apply.Drift.Diff.{contains-append, contains-sorted_names}
use driftscribe.Drift.Models.{DecisionAction}
use driftscribe.Drift.Contract.{lookup, OpsContract}
use driftscribe.Drift.Validator.{LiveEnv}
use driftscribe.Drift.Classifier.{PullRequest, Finding, finding, findings, among}

-- A key is there exactly if a lookup finds it.
contains-keys {ℓ} :
    {V : Type ℓ} (xs : List (String × V)) (name : String)
    → contains (map (λ p. p.0) xs) name ≡ is_some (lookup name xs)
unfolding contains lookup
contains-keys [] name = refl
contains-keys ((k, v) ∷ xs) name = elim (Bool-cases (k =ₛ name)) [
  | inl here ↦ rw here (ground (arith, eq_iff k name, eq_iff name k))
  | inr other ↦ rw other (ground (arith, contains-keys xs name, eq_iff k name, eq_iff name k))
]

-- The names that `classify` goes through.
abbrev pub names_of : OpsContract → LiveEnv → List String
names_of contract env = sorted_names (map (λ p. p.0) contract.expected_env ++ map (λ p. p.0) env)

contains-names_of :
    (contract : OpsContract) (env : LiveEnv) (name : String)
    → contains (names_of contract env) name
      ≡ (is_some (lookup name contract.expected_env) || is_some (lookup name env))
contains-names_of contract env name =
    contains-sorted_names _ name
    ∙ contains-append (map (λ p. p.0) contract.expected_env) (map (λ p. p.0) env) name
    ∙ ap (λ b. b || contains (map (λ p. p.0) env) name) (contains-keys contract.expected_env name)
    ∙ ap (λ b. is_some (lookup name contract.expected_env) || b) (contains-keys env name)

among-append :
    (a : DecisionAction) (fs gs : List Finding) → among a (fs ++ gs) ≡ (among a fs || among a gs)
unfolding among
among-append a [] gs = refl
among-append a ((d, b) ∷ fs) gs = ground (arith, among-append a fs gs)

-- The action is appended for some of the names.
abbrev Appended :
    (ℕ → Bool) → OpsContract → LiveEnv → List PullRequest → DecisionAction → List String → Type 0
Appended is_word contract env prs a names =
    (name : String) × (contains names name ≡ true)
    × (among a (finding is_word prs (lookup name contract.expected_env) (lookup name env) name)
        ≡ true)

among-findings :
    (is_word : ℕ → Bool) (contract : OpsContract) (env : LiveEnv) (prs : List PullRequest)
    (a : DecisionAction) (names : List String)
    → (among a (findings is_word contract env prs names) ≡ true)
      ↔ Appended is_word contract env prs a names
unfolding findings contains among
among-findings is_word contract env prs a [] = ((λ e. absurd cc), λ (name, e, _). absurd cc)
among-findings is_word contract env prs a (n ∷ ns) =
    let ih = among-findings is_word contract env prs a ns in
    let first = finding is_word prs (lookup n contract.expected_env) (lookup n env) n in
    let split = among-append a first (findings is_word contract env prs ns) in
    (
      (λ e. elim (Bool-cases (among a first)) [
        | inl y ↦ (n, ground (arith, eq_iff n n), y)
        | inr other ↦ let (name, there, found) = ih.0 (ground arith) in (name, ground arith, found)
      ]),
      λ (name, there, found). elim (Bool-cases (name =ₛ n)) [
        | inl y ↦
            let same : name ≡ n = (eq_iff name n).0 y in let f = rw same at found in ground arith
        | inr other ↦ let later = ih.1 (name, ground arith, found) in ground arith
      ],
    )

-- An action is among the findings exactly if one of the variables of the contract or of the live
-- environment has it appended.
pub among_iff :
    (is_word : ℕ → Bool) (contract : OpsContract) (env : LiveEnv) (prs : List PullRequest)
    (a : DecisionAction)
    → (among a (findings is_word contract env prs (names_of contract env)) ≡ true) ↔ (
        (name : String) × ((is_some (lookup name contract.expected_env)
            || is_some (lookup name env))
          ≡ true)
        × (among a (finding is_word prs (lookup name contract.expected_env) (lookup name env) name)
            ≡ true))
among_iff is_word contract env prs a =
    let (there, back) = among-findings is_word contract env prs a (names_of contract env) in
    (
      (λ e.
          let (name, known, found) = there e in
          (name, sym (contains-names_of contract env name) ∙ known, found)),
      λ (name, known, found). back (name, contains-names_of contract env name ∙ known, found),
    )
