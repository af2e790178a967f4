-- ===== src/Drift/Classifier/Judged.antt =====
-- agent/classifier.py and agent/validator.py: the action that `classify` proposes, and the proposal under
-- the validator.
use driftscribe.Base.{
  ℕ, String, Bool, true, false, Option, some, List, [], ◌∷◌, ok, ◌≡◌, ◌≢◌, none, subst, map, refl,
  sym, ap, ◌↔◌, inl, inr, All, Bool-cases,
}
use driftscribe.Drift.Models.{
  DecisionAction, docs_pr, drift_issue, escalation, no_op, DecisionProposal,
}
use driftscribe.Drift.Contract.{lookup, OpsContract, check_rules}
use driftscribe.Drift.Validator.{LiveEnv, validate}
use driftscribe.Drift.Classifier.{
  PullRequest, Finding, findings, among, chosen, proposal_of, conclude, classify, is_escalation,
}
use driftscribe.Drift.Classifier.Valid.{
  Listed, Chosen, chosen-Chosen, findings-Listed, conclude-Passing,
}
use driftscribe.Drift.Classifier.Among.{names_of, among_iff}
use driftscribe.Drift.Classifier.Evidence.{Evident, findings-Backed, Backed-Evident}
use driftscribe.Drift.Classifier.Rounds.{
  Violated, Unexplained, Sanctioned, drift_issue_iff, escalation_iff, docs_pr_iff,
}

ok_inj : (x y : DecisionProposal) → ok x ≡ ok y → x ≡ y
ok_inj x y h = cc

proposal_of-action :
    (a : DecisionAction) (contract : OpsContract) (f : Finding) (fs : List Finding)
    (p : DecisionProposal)
    → proposal_of (some a) contract f fs ≡ ok p
    → (p.action ≡ a) × (p.requires_human_review ≡ is_escalation a)
proposal_of-action a contract f fs p e =
    let same = ok_inj _ p e in
    (sym (ap (λ x. x.action) same), sym (ap (λ x. x.requires_human_review) same))

-- The action of a proposal, by whether there are violations, unexplained variables and sanctioned ones.
abbrev pub Ranked : Type 0 → Type 0 → Type 0 → DecisionProposal → Type 0
Ranked violated unexplained sanctioned p =
    ((p.action ≡ drift_issue) ↔ violated)
    × ((p.action ≡ escalation) ↔ ((¬ violated) × unexplained))
    × ((p.action ≡ docs_pr) ↔ ((¬ violated) × (¬ unexplained) × sanctioned))
    × ((p.action ≡ no_op) ↔ ((¬ violated) × (¬ unexplained) × (¬ sanctioned)))
    × ((p.requires_human_review ≡ true) ↔ (p.action ≡ escalation))

-- The four outcomes.
data Outcome (v u s : Bool) (p : DecisionProposal) : Type 0 where
  violation : v ≡ true → p.action ≡ drift_issue → p.requires_human_review ≡ false → Outcome v u s p
  unexplained :
      v ≡ false
      → u ≡ true
      → p.action ≡ escalation
      → p.requires_human_review ≡ true
      → Outcome v u s p
  sanctioned :
      v ≡ false
      → u ≡ false
      → s ≡ true
      → p.action ≡ docs_pr
      → p.requires_human_review ≡ false
      → Outcome v u s p
  quiet :
      v ≡ false
      → u ≡ false
      → s ≡ false
      → p.action ≡ no_op
      → p.requires_human_review ≡ false
      → Outcome v u s p

proposed-Outcome :
    (contract : OpsContract) (f : Finding) (fs : List Finding) (p : DecisionProposal)
    → Chosen (chosen (f ∷ fs))
    → proposal_of (chosen (f ∷ fs)) contract f fs ≡ ok p
    → Outcome (among drift_issue (f ∷ fs)) (among escalation (f ∷ fs)) (among docs_pr (f ∷ fs)) p
unfolding chosen
proposed-Outcome contract f fs p = elim (Bool-cases (among drift_issue (f ∷ fs))) [
  | inl v ↦ rw v (λ c e.
      let (action, review) = proposal_of-action drift_issue contract f fs p e in
      violation refl action review)
  | inr nv ↦ rw nv (elim (Bool-cases (among escalation (f ∷ fs))) [
    | inl u ↦ rw u (λ c e.
        let (action, review) = proposal_of-action escalation contract f fs p e in
        unexplained refl refl action review)
    | inr nu ↦ rw nu (elim (Bool-cases (among docs_pr (f ∷ fs))) [
      | inl s ↦ rw s (λ c e.
          let (action, review) = proposal_of-action docs_pr contract f fs p e in
          sanctioned refl refl refl action review)
      | inr ns ↦ rw ns (λ c e. absurd c)
    ])
  ])
]

conclude-Outcome :
    (contract : OpsContract) (fs : List Finding) (p : DecisionProposal)
    → All (λ f. Listed f.1) fs
    → conclude contract fs ≡ ok p
    → Outcome (among drift_issue fs) (among escalation fs) (among docs_pr fs) p
unfolding conclude among
conclude-Outcome contract [] p l e =
    let same = ok_inj _ p e in
    quiet refl refl refl (sym (ap (λ x. x.action) same))
      (sym (ap (λ x. x.requires_human_review) same))
conclude-Outcome contract (f ∷ fs) p (l, _) e =
    proposed-Outcome contract f fs p (chosen-Chosen f fs l) e

-- What the tests decide, for what they stand for.
not_holds : (b : Bool) {P : Type 0} → (b ≡ true) ↔ P → b ≡ false → ¬ P
not_holds b iff n holds = let y = iff.1 holds in cc

Outcome-Ranked :
    (v u s : Bool) (p : DecisionProposal) {V U S : Type 0}
    → (v ≡ true) ↔ V
    → (u ≡ true) ↔ U
    → (s ≡ true) ↔ S
    → Outcome v u s p
    → Ranked V U S p
Outcome-Ranked v u s p iv iu is (violation ev a r) =
    let holds = iv.0 ev in
    (
      ((λ e. holds), λ h. a),
      ((λ e. absurd cc), λ (n, _). absurd (n holds)),
      ((λ e. absurd cc), λ (n, _, _). absurd (n holds)),
      ((λ e. absurd cc), λ (n, _, _). absurd (n holds)),
      ((λ e. absurd cc), λ e. absurd cc),
    )
Outcome-Ranked v u s p iv iu is (unexplained ev eu a r) =
    let nv = not_holds v iv ev in
    let holds = iu.0 eu in
    (
      ((λ e. absurd cc), λ h. absurd (nv h)),
      ((λ e. (nv, holds)), λ h. a),
      ((λ e. absurd cc), λ (_, n, _). absurd (n holds)),
      ((λ e. absurd cc), λ (_, n, _). absurd (n holds)),
      ((λ e. a), λ e. r),
    )
Outcome-Ranked v u s p iv iu is (sanctioned ev eu es a r) =
    let nv = not_holds v iv ev in
    let nu = not_holds u iu eu in
    let holds = is.0 es in
    (
      ((λ e. absurd cc), λ h. absurd (nv h)),
      ((λ e. absurd cc), λ (_, h). absurd (nu h)),
      ((λ e. (nv, nu, holds)), λ h. a),
      ((λ e. absurd cc), λ (_, _, n). absurd (n holds)),
      ((λ e. absurd cc), λ e. absurd cc),
    )
Outcome-Ranked v u s p iv iu is (quiet ev eu es a r) =
    let nv = not_holds v iv ev in
    let nu = not_holds u iu eu in
    let ns = not_holds s is es in
    (
      ((λ e. absurd cc), λ h. absurd (nv h)),
      ((λ e. absurd cc), λ (_, h). absurd (nu h)),
      ((λ e. absurd cc), λ (_, _, h). absurd (ns h)),
      ((λ e. (nv, nu, ns)), λ h. a),
      ((λ e. absurd cc), λ e. absurd cc),
    )

-- What a test says of some name, for what holds of each.
some_iff :
    (b : Bool) (A B Q : String → Type 0)
    → (b ≡ true) ↔ ((name : String) × A name × B name)
    → ((name : String) → (A name × B name) ↔ Q name)
    → (b ≡ true) ↔ ((name : String) × Q name)
some_iff b A B Q (there, back) each = (
  (λ h. let (name, known, found) = there h in (name, (each name).0 (known, found))),
  λ (name, q). let (known, found) = (each name).1 q in back (name, known, found),
)

-- The tests on the findings, for what they say of the variables.
findings-Ranked :
    (is_word : ℕ → Bool) (contract : OpsContract) (env : LiveEnv) (prs : List PullRequest)
    (p : DecisionProposal)
    → conclude contract (findings is_word contract env prs (names_of contract env)) ≡ ok p
    → Ranked
        ((name : String) × Violated contract env name)
        ((name : String) × Unexplained is_word contract env prs name)
        ((name : String) × Sanctioned is_word contract env prs name)
        p
findings-Ranked is_word contract env prs p e =
    let rule_of = λ (name : String). lookup name contract.expected_env in
    let value_of = λ (name : String). lookup name env in
    Outcome-Ranked _ _ _ p
      (some_iff _ _ _ (Violated contract env) (among_iff is_word contract env prs drift_issue)
        (λ name. drift_issue_iff is_word prs (rule_of name) (value_of name) name))
      (some_iff _ _ _ (Unexplained is_word contract env prs)
        (among_iff is_word contract env prs escalation)
        (λ name. escalation_iff is_word prs (rule_of name) (value_of name) name))
      (some_iff _ _ _ (Sanctioned is_word contract env prs)
        (among_iff is_word contract env prs docs_pr)
        (λ name. docs_pr_iff is_word prs (rule_of name) (value_of name) name))
      (conclude-Outcome contract _ p
        (findings-Listed is_word contract env prs (names_of contract env)) e)

-- The proposal lists the diffs of the findings.
conclude-env_diffs :
    (contract : OpsContract) (fs : List Finding) (p : DecisionProposal)
    → conclude contract fs ≡ ok p
    → map (λ f. f.0) fs ≡ p.env_diffs
unfolding conclude
conclude-env_diffs contract [] p e = ap (λ x. x.env_diffs) (ok_inj _ p e)
conclude-env_diffs contract (f ∷ fs) p e = listed (chosen (f ∷ fs)) e
  where
    listed :
        (o : Option DecisionAction)
        → proposal_of o contract f fs ≡ ok p
        → map (λ g. g.0) (f ∷ fs) ≡ p.env_diffs
    listed (some a) h = ap (λ x. x.env_diffs) (ok_inj _ p h)
    listed none h = absurd cc

Outcome-Evident :
    (contract : OpsContract) (fs : List Finding) (s : Bool) (p : DecisionProposal)
    → (among drift_issue fs ≡ false
        → among escalation fs ≡ false
        → All (Evident contract) p.env_diffs)
    → Outcome (among drift_issue fs) (among escalation fs) s p
    → p.action ≡ docs_pr
    → All (Evident contract) p.env_diffs
Outcome-Evident contract fs s p evident (violation ev a r) e = absurd cc
Outcome-Evident contract fs s p evident (unexplained ev eu a r) e = absurd cc
Outcome-Evident contract fs s p evident (sanctioned ev eu es a r) e = evident ev eu
Outcome-Evident contract fs s p evident (quiet ev eu es a r) e = absurd cc

findings-Evident :
    (is_word : ℕ → Bool) (contract : OpsContract) (env : LiveEnv) (prs : List PullRequest)
    (p : DecisionProposal)
    → conclude contract (findings is_word contract env prs (names_of contract env)) ≡ ok p
    → p.action ≡ docs_pr
    → All (Evident contract) p.env_diffs
findings-Evident is_word contract env prs p e =
    let names = names_of contract env in
    let fs = findings is_word contract env prs names in
    let listed = findings-Listed is_word contract env prs names in
    Outcome-Evident contract fs _ p
      (λ v u.
        subst (All (Evident contract)) (conclude-env_diffs contract fs p e)
          (Backed-Evident contract fs listed (findings-Backed is_word contract env prs names) v u))
      (conclude-Outcome contract fs p listed e)

-- Every diff of a docs pull request has its evidence, and the validator passes every other proposal.
abbrev pub Reviewed : OpsContract → Option LiveEnv → DecisionProposal → Type 0
Reviewed contract live p =
    (p.action ≡ docs_pr → All (Evident contract) p.env_diffs)
    × (p.action ≢ docs_pr → validate p contract live ≡ ok tt)

-- For a contract whose rules pass the checks made when it is loaded, the classifier returns a proposal.
-- It is a drift issue exactly if some variable of the contract that must not be changed by hand has not
-- its value; otherwise an escalation exactly if some live variable that the contract does not name has no
-- pull request with a URL found for it; otherwise a docs pull request exactly if some variable differs
-- as the contract allows or is new and has such a pull request; otherwise a no-op. It asks for human
-- review exactly if it is an escalation. Each diff of a docs pull request meets what the validator asks of
-- it as to the rule or the pull request, and the validator passes every other proposal, whatever live
-- environment it is given.
pub classify-Ranked :
    (is_word : ℕ → Bool) (contract : OpsContract) (env : LiveEnv) (prs : List PullRequest)
    (live : Option LiveEnv)
    → check_rules contract.expected_env ≡ ok tt
    → (p : DecisionProposal) × (classify is_word contract env prs ≡ ok p)
      × Ranked
          ((name : String) × Violated contract env name)
          ((name : String) × Unexplained is_word contract env prs name)
          ((name : String) × Sanctioned is_word contract env prs name)
          p
      × Reviewed contract live p
unfolding classify
classify-Ranked is_word contract env prs live h =
    let (p, made, passing) =
      conclude-Passing contract live _ h
        (findings-Listed is_word contract env prs (names_of contract env)) in
    let reviewed : Reviewed contract live p = (
      findings-Evident is_word contract env prs p made,
      λ other. elim passing [ inl docs ↦ absurd (other docs) | inr valid ↦ valid ],
    ) in
    (p, made, findings-Ranked is_word contract env prs p made, reviewed)
