-- ===== src/Drift/Validator/Rollback.antt =====
-- When the validator lets a rollback through: the reported diffs agree with each other, each is
-- harmless or a hard violation of the contract, and a hard violation was observed on the service.
use mathlib.Core.Path.{subst}
use driftscribe.Base.{
  String, true, false, not, ◌||◌, Option, none, some, List, [], ◌∷◌, ok, >>-eq-ok, >>=-eq-ok,
  require-eq-ok, is_empty, ◌≡◌, refl, sym, ◌↔◌, inl, inr, arith, All, Any,
}
use driftscribe.Drift.Models.{DecisionAction, rollback, EnvDiff, DecisionProposal, in_unit_range}
use driftscribe.Drift.Contract.{OpsContract}
use driftscribe.Drift.Validator.{
  LiveEnv, authorize_rollback_from_live_env, reported_violations, check_revision, check_rollback,
  is_blank, is_revision_name, validate, validate_path, check_semantics, is_drift_action, is_no_op,
}
use driftscribe.Drift.Validator.Observed.{ObservedHard, observed_violations_iff}
use driftscribe.Drift.Validator.Reported.{
  Consistent, no_conflicts_iff, All-Fits-nil, Hard, Reported, Reported-iff,
}

-- What the validator asks of a rollback, without the order in which it asks.
pub record Justified (proposal : DecisionProposal) (contract : OpsContract)
    (live_env : Option LiveEnv) : Type 0 where
  pub revision :
      (rev : String) × (proposal.target_revision ≡ some rev)
      × (is_blank rev ≡ false)
      × (is_revision_name rev ≡ true)
  pub reviewed : proposal.requires_human_review ≡ true
  pub consistent : Consistent proposal.env_diffs
  pub reported : All (Reported contract) proposal.env_diffs
  pub deviates : Any (Hard contract) proposal.env_diffs
  pub observed :
      (env : LiveEnv) × (live_env ≡ some env) × Any (ObservedHard env) contract.expected_env

check_revision_iff :
    (o : Option String)
    → (check_revision o ≡ ok tt)
      ↔ ((rev : String) × (o ≡ some rev) × (is_blank rev ≡ false) × (is_revision_name rev ≡ true))
unfolding check_revision
check_revision_iff none = ((λ e. absurd cc), λ (r, e, _, _). absurd cc)
check_revision_iff (some rev) = (
  (λ e. (rev, refl, ground arith, ground arith)),
  λ (r, e, b, n).
      let p : r ≡ rev = cc in let named = rw p at b in let shaped = rw p at n in ground arith,
)

authorize_iff :
    (contract : OpsContract) (o : Option LiveEnv)
    → (authorize_rollback_from_live_env contract o ≡ ok tt)
      ↔ ((env : LiveEnv) × (o ≡ some env) × Any (ObservedHard env) contract.expected_env)
unfolding authorize_rollback_from_live_env
authorize_iff contract none = ((λ e. absurd cc), λ (r, e, _). absurd cc)
authorize_iff contract (some env) =
    let (to, from) = observed_violations_iff contract.expected_env env in
    (
      (λ e. (env, refl, to (ground arith))),
      λ (v, e, h). let p : v ≡ env = cc in (require-eq-ok _ _).1 (from (rw p at h)),
    )

check_rollback_iff :
    (proposal : DecisionProposal) (contract : OpsContract) (live_env : Option LiveEnv)
    → (check_rollback proposal contract live_env ≡ ok tt) ↔ Justified proposal contract live_env
unfolding check_rollback
check_rollback_iff proposal contract live_env =
    let revision = check_revision_iff proposal.target_revision in
    let conflicts = no_conflicts_iff [] proposal.env_diffs in
    let count = Reported-iff contract proposal.env_diffs 0 in
    let authorized = authorize_iff contract live_env in
    (
      (λ e.
          let (named, e) = (>>-eq-ok _ _).0 e in
          let (reviewed, e) = (>>-eq-ok _ _).0 e in
          let (agreed, e) = (>>-eq-ok _ _).0 e in
          let (m, counted, e) = >>=-eq-ok (reported_violations contract proposal.env_diffs 0) _ e in
          let (positive, e) = (>>-eq-ok _ _).0 e in
          let (reported, deviates) = count.0 (m, counted, (require-eq-ok _ _).0 positive) in
          record {
            revision = revision.0 named;
            reviewed = (require-eq-ok _ _).0 reviewed;
            consistent = (conflicts.0 agreed).1;
            reported = reported;
            deviates = elim deviates [ inl d ↦ d | inr none_yet ↦ absurd (omega arith) ];
            observed = authorized.0 e;
          }),
      λ j.
          let (m, counted, positive) = count.1 (j.reported, inl j.deviates) in
          (>>-eq-ok _ _).1 (
            revision.1 j.revision,
            (>>-eq-ok _ _).1 (
              (require-eq-ok _ _).1 j.reviewed,
              (>>-eq-ok _ _).1 (
                conflicts.1 (All-Fits-nil proposal.env_diffs, j.consistent),
                rw counted
                    ((>>-eq-ok _ _).1 ((require-eq-ok _ _).1 positive, authorized.1 j.observed)),
              ),
            ),
          ),
    )

-- The five steps of `validate` are taken apart.
pub validate-parts :
    (proposal : DecisionProposal) (contract : OpsContract) (live_env : Option LiveEnv)
    → (validate proposal contract live_env ≡ ok tt) ↔ (
        (is_drift_action proposal.action ≡ true)
        × (in_unit_range proposal.confidence ≡ true)
        × ((is_no_op proposal.action || not (is_empty proposal.env_diffs)) ≡ true)
        × (validate_path proposal.target_docs_file ≡ ok tt)
        × (check_semantics proposal.action proposal contract live_env ≡ ok tt))
unfolding validate
validate-parts proposal contract live_env = (
  (λ e.
      let (drift, e) = (>>-eq-ok _ _).0 e in
      let (unit, e) = (>>-eq-ok _ _).0 e in
      let (full, e) = (>>-eq-ok _ _).0 e in
      let (path, e) = (>>-eq-ok _ _).0 e in
      (
        (require-eq-ok _ _).0 drift,
        (require-eq-ok _ _).0 unit,
        (require-eq-ok _ _).0 full,
        path,
        e,
      )),
  λ (drift, unit, full, path, e). (>>-eq-ok _ _).1 (
    (require-eq-ok _ _).1 drift,
    (>>-eq-ok _ _).1 (
      (require-eq-ok _ _).1 unit,
      (>>-eq-ok _ _).1 ((require-eq-ok _ _).1 full, (>>-eq-ok _ _).1 (path, e)),
    ),
  ),
)

Any-nonempty : (P : EnvDiff → Type 0) (ds : List EnvDiff) → Any P ds → is_empty ds ≡ false
Any-nonempty P [] h = absurd h
Any-nonempty P (d ∷ ds) h = refl

-- A rollback proposal passes the validator exactly when its confidence lies in the unit range, its
-- docs path is safe, and it is justified: it names a well-formed revision and asks for human
-- review, its diffs are consistent and each harmless or a hard violation, with one of the latter
-- among them, and a hard violation was observed on the service itself.
pub validate-rollback_iff :
    (proposal : DecisionProposal) (contract : OpsContract) (live_env : Option LiveEnv)
    → proposal.action ≡ rollback
    → (validate proposal contract live_env ≡ ok tt) ↔ (
        (in_unit_range proposal.confidence ≡ true)
        × (validate_path proposal.target_docs_file ≡ ok tt)
        × Justified proposal contract live_env)
unfolding check_semantics
validate-rollback_iff proposal contract live_env a =
    let parts = validate-parts proposal contract live_env in
    let justified = check_rollback_iff proposal contract live_env in
    let Semantics = λ (x : DecisionAction). check_semantics x proposal contract live_env ≡ ok tt in
    (
      (λ e.
          let (_, unit, _, path, semantics) = parts.0 e in
          (unit, path, justified.0 (subst Semantics a semantics))),
      λ (unit, path, j). parts.1 (
        rw a refl,
        unit,
        rw (a, Any-nonempty _ proposal.env_diffs j.deviates) refl,
        path,
        subst Semantics (sym a) (justified.1 j),
      ),
    )
