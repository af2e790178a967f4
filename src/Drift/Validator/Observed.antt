-- ===== src/Drift/Validator/Observed.antt =====
-- What the gate on the observed environment counts.
use driftscribe.Base.{
  String, true, false, not, Option, none, some, List, [], ◌∷◌, ◌==◌, ◌≡◌, refl, sym, ◌∙◌, ◌≢◌, ◌↔◌,
  inl, inr, arith, Any, eq_iff, Bool-cases,
}
use driftscribe.Drift.Contract.{lookup, EnvVarRule}
use driftscribe.Drift.Validator.{same_value, LiveEnv, counts, observed_violations}

pub same_value_iff : (a b : Option String) → (same_value a b ≡ true) ↔ (a ≡ b)
same_value_iff none none = ground arith
same_value_iff none (some b) = ground arith
same_value_iff (some a) none = ground arith
same_value_iff (some a) (some b) = ground (arith, eq_iff a b)

-- A declared variable that must not be changed by hand, seen at another value than the contract's.
abbrev pub ObservedHard : LiveEnv → String × EnvVarRule → Type 0
ObservedHard env (name, rule) =
    (rule.allow_manual_change ≡ false)
    × ((v : String) × (lookup name env ≡ some v) × (v ≢ rule.value))

pub counts_iff :
    (rule : EnvVarRule) (o : Option String)
    → (counts rule o ≡ true)
      ↔ ((rule.allow_manual_change ≡ false) × ((v : String) × (o ≡ some v) × (v ≢ rule.value)))
counts_iff rule none = ((λ e. absurd cc), λ p. absurd (let f = p.1.1 in cc))
counts_iff rule (some v) = (
  (λ e. (ground arith, (v, refl, ground (arith, eq_iff v rule.value)))),
  λ p. let (w, same, other) = p.1 in ground (arith, eq_iff v rule.value),
)

pub observed_violations_iff :
    (rules : List (String × EnvVarRule)) (env : LiveEnv)
    → (not (observed_violations rules env == 0) ≡ true) ↔ Any (ObservedHard env) rules
unfolding observed_violations
observed_violations_iff [] env = ground arith
observed_violations_iff ((name, rule) ∷ rest) env =
    let ih = observed_violations_iff rest env in
    let here = counts_iff rule (lookup name env) in
    elim (Bool-cases (counts rule (lookup name env))) [
      | inl counted ↦ ((λ e. inl (here.0 counted)), λ p. rw counted (ground arith))
      | inr skipped ↦ (
        (λ e. inr (ih.0 (rw skipped at e))),
        λ p.
            rw skipped
              (elim p [ inl q ↦ absurd (let f = sym skipped ∙ here.1 q in cc) | inr q ↦ ih.1 q ]),
      )
    ]
