-- ===== src/Drift/Validator/Reported.antt =====
-- What the loops over the reported diffs ask of them.
use driftscribe.Base.{
  ℕ, suc, ◌<◌, String, true, false, not, Option, none, some, List, [], ◌∷◌, Result, ok, require,
  ◌>>=◌, >>-eq-ok, require-eq-ok, ◌==◌, ◌≡◌, refl, sym, ◌∙◌, ◌≢◌, ◌↔◌, ◌⊎◌, inl, inr, arith, All,
  Any, eq_iff, Bool-cases,
}
use driftscribe.Base.Text.{◌=ₛ◌}
use driftscribe.Drift.Models.{ContractStatus, present_disallow_manual, EnvDiff}
use driftscribe.Drift.Contract.{lookup, EnvVarRule, OpsContract}
use driftscribe.Drift.Validator.{
  same_value, Seen, agrees_with_seen, no_conflicts, derived_status, tally, reported_violations,
}
use driftscribe.Drift.Validator.Observed.{same_value_iff}

-- The diffs that report one variable report one live value for it.
abbrev pub SameLive : EnvDiff → EnvDiff → Type 0
SameLive d e = e.name ≡ d.name → e.live ≡ d.live

abbrev pub Consistent : List EnvDiff → Type 0
Consistent [] = Unit
Consistent (d ∷ ds) = All (SameLive d) ds × Consistent ds

abbrev pub Fits : Seen → EnvDiff → Type 0
Fits seen d = agrees_with_seen (lookup d.name seen) d.live ≡ true

pub fits-same :
    (o : Option (Option String)) (a b : Option String)
    → agrees_with_seen o a ≡ true
    → (same_value a b ≡ true) ↔ ((agrees_with_seen o b ≡ true) × (b ≡ a))
fits-same o a b h =
    let same = same_value_iff a b in
    ((λ e. (let p = same.0 e in rw p at h, sym (same.0 e))), λ p. same.1 (sym p.1))

pub Fits-cons :
    (seen : Seen) (d e : EnvDiff)
    → Fits seen d
    → Fits ((d.name, d.live) ∷ seen) e ↔ (Fits seen e × SameLive d e)
unfolding lookup
Fits-cons seen d e h = elim (Bool-cases (d.name =ₛ e.name)) [
  | inl same ↦
      let p = (eq_iff d.name e.name).0 same in
      let (to, from) = fits-same (lookup e.name seen) d.live e.live (rw p at h) in
      rw same ((λ t. ((to t).0, λ _. (to t).1)), λ q. from (q.0, q.1 (sym p)))
  | inr other ↦ rw other (
    (λ t. (t, λ q. absurd (let f = sym other ∙ (eq_iff d.name e.name).1 (sym q) in cc))),
    λ q. q.0,
  )
]

pub All-Fits-cons :
    (seen : Seen) (d : EnvDiff) (es : List EnvDiff)
    → Fits seen d
    → All (Fits ((d.name, d.live) ∷ seen)) es ↔ (All (Fits seen) es × All (SameLive d) es)
All-Fits-cons seen d [] h = ((λ a. (tt, tt)), λ p. tt)
All-Fits-cons seen d (e ∷ es) h =
    let (to, from) = Fits-cons seen d e h in
    let (tos, froms) = All-Fits-cons seen d es h in
    (
      (λ a. (((to a.0).0, (tos a.1).0), ((to a.0).1, (tos a.1).1))),
      λ p. (from (p.0.0, p.1.0), froms (p.0.1, p.1.1)),
    )

pub no_conflicts_iff :
    (seen : Seen) (ds : List EnvDiff)
    → (no_conflicts seen ds ≡ ok tt) ↔ (All (Fits seen) ds × Consistent ds)
unfolding no_conflicts
no_conflicts_iff seen [] = ((λ e. (tt, tt)), λ p. refl)
no_conflicts_iff seen (d ∷ ds) =
    let both =
      >>-eq-ok (require (agrees_with_seen (lookup d.name seen) d.live) "conflicting live values")
        (no_conflicts ((d.name, d.live) ∷ seen) ds) in
    let one =
      require-eq-ok (agrees_with_seen (lookup d.name seen) d.live) "conflicting live values" in
    let rest = no_conflicts_iff ((d.name, d.live) ∷ seen) ds in
    (
      (λ e.
          let h = one.0 (both.0 e).0 in
          let (fits, consistent) = rest.0 (both.0 e).1 in
          let (old, same) = (All-Fits-cons seen d ds h).0 fits in ((h, old), (same, consistent))),
      λ p. both.1 (one.1 p.0.0, rest.1 ((All-Fits-cons seen d ds p.0.0).1 (p.0.1, p.1.0), p.1.1)),
    )

pub All-Fits-nil : (ds : List EnvDiff) → All (Fits []) ds
unfolding lookup
All-Fits-nil [] = tt
All-Fits-nil (d ∷ ds) = (refl, All-Fits-nil ds)

-- A reported diff with nothing to revert: an undeclared variable that is not there, or a declared
-- one at the contract's value.
abbrev pub Harmless : OpsContract → EnvDiff → Type 0
Harmless contract d =
    ((lookup d.name contract.expected_env ≡ none) × (d.live ≡ none))
    ⊎ ((rule : EnvVarRule) × (lookup d.name contract.expected_env ≡ some rule)
        × (d.live ≡ some rule.value))

-- A reported hard violation: a declared variable not to be changed by hand, at another value.
abbrev pub Hard : OpsContract → EnvDiff → Type 0
Hard contract d =
    (rule : EnvVarRule) × (lookup d.name contract.expected_env ≡ some rule)
    × (rule.allow_manual_change ≡ false)
    × (d.live ≢ some rule.value)

pub status-Harmless :
    (o : Option EnvVarRule) (live : Option String)
    → (derived_status o live ≡ none) ↔ (
        ((o ≡ none) × (live ≡ none))
        ⊎ ((rule : EnvVarRule) × (o ≡ some rule) × (live ≡ some rule.value)))
unfolding derived_status
status-Harmless none none = ((λ e. inl (refl, refl)), λ p. refl)
status-Harmless none (some v) =
    ((λ e. absurd cc), λ p. elim p [ inl (_, e) ↦ absurd cc | inr (rule, e, _) ↦ absurd cc ])
status-Harmless (some rule) live =
    let same = same_value_iff live (some rule.value) in
    elim (Bool-cases (same_value live (some rule.value))) [
      | inl equal ↦ rw equal ((λ e. inr (rule, refl, same.0 equal)), λ p. refl)
      | inr other ↦ rw other (
        (λ e. absurd cc),
        λ p. elim p [
          | inl (e, _) ↦ absurd (let f = e in cc)
          | inr (r, e, f) ↦ let w : live ≡ some rule.value = cc in absurd (let g = same.1 w in cc)
        ],
      )
    ]

pub status-Hard :
    (o : Option EnvVarRule) (live : Option String)
    → (derived_status o live ≡ some present_disallow_manual) ↔ (
        (rule : EnvVarRule) × (o ≡ some rule)
        × (rule.allow_manual_change ≡ false)
        × (live ≢ some rule.value))
unfolding derived_status
status-Hard none none = ((λ e. absurd cc), λ (r, e, _, _). absurd cc)
status-Hard none (some v) = ((λ e. absurd cc), λ (r, e, _, _). absurd cc)
status-Hard (some rule) live =
    let same = same_value_iff live (some rule.value) in
    elim (Bool-cases (same_value live (some rule.value))) [
      | inl equal ↦ rw equal (
        (λ e. absurd cc),
        λ (r, e, _, f). let w : live ≡ some r.value = cc (same.0 equal) in absurd (f w),
      )
      | inr other ↦ rw other (
        (λ e. (rule, refl, ground arith, λ w. let g = same.1 w in cc)),
        λ (r, e, h, _). let k : rule.allow_manual_change ≡ false = cc in rw k refl,
      )
    ]

-- The count of reported violations, and what is checked after it.
abbrev pub Reported : OpsContract → EnvDiff → Type 0
Reported contract d = Harmless contract d ⊎ Hard contract d

abbrev pub Counted : Result ℕ → Type 0
Counted r = (m : ℕ) × (r ≡ ok m) × (not (m == 0) ≡ true)

-- One round of the count, over what the status of the diff means.
pub tally_iff :
    (t : Option ContractStatus) (next : ℕ → Result ℕ) (H K A B : Type 0) (n : ℕ)
    → (t ≡ none) ↔ H
    → (t ≡ some present_disallow_manual) ↔ K
    → ((k : ℕ) → Counted (next k) ↔ (A × (B ⊎ (0 < k))))
    → Counted (tally t n >>= next) ↔ (((H ⊎ K) × A) × ((K ⊎ B) ⊎ (0 < n)))
tally_iff none next H K A B n none-H hard-K ih = (
  (λ c.
      let (a, b) = (ih n).0 c in
      ((inl (none-H.0 refl), a), elim b [ inl p ↦ inl (inr p) | inr q ↦ inr q ])),
  λ p. (ih n).1 (
    p.0.1,
    elim p.1 [
      | inl (inl k) ↦ absurd (let e = hard-K.1 k in cc)
      | inl (inr b) ↦ inl b
      | inr q ↦ inr q
    ],
  ),
)
tally_iff (some present_disallow_manual) next H K A B n none-H hard-K ih = (
  (λ c. let (a, b) = (ih (suc n)).0 c in ((inr (hard-K.0 refl), a), inl (inl (hard-K.0 refl)))),
  λ p. (ih (suc n)).1 (p.0.1, inr (omega arith)),
)
tally_iff (some t) next H K A B n none-H hard-K ih = (
  (λ (m, e, _). absurd cc),
  λ p. elim p.0.0 [
    | inl h ↦ absurd (let e = none-H.1 h in cc)
    | inr k ↦ absurd (let e = hard-K.1 k in cc)
  ],
)

module _ (contract : OpsContract) where
  pub Reported-iff :
      (ds : List EnvDiff) (n : ℕ)
      → Counted (reported_violations contract ds n)
        ↔ (All (Reported contract) ds × (Any (Hard contract) ds ⊎ (0 < n)))
  unfolding reported_violations
  Reported-iff [] n = (
    (λ (m, e, h). let p : n ≡ m = cc in (tt, inr (ground arith))),
    λ p. elim p.1 [ inl none_left ↦ absurd none_left | inr q ↦ (n, refl, ground arith) ],
  )
  Reported-iff (d ∷ ds) n =
      tally_iff (derived_status (lookup d.name contract.expected_env) d.live)
        (reported_violations contract ds) _ _ _ _ n
        (status-Harmless (lookup d.name contract.expected_env) d.live)
        (status-Hard (lookup d.name contract.expected_env) d.live) (Reported-iff ds)
