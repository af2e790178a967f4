-- ===== src/Autonomy/Closed.antt =====
-- agent/autonomy.py and agent/pause.py fail closed, and a mode allows what a lower one does.
use driftscribe.Base.{
  ◌≤◌, String, true, Option, none, some, List, [], ◌∷◌, ◌≡◌, refl, sym, inl, inr, arith, Bool-cases,
  eq_iff,
}
use driftscribe.Base.Text.{◌=ₛ◌, contains}
use driftscribe.Base.Json.{Json, null, str, obj, Fields, get}
use driftscribe.Drift.Contract.{lookup}
use driftscribe.Autonomy.Dial.{
  Stored, unreadable, absent, found, autonomy_modes, read_autonomy_state, state_of, index, allows,
  tier_min_mode, mode_allows, tier_or_apply, filter_tools_for_mode,
}

allows-monotone :
    (o : Option String) (low high : String)
    → contains autonomy_modes high ≡ true
    → index autonomy_modes low ≤ index autonomy_modes high
    → allows o low ≡ true
    → allows o high ≡ true
allows-monotone none low high known le e = absurd cc
allows-monotone (some m) low high known le e = ground arith

-- The tools of the first list stand in the second, in the same order.
pub data Within {ℓ} {A : Type ℓ} : List A → List A → Type ℓ where
  empty : Within [] []
  skip : {x : A} {xs ys : List A} → Within xs ys → Within xs (x ∷ ys)
  keep : {x : A} {xs ys : List A} → Within xs ys → Within (x ∷ xs) (x ∷ ys)

-- For two modes in the order of permission, the tools that the lower one leaves are among those
-- that the higher one leaves, in the same order, if the higher one is a mode.
pub filter-Within {ℓ} :
    {Tool : Type ℓ} (tools : List (String × Tool)) (tiers : List (String × String))
    (low high : String)
    → contains autonomy_modes high ≡ true
    → index autonomy_modes low ≤ index autonomy_modes high
    → Within (filter_tools_for_mode tools tiers low) (filter_tools_for_mode tools tiers high)
unfolding filter_tools_for_mode mode_allows
filter-Within [] tiers low high known le = empty
filter-Within ((name, fn) ∷ tools) tiers low high known le =
    let rest = filter-Within tools tiers low high known le in
    let o = lookup (tier_or_apply (lookup name tiers)) tier_min_mode in
    elim (Bool-cases (allows o low)) [
      | inl e ↦ rw e (rw (allows-monotone o low high known le e) (keep rest))
      | inr e ↦ elim (Bool-cases (allows o high)) [
        | inl f ↦ rw e (rw f (skip rest))
        | inr f ↦ rw e (rw f rest)
      ]
    ]

-- `observe` allows the tier `report` only.
observe_only : (tier : String) → mode_allows "observe" tier ≡ true → tier ≡ "report"
unfolding mode_allows lookup index contains
observe_only tier e = elim (Bool-cases ("report" =ₛ tier)) [
  | inl r ↦ sym ((eq_iff "report" tier).0 r)
  | inr r ↦ elim (Bool-cases ("propose" =ₛ tier)) [
    | inl p ↦ absurd (let f = rw p at (rw r at e) in cc)
    | inr p ↦ elim (Bool-cases ("apply" =ₛ tier)) [
      | inl a ↦ absurd (let f = rw a at (rw p at (rw r at e)) in cc)
      | inr a ↦ absurd (let f = rw a at (rw p at (rw r at e)) in cc)
    ]
  ]
]

-- The tools left are reports only.
abbrev pub ReportsOnly {ℓ} :
    {Tool : Type ℓ} → List (String × String) → List (String × Tool) → Type 0
ReportsOnly tiers [] = Unit
ReportsOnly tiers ((name, fn) ∷ tools) =
    (tier_or_apply (lookup name tiers) ≡ "report") × ReportsOnly tiers tools

observe-ReportsOnly {ℓ} :
    {Tool : Type ℓ} (tools : List (String × Tool)) (tiers : List (String × String))
    → ReportsOnly tiers (filter_tools_for_mode tools tiers "observe")
unfolding filter_tools_for_mode
observe-ReportsOnly [] tiers = tt
observe-ReportsOnly ((name, fn) ∷ tools) tiers =
    let rest = observe-ReportsOnly tools tiers in
    let tier = tier_or_apply (lookup name tiers) in
    elim (Bool-cases (mode_allows "observe" tier)) [
      | inl e ↦ rw e (observe_only tier e, rest)
      | inr e ↦ rw e rest
    ]

-- The operator never chose, or chose a mode.
abbrev pub Chosen : Json → Type 0
Chosen (str mode) = contains autonomy_modes mode ≡ true
Chosen _ = ⊥

abbrev pub Readable : Stored → Type 0
Readable unreadable = ⊥
Readable absent = Unit
Readable (found null) = Unit
Readable (found (obj doc)) = Chosen (get doc "mode")
Readable (found _) = ⊥

state_of-observe : (doc : Fields) (j : Json) → (Chosen j → ⊥) → (state_of doc j).mode ≡ "observe"
state_of-observe doc (str mode) h = elim (Bool-cases (contains autonomy_modes mode)) [
  | inl e ↦ absurd (h e)
  | inr e ↦ rw e
]
state_of-observe doc null h = refl
state_of-observe doc _ h = refl

unreadable-observe : (s : Stored) → (Readable s → ⊥) → (read_autonomy_state s).mode ≡ "observe"
unfolding read_autonomy_state
unreadable-observe unreadable h = refl
unreadable-observe absent h = absurd (h tt)
unreadable-observe (found (obj doc)) h = state_of-observe doc (get doc "mode") h
unreadable-observe (found null) h = absurd (h tt)
unreadable-observe (found (str s)) h = refl
unreadable-observe (found _) h = refl

-- If the read of the dial fails, or gives a document other than `None` that is not an object or has none
-- of the three modes under `mode`, then every tool left for the mode that is read has the tier "report".
pub unreadable-ReportsOnly :
    {Tool : Type 0} (s : Stored) (tools : List (String × Tool)) (tiers : List (String × String))
    → (Readable s → ⊥)
    → ReportsOnly tiers (filter_tools_for_mode tools tiers (read_autonomy_state s).mode)
unreadable-ReportsOnly s tools tiers h =
    rw (unreadable-observe s h) (observe-ReportsOnly tools tiers)
