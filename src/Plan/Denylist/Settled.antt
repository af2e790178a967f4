-- ===== src/Plan/Denylist/Settled.antt =====
-- The actions that the hard-deny floors let through.
use driftscribe.Base.{true, false, [], ◌∷◌, ◌≡◌, refl, ◌⊎◌, inl, inr, ◌↔◌, arith, eq_iff}
use driftscribe.Base.Json.{Fields}
use driftscribe.Plan.Denylist.Names.{Actions, all_known_tuples}
use driftscribe.Plan.Denylist.Checks.{tuple_eq, in_tuples, is_mutation}
use driftscribe.Plan.Denylist.Evaluate.{floors}

pub tuple_eq_iff : (as' bs : Actions) → (tuple_eq as' bs ≡ true) ↔ (as' ≡ bs)
unfolding tuple_eq
tuple_eq_iff [] [] = ground arith
tuple_eq_iff [] (b ∷ bs) = ground arith
tuple_eq_iff (a ∷ as') [] = ground arith
tuple_eq_iff (a ∷ as') (b ∷ bs) = ground (arith, eq_iff a b, tuple_eq_iff as' bs)

-- Nothing is changed: the two tuples that are no mutations.
abbrev pub Quiet : Actions → Type 0
Quiet actions = (actions ≡ "no-op" ∷ []) ⊎ (actions ≡ "read" ∷ [])

-- A resource is made or updated in place.
abbrev pub Changing : Actions → Type 0
Changing actions = (actions ≡ "create" ∷ []) ⊎ (actions ≡ "update" ∷ [])

abbrev pub Settled : Actions → Type 0
Settled actions = Quiet actions ⊎ Changing actions

pub is_mutation-eq-false : (actions : Actions) → (is_mutation actions ≡ false) ↔ Quiet actions
unfolding is_mutation in_tuples
is_mutation-eq-false actions =
    ground (arith, tuple_eq_iff actions ("no-op" ∷ []), tuple_eq_iff actions ("read" ∷ []))

Settled-floors :
    (rc : Fields) (actions : Actions)
    → Settled actions
    → (in_tuples actions all_known_tuples ≡ true) × (floors rc actions ≡ [])
unfolding floors in_tuples tuple_eq
Settled-floors rc actions (inl (inl e)) = rw e (refl, refl)
Settled-floors rc actions (inl (inr e)) = rw e (refl, refl)
Settled-floors rc actions (inr (inl e)) = rw e (refl, refl)
Settled-floors rc actions (inr (inr e)) = rw e (refl, refl)

floors-Settled :
    (rc : Fields) (actions : Actions)
    → in_tuples actions all_known_tuples ≡ true
    → floors rc actions ≡ []
    → Settled actions
unfolding floors in_tuples
floors-Settled rc actions known silent = ground (
  arith,
  tuple_eq_iff actions ("no-op" ∷ []),
  tuple_eq_iff actions ("read" ∷ []),
  tuple_eq_iff actions ("create" ∷ []),
  tuple_eq_iff actions ("update" ∷ []),
)

-- The floors let an action through exactly when it is known and one of those four.
pub floors-eq-nil :
    (rc : Fields) (actions : Actions)
    → ((in_tuples actions all_known_tuples ≡ true) × (floors rc actions ≡ [])) ↔ Settled actions
floors-eq-nil rc actions = ((λ e. floors-Settled rc actions e.0 e.1), Settled-floors rc actions)
