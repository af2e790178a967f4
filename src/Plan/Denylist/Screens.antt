-- ===== src/Plan/Denylist/Screens.antt =====
-- What it takes for the steps that the identity rules share to find nothing.
use driftscribe.Base.{
  String, Bool, true, false, List, [], ◌∷◌, Result, ok, raised, or_else, ◌≡◌, refl, ◌⊎◌, ◌↔◌, arith,
  All, if◌then◌else◌, eq_iff,
}
use driftscribe.Base.Text.{starts_with_any, ends_with_any, ◌=ₛ◌}
use driftscribe.Base.Json.{Json, null, Fields, is_str, member}
use driftscribe.Plan.Denylist.Names.{
  control_plane_bucket_suffixes, service_managed_bucket_suffixes, service_managed_bucket_prefixes,
  service_managed_pubsub_prefixes,
}
use driftscribe.Plan.Denylist.Rules.{Rule, Violation}
use driftscribe.Plan.Denylist.Checks.{
  flag, screen, is_protected_bucket_name, is_service_managed_bucket_name,
  is_service_managed_pubsub_name, names_in,
}
use driftscribe.Plan.Denylist.Protected.{Spared, Unlike, BothSides}
use driftscribe.Plan.Denylist.Evaluate.{gather}

pub flag-eq-nil :
    (rule : Rule) (rc : Fields) (r : Result Bool) → (flag rule rc r ≡ ok []) ↔ (r ≡ ok false)
unfolding flag
flag-eq-nil rule rc r = ground arith

pub or_else-eq-false :
    (a b : Result Bool) → (or_else a b ≡ ok false) ↔ ((a ≡ ok false) × (b ≡ ok false))
or_else-eq-false a b = ground arith

pub member-eq-false :
    (j : Json) (names : List String) → (member j names ≡ ok false) ↔ Spared names j
unfolding member
member-eq-false null names = ground arith
member-eq-false j names = ground arith

pub screen-tests :
    (rule : Rule) (rc : Fields) (test : Json → Result Bool) (b a : Json)
    → (screen rule rc test b a ≡ ok [])
      ↔ (((is_str b ≡ true) ⊎ (is_str a ≡ true)) × (test b ≡ ok false) × (test a ≡ ok false))
unfolding screen
screen-tests rule rc test b a = ground arith

pub screen-eq-nil :
    (rule : Rule) (rc : Fields) (test : Json → Result Bool) (P : Json → Type 0)
    → ((j : Json) → (test j ≡ ok false) ↔ P j)
    → (b a : Json) → (screen rule rc test b a ≡ ok []) ↔ BothSides P b a
screen-eq-nil rule rc test P reads b a =
    let (to, from) = screen-tests rule rc test b a in
    (
      λ e. ((to e).0, (reads b).0 (to e).1, (reads a).0 (to e).2),
      λ (named, pb, pa). from (named, (reads b).1 pb, (reads a).1 pa),
    )

pub protected_bucket-eq-false :
    (j : Json)
    → (◌≡◌ {A = Result Bool} (ok (is_protected_bucket_name j)) (ok false))
      ↔ Unlike control_plane_bucket_suffixes [] j
unfolding is_protected_bucket_name starts_with_any
protected_bucket-eq-false null = ground arith
protected_bucket-eq-false j = ground arith

pub managed_bucket-eq-false :
    (j : Json)
    → (is_service_managed_bucket_name j ≡ false)
      ↔ Unlike service_managed_bucket_suffixes service_managed_bucket_prefixes j
unfolding is_service_managed_bucket_name
managed_bucket-eq-false null = ground arith
managed_bucket-eq-false j = ground arith

pub managed_pubsub-eq-false :
    (j : Json)
    → (◌≡◌ {A = Result Bool} (ok (is_service_managed_pubsub_name j)) (ok false))
      ↔ Unlike [] service_managed_pubsub_prefixes j
unfolding is_service_managed_pubsub_name ends_with_any
managed_pubsub-eq-false null = ground arith
managed_pubsub-eq-false j = ground arith

-- The rules that look names up in a set.
pub names-eq-nil :
    (rule : Rule) (rc : Fields) (names : List String) (b a : Json)
    → (screen rule rc (names_in names) b a ≡ ok []) ↔ BothSides (Spared names) b a
names-eq-nil rule rc names b a =
    screen-eq-nil rule rc (names_in names) (Spared names) (λ j. member-eq-false j names) b a

pub gather-eq-nil :
    (rs : List (Result (List Violation))) → (gather rs ≡ ok []) ↔ All (λ r. r ≡ ok []) rs
unfolding gather
gather-eq-nil [] = ground arith
gather-eq-nil (raised e ∷ rs) = ground arith
gather-eq-nil (ok (v ∷ vs) ∷ rs) = ground (arith, gather-eq-nil rs)
gather-eq-nil (ok [] ∷ rs) = ground (arith, gather-eq-nil rs)

abbrev pub Silent : Result (List Violation) → Type 0
Silent r = r ≡ ok []

pub when-Silent :
    (t : Bool) (x : Result (List Violation)) (P : Type 0)
    → Silent x ↔ P
    → Silent (if t then x else ok []) ↔ (t ≡ true → P)
when-Silent true x P h = ((λ e _. h.0 e), λ p. h.1 (p refl))
when-Silent false x P h = ((λ e t. absurd cc), λ p. refl)

pub either-Silent :
    (t u : Bool) (x y : Result (List Violation)) (P Q : Type 0)
    → (t ≡ true → u ≡ false)
    → Silent x ↔ P
    → Silent y ↔ Q
    → Silent (if t then x else if u then y else ok []) ↔ ((t ≡ true → P) × (u ≡ true → Q))
either-Silent true u x y P Q apart h k =
    ((λ e. ((λ _. h.0 e), λ q. absurd (let f = apart refl in cc))), λ p. h.1 (p.0 refl))
either-Silent false u x y P Q apart h k =
    let (to, from) = when-Silent u y Q k in ((λ e. ((λ q. absurd cc), to e)), λ p. from p.1)

-- Two literals that differ are not both the type.
pub apart : (s a b : String) → (a =ₛ b) ≡ false → (s =ₛ a) ≡ true → (s =ₛ b) ≡ false
apart s a b ne e = rw ((eq_iff s a).0 e) ne
