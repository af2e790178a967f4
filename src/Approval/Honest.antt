-- ===== src/Approval/Honest.antt =====
-- What the documents of driftscribe_lib/approvals.py always say.
use mathlib.Core.Path.{subst}
use driftscribe.Base.{
  ℕ, String, true, false, Option, none, some, ◌≡◌, refl, sym, ap, ◌∙◌, ◌⊎◌, inl, inr, Bool-cases,
}
use driftscribe.Base.Text.{contains}
use driftscribe.Approval.Doc.{Audit, Doc, is_settled, phase_applied, rollback_phases}
use driftscribe.Approval.Store.{Docs, new_doc, flip, settle}
use driftscribe.Approval.History.{
  Change, stays, born, spent, refused, progressed, Step-Change, Reach, here, then,
}

-- A pending approval has no outcome, a denied one is resolved, and a used one has a phase and is
-- resolved only if the phase is "applied".
pub data Honest (doc : Doc) : Type 0 where
  undecided : doc.status ≡ "pending" → doc.apply_audit ≡ none → doc.resolved_at ≡ none → Honest doc
  rejected :
      (at : ℕ)
      → doc.status ≡ "denied"
      → doc.apply_audit ≡ none
      → doc.resolved_at ≡ some at
      → Honest doc
  redeemed :
      (audit : Audit)
      → doc.status ≡ "used"
      → doc.apply_audit ≡ some audit
      → contains rollback_phases audit.phase ≡ true
      → (doc.resolved_at ≡ none) ⊎ (audit.phase ≡ phase_applied)
      → Honest doc

abbrev pub HonestAt : Option Doc → Type 0
HonestAt none = Unit
HonestAt (some doc) = Honest doc

applied-is_settled : (a : Audit) → a.phase ≡ phase_applied → is_settled (some a) ≡ true
unfolding is_settled contains
applied-is_settled a e = rw e

pub settle-done :
    (phase : String) (detail : _) (at : Option ℕ) (now : ℕ) (doc : Doc)
    → is_settled doc.apply_audit ≡ true
    → settle phase detail at now doc ≡ doc
unfolding settle
settle-done phase detail at now doc e = rw e

settle-Honest :
    (phase : String) (detail : _) (at : Option ℕ) (now : ℕ) (doc : Doc)
    → doc.status ≡ "used"
    → contains rollback_phases phase ≡ true
    → (at ≡ none) ⊎ (phase ≡ phase_applied)
    → is_settled doc.apply_audit ≡ false
    → Honest doc
    → Honest (settle phase detail at now doc)
unfolding settle
settle-Honest phase detail at now doc used known only open_ (undecided s _ _) =
    absurd (let f = sym s ∙ used in cc)
settle-Honest phase detail at now doc used known only open_ (rejected _ s _ _) =
    absurd (let f = sym s ∙ used in cc)
settle-Honest phase detail at now doc used known only open_ (redeemed audit s a k r) = rw open_ (
    redeemed _ used refl known (elim r [
      | inl unresolved ↦ elim only [ inl e ↦ inl (rw e unresolved) | inr e ↦ inr e ]
      | inr applied ↦
          absurd (let f = sym open_ ∙ (ap is_settled a ∙ applied-is_settled audit applied) in cc)
    ]))

Change-Honest : {a b : Option Doc} → Change a b → HonestAt a → HonestAt b
unfolding new_doc flip contains
Change-Honest (stays o) h = h
Change-Honest (born h p id token now) _ = undecided refl refl refl
Change-Honest (spent doc now pending) (undecided s a r) = redeemed _ refl refl refl (inl r)
Change-Honest (spent doc now pending) (rejected at s a r) = absurd (let f = sym s ∙ pending in cc)
Change-Honest (spent doc now pending) (redeemed audit s a k r) =
    absurd (let f = sym s ∙ pending in cc)
Change-Honest (refused doc now pending) (undecided s a r) = rejected now refl a refl
Change-Honest (refused doc now pending) (rejected at s a r) = absurd (let f = sym s ∙ pending in cc)
Change-Honest (refused doc now pending) (redeemed audit s a k r) =
    absurd (let f = sym s ∙ pending in cc)
Change-Honest (progressed doc phase detail at now used known only) h =
    elim (Bool-cases (is_settled doc.apply_audit)) [
      | inl done ↦ subst Honest (sym (settle-done phase detail at now doc done)) h
      | inr more ↦ settle-Honest phase detail at now doc used known only more h
    ]

-- Every document the store can come to hold is honest.
pub Reach-Honest :
    {a b : Docs} → ((id : String) → HonestAt (a id)) → Reach a b → (id : String) → HonestAt (b id)
Reach-Honest h here id = h id
Reach-Honest h (then r s) id = Change-Honest (Step-Change s id) (Reach-Honest h r id)
