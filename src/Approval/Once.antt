-- ===== src/Approval/Once.antt =====
-- driftscribe_lib/approvals.py: a token is spent at most once, and a final document never changes.
use mathlib.Core.Path.{subst}
use driftscribe.Base.{
  ℕ, String, Bool, true, false, Option, none, some, ◌≡◌, refl, sym, ap, ◌∙◌, ◌⊎◌, ◌≢◌, inl, inr,
  Bool-cases,
}
use driftscribe.Approval.Honest.{settle-done}
use driftscribe.Base.Text.{◌=ₛ◌}
use driftscribe.Approval.Doc.{Audit, Doc, is_settled}
use driftscribe.Approval.Store.{
  Docs, new_doc, flip, settle, claim_pending, claim_denied, claim, claim_read, burned,
}
use driftscribe.Approval.History.{
  put_self, Change, stays, born, spent, refused, progressed, Step-Change, Reach, here, then,
}

-- Claimed or denied: the document is there and not pending.
abbrev pub Decided : Option Doc → Type 0
Decided none = ⊥
Decided (some doc) = (doc.status =ₛ "pending") ≡ false

Change-Decided : {a b : Option Doc} → Change a b → Decided a → Decided b
unfolding new_doc flip settle
Change-Decided (stays o) d = d
Change-Decided (born h p id token now) d = absurd d
Change-Decided (spent doc now pending) d = refl
Change-Decided (refused doc now pending) d = refl
Change-Decided (progressed doc phase detail at now used known only) d =
    elim (Bool-cases (is_settled doc.apply_audit)) [ inl done ↦ rw done d | inr more ↦ rw more d ]

-- Used, with a phase that is terminal, or denied: no transaction changes the document.
abbrev pub Final : Doc → Type 0
Final doc = (doc.status ≡ "denied") ⊎ ((doc.status ≡ "used") × (is_settled doc.apply_audit ≡ true))

abbrev pub FinalAt : Option Doc → Type 0
FinalAt none = ⊥
FinalAt (some doc) = Final doc

pending-not_Final : (doc : Doc) → doc.status ≡ "pending" → Final doc → ⊥
pending-not_Final doc e (inl denied) = let f = sym e ∙ denied in cc
pending-not_Final doc e (inr (used, _)) = let f = sym e ∙ used in cc

Change-Final : {a b : Option Doc} → Change a b → FinalAt a → b ≡ a
Change-Final (stays o) f = refl
Change-Final (born h p id token now) f = absurd f
Change-Final (spent doc now pending) f = absurd (pending-not_Final doc pending f)
Change-Final (refused doc now pending) f = absurd (pending-not_Final doc pending f)
Change-Final (progressed doc phase detail at now used known only) (inl denied) =
    absurd (let g = sym used ∙ denied in cc)
Change-Final (progressed doc phase detail at now used known only) (inr (_, done)) =
    ap some (settle-done phase detail at now doc done)

-- A decided approval stays decided.
pub Reach-Decided : {a b : Docs} (id : String) → Reach a b → Decided (a id) → Decided (b id)
Reach-Decided id here d = d
Reach-Decided id (then r s) d = Change-Decided (Step-Change s id) (Reach-Decided id r d)

-- A final document never changes.
pub Reach-Final : {a b : Docs} (id : String) → Reach a b → FinalAt (a id) → b id ≡ a id
Reach-Final id here f = refl
Reach-Final id (then r s) f =
    let e = Reach-Final id r f in Change-Final (Step-Change s id) (subst FinalAt (sym e) f) ∙ e

Decided-loses :
    (o : Option Doc) (new_status : String) (stamp : Bool) (extra : Option Audit) (id : String)
    (now : ℕ) (docs : Docs)
    → Decided o
    → claim_read o new_status stamp extra id now docs ≡ (docs, none)
unfolding claim_read
Decided-loses none new_status stamp extra id now docs d = absurd d
Decided-loses (some doc) new_status stamp extra id now docs d = rw d

won-Decided :
    (o : Option Doc) (new_status : String) (stamp : Bool) (extra : Option Audit) (id : String)
    (now : ℕ) (docs : Docs)
    → (new_status =ₛ "pending") ≡ false
    → (claim_read o new_status stamp extra id now docs).1 ≢ none
    → Decided ((claim_read o new_status stamp extra id now docs).0 id)
unfolding claim_read flip
won-Decided none new_status stamp extra id now docs n w = absurd (w refl)
won-Decided (some doc) new_status stamp extra id now docs n w =
    elim (Bool-cases (doc.status =ₛ "pending")) [
      | inl pending ↦ rw pending (rw (put_self id (flip new_status stamp extra now doc) docs) n)
      | inr other ↦ absurd (w (rw other))
    ]

-- Neither claim wins, and neither changes anything.
abbrev pub Refuses : String → Docs → Type 0
Refuses id docs =
    (later : ℕ)
    → (claim_pending id later docs ≡ (docs, none)) × (claim_denied id later docs ≡ (docs, none))

Decided-Refuses : (id : String) (docs : Docs) → Decided (docs id) → Refuses id docs
unfolding claim_pending claim_denied claim
Decided-Refuses id docs d later =
    (Decided-loses (docs id) _ _ _ id later docs d, Decided-loses (docs id) _ _ _ id later docs d)

-- Once `claim_pending` or `claim_denied` has won for an id, then after any further creations under ids
-- that have no document yet, claims, denials, and records of phases for used approvals, on this and on
-- other ids, neither wins again for it nor changes a document.
pub decided_once :
    (id : String) (now : ℕ) (docs docs' : Docs)
    → (((claim_pending id now docs).1 ≢ none) × Reach (claim_pending id now docs).0 docs')
      ⊎ (((claim_denied id now docs).1 ≢ none) × Reach (claim_denied id now docs).0 docs')
    → Refuses id docs'
unfolding claim_pending claim_denied claim
decided_once id now docs docs' (inl (won, reach)) =
    Decided-Refuses id docs' (
      Reach-Decided id reach (won-Decided (docs id) "used" false (burned now) id now docs refl won))
decided_once id now docs docs' (inr (won, reach)) =
    Decided-Refuses id docs'
      (Reach-Decided id reach (won-Decided (docs id) "denied" true none id now docs refl won))
