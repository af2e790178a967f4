-- ===== src/Approval/History.antt =====
-- How the documents evolve: each transaction of the store as a step, and the life of one document.
-- A fresh id has no document yet, and a phase is recorded only for an approval that is used, as the
-- rollback worker does after its claim.
use mathlib.Core.Path.{subst}
use driftscribe.Base.{
  ℕ, String, Bool, true, false, Option, none, some, ok, ◌≡◌, refl, sym, ◌⊎◌, inl, inr, Bool-cases,
  eq_iff, >>-eq-ok, >>=-eq-ok, require-eq-ok,
}
use driftscribe.Base.Text.{◌=ₛ◌, contains}
use driftscribe.Base.Json.{Fields}
use driftscribe.Approval.Doc.{Audit, Doc, phase_applied, rollback_phases}
use driftscribe.Approval.Store.{
  Docs, Proposal, put, new_doc, create, flip, claim, claim_pending, claim_denied, claim_read,
  burned, check_phase, settle, update, record_phase,
}

-- One transaction.
pub data Step : Docs → Docs → Type 0 where
  created :
      (h : String → String → String) (p : Proposal) (id token : String) (now : ℕ) (docs : Docs)
      → docs id ≡ none
      → Step docs (create h p id token now docs).0
  taken : (id : String) (now : ℕ) (docs : Docs) → Step docs (claim_pending id now docs).0
  denied : (id : String) (now : ℕ) (docs : Docs) → Step docs (claim_denied id now docs).0
  recorded :
      (id phase : String) (detail : Option Fields) (at : Option ℕ) (now : ℕ) (docs docs' : Docs)
      (doc : Doc)
      → docs id ≡ some doc
      → doc.status ≡ "used"
      → record_phase id phase detail at now docs ≡ ok docs'
      → Step docs docs'

pub data Reach (docs : Docs) : Docs → Type 0 where
  here : Reach docs docs
  then : {b c : Docs} → Reach docs b → Step b c → Reach docs c

-- What may become of the document under one key.
pub data Change : Option Doc → Option Doc → Type 0 where
  stays : (o : Option Doc) → Change o o
  born :
      (h : String → String → String) (p : Proposal) (id token : String) (now : ℕ)
      → Change none (some (new_doc h p id token now))
  spent :
      (doc : Doc) (now : ℕ)
      → doc.status ≡ "pending"
      → Change (some doc) (some (flip "used" false (burned now) now doc))
  refused :
      (doc : Doc) (now : ℕ)
      → doc.status ≡ "pending"
      → Change (some doc) (some (flip "denied" true none now doc))
  progressed :
      (doc : Doc) (phase : String) (detail : Option Fields) (at : Option ℕ) (now : ℕ)
      → doc.status ≡ "used"
      → contains rollback_phases phase ≡ true
      → (at ≡ none) ⊎ (phase ≡ phase_applied)
      → Change (some doc) (some (settle phase detail at now doc))

pub put_self : (id : String) (d : Doc) (docs : Docs) → put id d docs id ≡ some d
unfolding put
put_self id d docs = rw (eq_iff id id).1 refl

pub put-other :
    (id key : String) (d : Doc) (docs : Docs) → (key =ₛ id) ≡ false → put id d docs key ≡ docs key
unfolding put
put-other id key d docs e = rw e

-- A new document under one key changes that key only.
put-Change :
    (id key : String) (d : Doc) (docs : Docs)
    → Change (docs id) (some d)
    → Change (docs key) (put id d docs key)
put-Change id key d docs c = elim (Bool-cases (key =ₛ id)) [
  | inl e ↦
      let self : Change (docs id) (put id d docs id) = rw (put_self id d docs) c in
      subst (λ k. Change (docs k) (put id d docs k)) (sym ((eq_iff key id).0 e)) self
  | inr e ↦ rw (put-other id key d docs e) (stays (docs key))
]

-- A claim flips the document it reads, if that is pending.
claim_read-Change :
    (o : Option Doc) (new_status : String) (stamp : Bool) (extra : Option Audit) (id : String)
    (now : ℕ) (docs : Docs) (key : String)
    → docs id ≡ o
    → ((doc : Doc)
        → doc.status ≡ "pending"
        → Change (some doc) (some (flip new_status stamp extra now doc)))
    → Change (docs key) ((claim_read o new_status stamp extra id now docs).0 key)
unfolding claim_read
claim_read-Change none new_status stamp extra id now docs key e c = stays (docs key)
claim_read-Change (some doc) new_status stamp extra id now docs key e c =
    elim (Bool-cases (doc.status =ₛ "pending")) [
      | inl pending ↦
          rw pending
            (put-Change id key _ docs (rw e (c doc ((eq_iff doc.status "pending").0 pending))))
      | inr other ↦ rw other (stays (docs key))
    ]

update-Change :
    (o : Option Doc) (f : Doc → Doc) (id : String) (docs : Docs) (key : String) (doc : Doc)
    → o ≡ some doc
    → docs id ≡ o
    → Change (some doc) (some (f doc))
    → Change (docs key) (update o f id docs key)
unfolding update
update-Change none f id docs key doc e d c = absurd cc
update-Change (some found) f id docs key doc e d c =
    let same : found ≡ doc = cc in
    put-Change id key _ docs (rw d (subst (λ x. Change (some x) (some (f x))) (sym same) c))

-- What a phase satisfies that is recorded.
pub check_phase-eq-ok :
    (phase : String) (at : Option ℕ)
    → check_phase phase at ≡ ok tt
    → (contains rollback_phases phase ≡ true) × ((at ≡ none) ⊎ (phase ≡ phase_applied))
unfolding check_phase
check_phase-eq-ok phase none h =
    let (known, _) = (>>-eq-ok _ _).0 h in ((require-eq-ok _ _).0 known, inl refl)
check_phase-eq-ok phase (some at) h =
    let (known, only) = (>>-eq-ok _ _).0 h in
    ((require-eq-ok _ _).0 known, inr ((eq_iff phase phase_applied).0 ((require-eq-ok _ _).0 only)))

pub Step-Change : {a b : Docs} → Step a b → (key : String) → Change (a key) (b key)
unfolding create claim_pending claim_denied claim record_phase
Step-Change (created h p id token now docs fresh) key =
    put-Change id key _ docs (rw fresh (born h p id token now))
Step-Change (taken id now docs) key =
    claim_read-Change _ _ _ _ id now docs key refl (λ doc e. spent doc now e)
Step-Change (denied id now docs) key =
    claim_read-Change _ _ _ _ id now docs key refl (λ doc e. refused doc now e)
Step-Change (recorded id phase detail at now docs docs' doc e used done) key =
    let (u, checked, wrote) = >>=-eq-ok (check_phase phase at) _ done in
    let (known, only) = check_phase-eq-ok phase at checked in
    let same : update (docs id) (settle phase detail at now) id docs ≡ docs' = cc in
    subst (λ d. Change (docs key) (d key)) same
      (update-Change (docs id) _ id docs key doc e refl
        (progressed doc phase detail at now used known only))
