-- ===== src/Rollback/Steps.antt =====
-- Every handler of the rollback worker moves the documents by transactions of the store, whatever
-- else runs in between.
use driftscribe.Base.{
  ℕ, String, Option, none, some, List, ◌≡◌, refl, sym, ◌∙◌, inl, inr, Bool-cases, Result, ok,
  raised,
}
use driftscribe.Base.Json.{Fields}
use driftscribe.Approval.Doc.{Doc, is_settled}
use driftscribe.Approval.Store.{Docs, record_phase, settle}
use driftscribe.Approval.History.{
  recorded, Reach, here, then, Change, stays, born, spent, refused as turned_down, progressed,
  Step-Change,
}
use driftscribe.Rollback.Http.{Reply, Moment, Worker, written, note}

-- Other requests, too, use transactions of the store only.
abbrev pub Polite : Worker → Type 0
Polite w = (m : Moment) (docs : Docs) → Reach docs (w.others m docs)

pub Reach-trans : {a b c : Docs} → Reach a b → Reach b c → Reach a c
Reach-trans r here = r
Reach-trans r (then s t) = then (Reach-trans r s) t

abbrev pub UsedAt : Option Doc → Type 0
UsedAt none = ⊥
UsedAt (some doc) = doc.status ≡ "used"

Change-Used : {a b : Option Doc} → Change a b → UsedAt a → UsedAt b
unfolding settle
Change-Used (stays o) u = u
Change-Used (born h p id token now) u = absurd u
Change-Used (spent doc now pending) u = absurd (let f = sym pending ∙ u in cc)
Change-Used (turned_down doc now pending) u = absurd (let f = sym pending ∙ u in cc)
Change-Used (progressed doc phase detail at now used known only) u =
    elim (Bool-cases (is_settled doc.apply_audit)) [ inl done ↦ rw done u | inr more ↦ rw more u ]

pub Reach-Used : {a b : Docs} (id : String) → Reach a b → UsedAt (a id) → UsedAt (b id)
Reach-Used id here u = u
Reach-Used id (then r s) u = Change-Used (Step-Change s id) (Reach-Used id r u)

pub record_phase-Reach :
    (o : Option Doc) (id phase : String) (detail : Option Fields) (at : Option ℕ) (now : ℕ)
    (docs docs' : Docs)
    → docs id ≡ o
    → UsedAt o
    → record_phase id phase detail at now docs ≡ ok docs'
    → Reach docs docs'
record_phase-Reach none id phase detail at now docs docs' e u h = absurd u
record_phase-Reach (some doc) id phase detail at now docs docs' e u h =
    then here (recorded id phase detail at now docs docs' doc e u h)

written-Reach :
    {A : Type 0} (r : Result Docs) (docs : Docs) (sent : List String) (reply : Reply A)
    → ((docs' : Docs) → r ≡ ok docs' → Reach docs docs')
    → Reach docs (written r docs sent reply).docs
written-Reach (ok d) docs sent reply f = f d refl
written-Reach (raised e) docs sent reply f = here

module _ (w : Worker) (polite : Polite w) where
  pub note-Reach :
      {A : Type 0} (m : Moment) (id phase : String) (detail : Fields) (at : Option ℕ) (docs : Docs)
      (sent : List String) (reply : Reply A)
      → UsedAt (docs id)
      → Reach docs (note w m id phase detail at docs sent reply).docs
  unfolding note
  note-Reach m id phase detail at docs sent reply u =
      let now = w.others m docs in
      Reach-trans (polite m docs) (
        written-Reach _ now sent reply (λ docs' h.
          record_phase-Reach (now id) id phase (some detail) at (w.clock m) now docs' refl
            (Reach-Used id (polite m docs) u) h))
