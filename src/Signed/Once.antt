-- ===== src/Signed/Once.antt =====
-- An approval of a plan is claimed at most once, whatever transactions of the store come in between
-- (driftscribe_lib/approvals.py).
use driftscribe.Base.{ℕ, String, false, Option, none, some, ◌≡◌, ◌⊎◌}
use driftscribe.Base.Text.{◌=ₛ◌}
use driftscribe.Base.Json.{Fields}
use driftscribe.Signed.Store.{PlanDoc, PlanApproval, PlanDocs, put, claim_pending, claim_denied}

-- One transaction: a creation under a fresh id, a claim of either kind, or an audit.
pub data Step : PlanDocs → PlanDocs → Type 0 where
  created :
      (id : String) (doc : PlanDoc) (docs : PlanDocs) → docs id ≡ none → Step docs (put id doc docs)
  used :
      (id by : String) (at : ℕ) (audit : Option Fields) (docs : PlanDocs)
      → Step docs (claim_pending id by at audit docs).0
  denied : (id by : String) (at : ℕ) (docs : PlanDocs) → Step docs (claim_denied id by at docs).0
  audited :
      (id : String) (doc : PlanDoc) (audit : Fields) (docs : PlanDocs)
      → docs id ≡ some doc
      → Step docs (put id (record doc { apply_audit = some audit }) docs)

pub data Steps : PlanDocs → PlanDocs → Type 0 where
  done : {docs : PlanDocs} → Steps docs docs
  then_step :
      {docs docs' docs'' : PlanDocs} → Steps docs docs' → Step docs' docs'' → Steps docs docs''

-- The approval is there and no longer pending.
abbrev pub Spent : PlanDocs → String → Type 0
Spent docs id = (doc : PlanDoc) × (docs id ≡ some doc) × ((doc.status =ₛ "pending") ≡ false)

-- The claim of either kind.
abbrev pub Wins : PlanDocs → PlanDocs → String → PlanApproval → Type 0
Wins docs docs' id a =
    ((by : String) × (at : ℕ) × (audit : Option Fields) × (claim_pending id by at audit docs
        ≡ (docs', some a)))
    ⊎ ((by : String) × (at : ℕ) × (claim_denied id by at docs ≡ (docs', some a)))
