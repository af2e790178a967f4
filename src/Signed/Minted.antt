-- ===== src/Signed/Minted.antt =====
-- What `create` stores, the other operations on it read back (driftscribe_lib/approvals.py).
use driftscribe.Base.{ℕ, String, true, some, ok, >>=-eq-ok, ◌≡◌, sym, ap, arith, eq_iff}
use driftscribe.Base.Text.{◌=ₛ◌}
use driftscribe.Base.Json.{Json, obj, Fields, get}
use driftscribe.Signed.Store.{
  Crypto, PlanDoc, PlanApproval, PlanDocs, put, new_doc, create, check_payload, metadata_item,
  parse_item, with_key, get_plan_approval, verify_plan_approval, signed_payload,
  canonicalize_payload,
}

pub eq_self : (s : String) → (s =ₛ s) ≡ true
eq_self s = ground (arith, eq_iff s s)

pub put_self : (id : String) (doc : PlanDoc) (docs : PlanDocs) → put id doc docs id ≡ some doc
unfolding put
put_self id doc docs = rw (eq_self id)

-- How `create` returned.
abbrev pub Minted :
    Crypto
    → Fields
    → String
    → String
    → String
    → String
    → ℕ
    → PlanDocs
    → PlanDocs
    → PlanApproval
    → String
    → Type 0
Minted c payload hmac_key created_by id token now docs docs' a t =
    (expires : ℕ) × (pr : Json) × (head : Json) × (docs'
      ≡ put id (new_doc c payload hmac_key created_by id token now expires pr head) docs)
    × (a ≡ record {
      approval_id = id;
      body = new_doc c payload hmac_key created_by id token now expires pr head;
    })
    × (t ≡ token)

abbrev Stored : Type 0
Stored = PlanDocs × (PlanApproval × String)

ok_parts : (x y : Stored) → ok x ≡ ok y → (y.0 ≡ x.0) × (y.1.0 ≡ x.1.0) × (y.1.1 ≡ x.1.1)
ok_parts x y e =
    let same : x ≡ y = cc in
    (ap (λ z. z.0) (sym same), ap (λ z. z.1.0) (sym same), ap (λ z. z.1.1) (sym same))

pub create-Minted :
    (c : Crypto) (payload : Fields) (hmac_key created_by id token : String) (now : ℕ)
    (docs docs' : PlanDocs) (a : PlanApproval) (t : String)
    → create c payload hmac_key created_by id token now docs ≡ ok (docs', (a, t))
    → Minted c payload hmac_key created_by id token now docs docs' a t
unfolding create
create-Minted c payload hmac_key created_by id token now docs docs' a t e =
    let (_, _, e1) = >>=-eq-ok (check_payload payload) _ e in
    let (expires, _, e2) = >>=-eq-ok (parse_item c.calendar (get payload "expires_at")) _ e1 in
    let (pr, _, e3) = >>=-eq-ok (metadata_item payload "pr_number") _ e2 in
    let (head, _, e4) = >>=-eq-ok (metadata_item payload "head_sha") _ e3 in
    let (stored, returned, given) = ok_parts _ (docs', (a, t)) e4 in
    (expires, pr, head, stored, returned, given)

-- What `create` stores is what `get` reads afterwards, the token that it returns verifies against it,
-- and if `json.loads` reads back what `json.dumps` wrote, its signed payload is the one given.
pub create-verifies :
    (c : Crypto) (payload : Fields) (hmac_key created_by id token : String) (now : ℕ)
    (docs docs' : PlanDocs) (a : PlanApproval) (t : String)
    → c.loads (c.dumps payload) ≡ some (obj payload)
    → create c payload hmac_key created_by id token now docs ≡ ok (docs', (a, t))
    → (get_plan_approval id docs' ≡ some a)
      × (verify_plan_approval c t a hmac_key ≡ true)
      × (signed_payload c a ≡ some (obj payload))
unfolding get_plan_approval verify_plan_approval signed_payload new_doc canonicalize_payload
create-verifies c payload hmac_key created_by id token now docs docs' a t law e =
    let (expires, pr, head, stored, returned, given) =
      create-Minted c payload hmac_key created_by id token now docs docs' a t e in
    rw stored (
      rw returned (
        rw given (
          ap (with_key id) (
              put_self id (new_doc c payload hmac_key created_by id token now expires pr head)
                docs),
          eq_self _,
          law,
        )))
