-- ===== src/Rollback/Http.antt =====
-- workers/rollback/main.py: what a handler does, and what it shares with other requests. Between
-- two store calls of a handler other requests may run; `others` is what they do to the documents,
-- and `clock` is the time at each of the handler's moments.
use driftscribe.Base.{ℕ, String, List, Option, Result, ok, raised}
use driftscribe.Base.Json.{Fields}
use driftscribe.Approval.Store.{Docs, record_phase}

-- A body, an `HTTPException` with its status code, or another exception.
pub data Reply (A : Type 0) : Type 0 where
  answered : A → Reply A
  http : ℕ → Reply A
  crashed : Reply A

pub data Moment : Type 0 where
  reading claiming starting resolving : Moment

pub record Worker : Type 0 where
  pub hmac_sha256 : String → String → String
  pub approval_hmac_key : String
  pub clock : Moment → ℕ
  pub others : Moment → Docs → Docs

-- The documents afterwards, the revisions that `update_service` was asked to send all traffic to,
-- and the reply.
pub record Ran (A : Type 0) : Type 0 where
  pub docs : Docs
  pub sent : List String
  pub reply : Reply A

-- `ExecuteRequest`, for `/execute` and `/deny`.
pub record ExecuteRequest : Type 0 where
  pub approval_id : String
  pub approval_token : String

abbrev pub written : {A : Type 0} → Result Docs → Docs → List String → Reply A → Ran A
written (ok docs') docs sent reply = record { docs = docs'; sent = sent; reply = reply }
written (raised _) docs sent reply = record { docs = docs; sent = sent; reply = crashed }

-- `store.record_phase(...)`, after what other requests did, and then the reply.
unfoldable pub note :
    {A : Type 0}
    → Worker
    → Moment
    → String
    → String
    → Fields
    → Option ℕ
    → Docs
    → List String
    → Reply A
    → Ran A
note w moment id phase detail at docs sent reply =
    let now = w.others moment docs in
    written (record_phase id phase (Option.some detail) at (w.clock moment) now) now sent reply
