-- ===== src/Base/Fault.antt =====
-- What a call returns or raises. A text names the message's subject where the code gives one.
use Prim.Native.String.{String}
use mathlib.Core.Path.{◌≡◌, refl}
use mathlib.Core.Logic.{◌↔◌}
use mathlib.Core.Bool.{Bool, true, false}

pub data Fault : Type 0 where
  type_error : Fault
  value_error : String → Fault

pub data Result {ℓ} (A : Type ℓ) : Type ℓ where
  ok : A → Result A
  raised : Fault → Result A

-- `raise` skips what follows.
infixl 5 ◌>>=◌ ◌>>◌
abbrev pub ◌>>=◌ {ℓ κ} : {X : Type ℓ} {Y : Type κ} → Result X → (X → Result Y) → Result Y
raised fault >>= next = raised fault
ok x >>= next = next x

-- The next check, after one that returns nothing.
abbrev pub ◌>>◌ {ℓ} : {Y : Type ℓ} → Result (Unit {0}) → Result Y → Result Y
first >> next = first >>= λ _. next

-- `_require(cond, message)`: raise `ValueError` unless the test holds.
abbrev pub require : Bool → String → Result (Unit {0})
require true message = ok tt
require false message = raised (value_error message)

-- Python's `a or b` on tests that may raise: the second is not made if the first is true.
abbrev pub or_else : Result Bool → Result Bool → Result Bool
or_else (ok true) b = ok true
or_else (ok false) b = b
or_else (raised e) b = raised e

-- What returns has returned at its first step.
pub >>=-eq-ok {ℓ κ} :
    {X : Type ℓ} {Y : Type κ} (first : Result X) (next : X → Result Y) {y : Y}
    → first >>= next ≡ ok y
    → (x : X) × (first ≡ ok x) × (next x ≡ ok y)
>>=-eq-ok (raised fault) next returned = absurd cc
>>=-eq-ok (ok x) next returned = (x, refl, returned)

-- A chain of checks passes exactly when each check does.
pub >>-eq-ok : (m k : Result (Unit {0})) → ((m >> k) ≡ ok tt) ↔ ((m ≡ ok tt) × (k ≡ ok tt))
>>-eq-ok (ok tt) k = ((λ e. (refl, e)), λ p. p.1)
>>-eq-ok (raised e) k = ((λ e. absurd cc), λ p. absurd (let f = p.0 in cc))

pub require-eq-ok : (b : Bool) (message : String) → (require b message ≡ ok tt) ↔ (b ≡ true)
require-eq-ok true message = ((λ e. refl), λ e. refl)
require-eq-ok false message = ((λ e. absurd cc), λ e. absurd cc)
