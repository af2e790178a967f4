-- ===== src/Base/Value.antt =====
-- How Python compares and tests parsed JSON values. What numbers it takes two spellings for, which
-- characters are digits to `\d`, and how it prints a value that is no text are parameters.
use Prim.Native.Nat.{ℕ, suc}
use Prim.Native.String.{String}
use mathlib.Core.Bool.{Bool, true, false, not, ◌&&◌}
use mathlib.Core.Option.{Option, none, some}
use driftscribe.Base.Tests.{◌==◌, if◌then◌else◌}
use driftscribe.Base.Text.{◌=ₛ◌}
use driftscribe.Base.Json.{
  Json, null, bool, num, str, arr, obj, Items, nil, cons, Fields, end, field, is_null,
}

pub record Python : Type 0 where
  pub num_eq : String → String → Bool
  pub is_zero : String → Bool
  pub is_digit : ℕ → Bool
  pub format : Json → String

-- `f"{value}"`
abbrev pub shown_value : Python → Json → String
shown_value py (str s) = s
shown_value py j = py.format j

-- `d[key]`, if the key is there.
unfoldable pub find? : Fields → String → Option Json
find? end key = none
find? (field k v rest) key = let later = find? rest key in if k =ₛ key then some v else later

-- `len(d)`
unfoldable pub size : Fields → ℕ
size end = 0
size (field k v rest) = suc (size rest)

abbrev pub same_bool : Bool → Bool → Bool
same_bool true b = b
same_bool false b = not b

-- `True == 1` and `False == 0`.
abbrev pub bool_num : Python → Bool → String → Bool
bool_num py true n = py.num_eq n "1"
bool_num py false n = py.num_eq n "0"

abbrev pub bool_eq : Python → Bool → Json → Bool
bool_eq py b (bool c) = same_bool b c
bool_eq py b (num n) = bool_num py b n
bool_eq py b _ = false

abbrev pub number_eq : Python → String → Json → Bool
number_eq py n (bool c) = bool_num py c n
number_eq py n (num m) = py.num_eq n m
number_eq py n _ = false

abbrev pub text_eq : String → Json → Bool
text_eq s (str t) = s =ₛ t
text_eq s _ = false

-- `a == b`
unfoldable mutual
  pub json_eq : Python → Json → Json → Bool
  json_eq py null k = is_null k
  json_eq py (bool b) k = bool_eq py b k
  json_eq py (num n) k = number_eq py n k
  json_eq py (str s) k = text_eq s k
  json_eq py (arr xs) (arr ys) = items_eq py xs ys
  json_eq py (arr xs) _ = false
  json_eq py (obj fs) (obj gs) = (size fs == size gs) && fields_in py fs gs
  json_eq py (obj fs) _ = false

  pub items_eq : Python → Items → Items → Bool
  items_eq py nil nil = true
  items_eq py nil (cons k ks) = false
  items_eq py (cons j js) nil = false
  items_eq py (cons j js) (cons k ks) = json_eq py j k && items_eq py js ks

  pub fields_in : Python → Fields → Fields → Bool
  fields_in py end gs = true
  fields_in py (field k v rest) gs =
      elim (find? gs k) [ none ↦ false | some w ↦ json_eq py v w ] && fields_in py rest gs

-- `bool(value)`
abbrev pub is_truthy : Python → Json → Bool
is_truthy py null = false
is_truthy py (bool b) = b
is_truthy py (num n) = not (py.is_zero n)
is_truthy py (str s) = not (s =ₛ "")
is_truthy py (arr nil) = false
is_truthy py (arr (cons j js)) = true
is_truthy py (obj end) = false
is_truthy py (obj (field k v rest)) = true
