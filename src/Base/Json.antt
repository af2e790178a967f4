-- ===== src/Base/Json.antt =====
-- Parsed JSON documents, as `json.loads` returns them. A number keeps its spelling: no rule reads
-- it. `json.loads` keeps one value for each key, so a lookup takes the first.
use Prim.Native.String.{String}
use mathlib.Core.Bool.{Bool, true, false}
use mathlib.Core.List.{List}
use driftscribe.Base.Tests.{if◌then◌else◌}
use driftscribe.Base.Text.{◌=ₛ◌, contains}
use driftscribe.Base.Fault.{Result, ok, raised, type_error}

mutual
  pub data Json : Type 0 where
    null : Json
    bool : Bool → Json
    num : String → Json
    str : String → Json
    arr : Items → Json
    obj : Fields → Json

  pub data Items : Type 0 where
    nil : Items
    cons : Json → Items → Items

  pub data Fields : Type 0 where
    end : Fields
    field : String → Json → Fields → Fields

abbrev pub elems : Items → List Json
elems nil = List.[]
elems (cons j js) = List.◌∷◌ j (elems js)

-- `d.get(key)`, which is `None` for a key that is absent.
unfoldable pub get : Fields → String → Json
get end key = null
get (field k v rest) key = if k =ₛ key then v else get rest key

-- `d.get(key, default)`
unfoldable pub get_or : Fields → String → Json → Json
get_or end key default = default
get_or (field k v rest) key default = if k =ₛ key then v else get_or rest key default

-- `isinstance(value, str)`
abbrev pub is_str : Json → Bool
is_str (str s) = true
is_str _ = false

-- `value is None`
abbrev pub is_null : Json → Bool
is_null null = true
is_null _ = false

-- `value if isinstance(value, dict) else {}`
abbrev pub dict_of : Json → Fields
dict_of (obj fs) = fs
dict_of _ = end

-- `value in names`, for a `frozenset` of texts: a list or a dict has no hash, so Python raises.
unfoldable pub member : Json → List String → Result Bool
member (str s) names = ok (contains names s)
member (arr _) names = raised type_error
member (obj _) names = raised type_error
member _ names = ok false
