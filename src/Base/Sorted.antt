-- ===== src/Base/Sorted.antt =====
-- `sorted(set(names))`, on texts.
use Prim.Native.Char.{code}
use Prim.Native.String.{String}
use mathlib.Core.Bool.{Bool, true, false, ◌||◌, ◌&&◌}
use mathlib.Core.List.{List, [], ◌∷◌}
use driftscribe.Base.Tests.{if◌then◌else◌, ltb, ◌==◌}
use driftscribe.Base.Text.{◌=ₛ◌}

-- The order of texts by their characters.
unfoldable pub precedes : String → String → Bool
precedes s String.[] = false
precedes String.[] (String.◌∷◌ d t) = true
precedes (String.◌∷◌ c s) (String.◌∷◌ d t) =
    ltb (code c) (code d) || (code c == code d && precedes s t)

-- Insertion into a sorted list without repetition.
unfoldable pub insert : String → List String → List String
insert name [] = name ∷ []
insert name (n ∷ ns) =
    let rest = insert name ns in
    if name =ₛ n then n ∷ ns else if precedes name n then name ∷ (n ∷ ns) else n ∷ rest

unfoldable pub sorted_names : List String → List String
sorted_names [] = []
sorted_names (n ∷ ns) = insert n (sorted_names ns)
