-- ===== src/Base/Text.antt =====
-- The operations on texts that the program takes from `str`: prefixes, suffixes, substrings and
-- `split` at a separator, by recursion on the characters, and membership in a set of texts.
use Prim.Native.Nat.{ℕ}
use Prim.Native.Char.{code}
use Prim.Native.String.{String, [], ◌∷◌}
use mathlib.Core.Path.{◌≡◌, refl}
use mathlib.Core.Bool.{Bool, true, false, ◌||◌, ◌&&◌}
use mathlib.Core.Option.{Option, none, some}
use mathlib.Core.List.{List}
use text.Mathlib.Text.{◌==◌ as str_eq}
use driftscribe.Base.Tests.{◌==◌, if◌then◌else◌}

-- `s == t` on `str`.
infix 50 ◌=ₛ◌
abbrev pub ◌=ₛ◌ : String → String → Bool
s =ₛ t = str_eq s t

-- `s[len(t):]` if `s.startswith(t)`.
unfoldable pub strip_prefix? : String → String → Option String
strip_prefix? s [] = some s
strip_prefix? [] (d ∷ t) = none
strip_prefix? (c ∷ s) (d ∷ t) = if code c == code d then strip_prefix? s t else none

abbrev pub is_some {ℓ} : {A : Type ℓ} → Option A → Bool
is_some none = false
is_some (some _) = true

-- `s.startswith(t)`
unfoldable pub starts_with : String → String → Bool
unfolding strip_prefix?
starts_with s t = is_some (strip_prefix? s t)

-- `s.endswith(t)`
unfoldable pub ends_with : String → String → Bool
ends_with [] t = [] =ₛ t
ends_with (c ∷ s) t = (c ∷ s) =ₛ t || ends_with s t

-- `s.split(sep, 1)[1]`: what follows the first `sep`, `none` if `sep` does not occur.
unfoldable pub after_first? : String → String → Option String
unfolding strip_prefix?
after_first? [] sep = strip_prefix? [] sep
after_first? (c ∷ s) sep =
    let later = after_first? s sep in
    elim (strip_prefix? (c ∷ s) sep) [ none ↦ later | some rest ↦ some rest ]

-- `t in s`
unfoldable pub has_infix : String → String → Bool
unfolding after_first?
has_infix s t = is_some (after_first? s t)

-- `s.split(c, 1)[0]` for a separator of one character: what stands before the first `c`.
unfoldable pub until : ℕ → String → String
until c [] = []
until c (d ∷ s) = let rest = until c s in if code d == c then [] else d ∷ rest

-- `s in names`, for a `frozenset` of texts.
unfoldable pub contains : List String → String → Bool
contains List.[] s = false
contains (List.◌∷◌ x xs) s = s =ₛ x || contains xs s

-- `any(s.endswith(t) for t in suffixes)`
unfoldable pub ends_with_any : String → List String → Bool
ends_with_any s List.[] = false
ends_with_any s (List.◌∷◌ t ts) = ends_with s t || ends_with_any s ts

-- `any(s.startswith(t) for t in prefixes)`
unfoldable pub starts_with_any : String → List String → Bool
starts_with_any s List.[] = false
starts_with_any s (List.◌∷◌ t ts) = starts_with s t || starts_with_any s ts

tests_run : (ends_with "acme-tofu-state" "-tofu-state" && has_infix "a_iam_b" "_iam_") ≡ true
unfolding ends_with has_infix
tests_run = refl
