-- ===== src/Editor/Path.antt =====
-- driftscribe_lib/iac_editor_policy.py: `_validate_one_path` and `validate_branch`. A number is the
-- status code of the `EditorPolicyError`; which characters `str.strip` takes off is a parameter.
use Prim.Native.Char.{Char, code}
use Prim.Native.String
use driftscribe.Base.{
  ℕ, String, Bool, false, not, ◌&&◌, ◌||◌, Option, none, some, List, [], ◌∷◌, if◌then◌else◌, ltb,
  leb, ◌==◌, ◌≡◌, refl,
}
use driftscribe.Base.Text.{◌=ₛ◌, strip_prefix?, starts_with, has_infix, contains}
use driftscribe.Signed.Metadata.{is_name_char, each_char, text_length}

-- `[A-Za-z0-9._/-]`
abbrev pub is_path_char : ℕ → Bool
is_path_char c = is_name_char c || c == b'/'

-- The character that a segment starts with, put before the segments that follow it.
abbrev pub extend_first : Char → List String → List String
extend_first c [] = String.◌∷◌ c "" ∷ []
extend_first c (x ∷ xs) = String.◌∷◌ c x ∷ xs

-- `path.split("/")`
unfoldable pub segments : String → List String
segments String.[] = "" ∷ []
segments (String.◌∷◌ c s) =
    let rest = segments s in if code c == b'/' then "" ∷ rest else extend_first c rest

-- One segment in the loop of `posixpath.normpath`, over the segments kept so far, last first.
abbrev pub normal_step : String → List String → List String
normal_step seg [] = if seg =ₛ "" then [] else if seg =ₛ "." then [] else seg ∷ []
normal_step seg (last ∷ kept) =
    if seg =ₛ ""
    then last ∷ kept
    else if seg =ₛ "."
    then last ∷ kept
    else if not (seg =ₛ "..")
    then seg ∷ (last ∷ kept)
    else if last =ₛ ".."
    then seg ∷ (last ∷ kept)
    else kept

unfoldable pub normal_segments : List String → List String → List String
normal_segments [] kept = kept
normal_segments (seg ∷ segs) kept = normal_segments segs (normal_step seg kept)

-- The segments, last first, joined by slashes before a text.
unfoldable pub joined : List String → String → String
joined [] s = s
joined (seg ∷ segs) s = joined segs (String.◌++◌ seg (String.◌++◌ "/" s))

abbrev pub joined_path : List String → String
joined_path [] = "."
joined_path (seg ∷ segs) = joined segs seg

-- `posixpath.normpath`, on a path that does not start with a slash.
unfoldable pub normpath : String → String
normpath path = joined_path (normal_segments (segments path) [])

abbrev pub is_dot : ℕ → Bool
is_dot c = c == b'.'

-- What stands before the last dot, and from there on.
unfoldable pub last_dot? : String → Option (String × String)
last_dot? String.[] = none
last_dot? (String.◌∷◌ c s) = elim (last_dot? s) [
  | none ↦ if is_dot (code c) then some ("", String.◌∷◌ c s) else none
  | some found ↦ some (String.◌∷◌ c found.0, found.1)
]

abbrev pub extension_of : Option (String × String) → String
extension_of none = ""
extension_of (some (before, suffix)) = if each_char is_dot before then "" else suffix

unfoldable pub last_segment : List String → String
last_segment [] = ""
last_segment (seg ∷ []) = seg
last_segment (seg ∷ (next ∷ segs)) = last_segment (next ∷ segs)

-- `posixpath.splitext(path)[1]`: dots at the start of the file's name begin no extension.
unfoldable pub extension : String → String
extension path = extension_of (last_dot? (last_segment (segments path)))

-- Whether a text ends in a character of a kind, or is empty after one.
unfoldable pub ends_in : (ℕ → Bool) → Bool → String → Bool
ends_in p before String.[] = before
ends_in p before (String.◌∷◌ c s) = ends_in p (p (code c)) s

abbrev pub starts_in : (ℕ → Bool) → String → Bool
starts_in p String.[] = false
starts_in p (String.◌∷◌ c s) = p (code c)

-- `ord(c) < 0x20 or ord(c) == 0x7f`
abbrev pub is_control : ℕ → Bool
is_control c = ltb c 32 || c == 127

abbrev pub iac_prefix : String
iac_prefix = "iac/"

abbrev pub allowed_suffixes : List String
allowed_suffixes = ".tf" ∷ ".md" ∷ []

abbrev pub foundation : List String
foundation =
    "iac/.terraform.lock.hcl" ∷ "iac/versions.tf" ∷ "iac/providers.tf" ∷ "iac/variables.tf"
    ∷ "iac/imports.tf" ∷ []

-- `_validate_one_path`
unfoldable pub validate_one_path : (ℕ → Bool) → String → Option ℕ
validate_one_path is_space path =
    if path =ₛ "" || starts_in is_space path || ends_in is_space false path
    then some 422
    else if not (each_char (λ c. not (is_control c)) path)
    then some 403
    else if has_infix path "\\"
    then some 403
    else if not (each_char is_path_char path)
    then some 403
    else if starts_with path "/"
    then some 403
    else if not (path =ₛ normpath path) || contains (segments path) ".."
    then some 403
    else if not (starts_with path iac_prefix)
    then some 403
    else if not (contains allowed_suffixes (extension path))
    then some 403
    else if contains foundation path
    then some 403
    else none

-- `[A-Za-z0-9._/-]{1,200}`
abbrev pub is_branch_tail : Option String → Bool
is_branch_tail none = false
is_branch_tail (some tail) =
    not (tail =ₛ "") && each_char is_path_char tail && leb (text_length tail) 200

-- `validate_branch`
unfoldable pub validate_branch : String → Option ℕ
validate_branch branch =
    if not (is_branch_tail (strip_prefix? branch "infra/")) || has_infix branch ".."
    then some 403
    else none

-- `validate_base`
unfoldable pub validate_base : String → Option ℕ
validate_base base = if not (base =ₛ "main") then some 403 else none

path_runs :
    (normpath "iac/../x/./y.tf" ≡ "x/y.tf")
    × (extension "iac/.hidden" ≡ "")
    × (extension "iac/a.b.tf" ≡ ".tf")
unfolding normpath normal_segments segments joined extension last_dot? last_segment each_char
path_runs = (refl, refl, refl)
