-- ===== src/Editor/Writes.antt =====
-- driftscribe_lib/iac_editor_policy.py: `validate_file_writes` and `validate_title_body`. A missing path
-- or content counts as the empty text, as in `w.get(key, "")`.
pub mod Bounded
use Prim.Native.Char.{len_utf8}
use Prim.Native.String
use driftscribe.Base.{
  ℕ, ◌+◌, String, Bool, not, ◌||◌, Option, none, some, List, [], ◌∷◌, if◌then◌else◌, ltb, is_empty,
  length,
}
use driftscribe.Base.Text.{◌=ₛ◌, contains}
use driftscribe.Signed.Metadata.{each_char, text_length}
use driftscribe.Editor.Path.{validate_one_path}

pub record Write : Type 0 where
  pub path : String
  pub content : String

-- `len(s.encode("utf-8"))`
unfoldable pub utf8_length : String → ℕ
utf8_length String.[] = 0
utf8_length (String.◌∷◌ c s) = len_utf8 c + utf8_length s

abbrev pub max_files : ℕ
max_files = 32

abbrev pub max_file_bytes : ℕ
max_file_bytes = 200000

abbrev pub max_total_bytes : ℕ
max_total_bytes = 1000000

abbrev pub first_of : Option ℕ → Option ℕ → Option ℕ
first_of (some code) next = some code
first_of none next = next

-- The checks of one write after its path's.
abbrev pub check_content : (ℕ → Bool) → List String → Write → Option ℕ
check_content is_space seen w =
    if contains seen w.path
    then some 403
    else if each_char is_space w.content
    then some 422
    else if ltb max_file_bytes (utf8_length w.content)
    then some 422
    else none

-- The loop, with the paths seen before.
unfoldable pub check_writes : (ℕ → Bool) → List String → List Write → Option ℕ
check_writes is_space seen [] = none
check_writes is_space seen (w ∷ ws) =
    first_of (validate_one_path is_space w.path)
      (first_of (check_content is_space seen w) (check_writes is_space (w.path ∷ seen) ws))

unfoldable pub total_bytes : List Write → ℕ
total_bytes [] = 0
total_bytes (w ∷ ws) = utf8_length w.content + total_bytes ws

-- `validate_file_writes`: the code of the refusal, if any.
unfoldable pub validate_file_writes : (ℕ → Bool) → List Write → Option ℕ
validate_file_writes is_space writes =
    if is_empty writes
    then some 422
    else if ltb max_files (length writes)
    then some 422
    else first_of (check_writes is_space [] writes)
        (if ltb max_total_bytes (total_bytes writes) then some 422 else none)

-- `validate_title_body`
unfoldable pub validate_title_body : String → String → Option ℕ
validate_title_body title body =
    if ltb 200 (text_length title) || ltb 20000 (text_length body) then some 422 else none
