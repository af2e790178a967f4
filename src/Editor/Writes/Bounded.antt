-- ===== src/Editor/Writes/Bounded.antt =====
-- What the editor's policy (driftscribe_lib/iac_editor_policy.py) lets through.
use driftscribe.Base.{
  ℕ, ◌≤◌, String, Bool, true, false, not, ◌||◌, Option, none, some, List, [], ◌∷◌, ◌≡◌, refl, arith,
  All, length, is_empty, ltb, if◌then◌else◌,
}
use driftscribe.Base.Text.{◌=ₛ◌, starts_with, has_infix, contains}
use driftscribe.Signed.Metadata.{each_char}
use driftscribe.Editor.Path.{
  validate_one_path, starts_in, ends_in, is_control, is_path_char, normpath, segments, iac_prefix,
  allowed_suffixes, extension, foundation,
}
use driftscribe.Editor.Writes.{
  Write, utf8_length, max_files, max_file_bytes, max_total_bytes, first_of, check_content,
  check_writes, total_bytes, validate_file_writes,
}

-- Under iac/, without a step up, of one of the two kinds of files, and no foundation file.
abbrev pub Placed : String → Type 0
Placed path =
    (starts_with path iac_prefix ≡ true)
    × (contains (segments path) ".." ≡ false)
    × (contains allowed_suffixes (extension path) ≡ true)
    × (contains foundation path ≡ false)

validate_one_path-Placed :
    (is_space : ℕ → Bool) (path : String) → validate_one_path is_space path ≡ none → Placed path
unfolding validate_one_path
validate_one_path-Placed is_space path =
    go (path =ₛ "" || starts_in is_space path || ends_in is_space false path)
      (each_char (λ c. not (is_control c)) path) (has_infix path "\\") (each_char is_path_char path)
      (starts_with path "/") (path =ₛ normpath path) (contains (segments path) "..")
      (starts_with path iac_prefix) (contains allowed_suffixes (extension path))
      (contains foundation path)
  where
    go :
        (a b c d e f g h i j : Bool)
        → if◌then◌else◌ {A = Option ℕ} a (some 422) (
            if not b
            then some 403
            else if c
            then some 403
            else if not d
            then some 403
            else if e
            then some 403
            else if not f || g
            then some 403
            else if not h
            then some 403
            else if not i
            then some 403
            else if j
            then some 403
            else none)
          ≡ none
        → (h ≡ true) × (g ≡ false) × (i ≡ true) × (j ≡ false)
    go a b c d e f g h i j eq = ground arith

-- A write in its place, with something to write, of a bounded size.
abbrev pub Bounded : (ℕ → Bool) → Write → Type 0
Bounded is_space w =
    Placed w.path × (each_char is_space w.content ≡ false) × (utf8_length w.content ≤ 200000)

-- No path comes twice.
abbrev pub DistinctPaths : List String → List Write → Type 0
DistinctPaths seen [] = Unit
DistinctPaths seen (w ∷ ws) = (contains seen w.path ≡ false) × DistinctPaths (w.path ∷ seen) ws

first_of-none : (a b : Option ℕ) → first_of a b ≡ none → (a ≡ none) × (b ≡ none)
first_of-none none b e = (refl, e)
first_of-none (some c) b e = absurd cc

content_lem :
    (is_space : ℕ → Bool) (seen : List String) (w : Write)
    → check_content is_space seen w ≡ none
    → (contains seen w.path ≡ false)
      × (each_char is_space w.content ≡ false)
      × (utf8_length w.content ≤ 200000)
content_lem is_space seen w =
    go (contains seen w.path) (each_char is_space w.content) (utf8_length w.content)
  where
    go :
        (a b : Bool) (n : ℕ)
        → if◌then◌else◌ {A = Option ℕ} a
            (some 403)
            (if b then some 422 else if ltb max_file_bytes n then some 422 else none)
          ≡ none
        → (a ≡ false) × (b ≡ false) × (n ≤ 200000)
    go a b n e = ground arith

check_writes-Bounded :
    (is_space : ℕ → Bool) (seen : List String) (ws : List Write)
    → check_writes is_space seen ws ≡ none
    → All (Bounded is_space) ws × DistinctPaths seen ws
unfolding check_writes
check_writes-Bounded is_space seen [] e = (tt, tt)
check_writes-Bounded is_space seen (w ∷ ws) e =
    let (e_path, e1) = first_of-none (validate_one_path is_space w.path) _ e in
    let (e_content, e2) = first_of-none (check_content is_space seen w) _ e1 in
    let (fresh, filled, small) = content_lem is_space seen w e_content in
    let (all, distinct) = check_writes-Bounded is_space (w.path ∷ seen) ws e2 in
    (((validate_one_path-Placed is_space w.path e_path, filled, small), all), (fresh, distinct))

writes_lem :
    (a : Bool) (n m : ℕ) (o : Option ℕ)
    → (if a
        then some 422
        else if ltb max_files n
        then some 422
        else first_of o (if ltb max_total_bytes m then some 422 else none))
      ≡ none
    → (a ≡ false) × (n ≤ 32) × (m ≤ 1000000) × (o ≡ none)
writes_lem a n m none e = ground arith
writes_lem a n m (some c) e = ground arith

-- Writes that pass are at least one and at most 32, of at most 1,000,000 bytes in all, with no path
-- twice, and each has at most 200,000 bytes and more than white space, under a path that lies in iac/,
-- has no step up, ends in .tf or .md and is no foundation file.
pub validate_file_writes-Bounded :
    (is_space : ℕ → Bool) (writes : List Write)
    → validate_file_writes is_space writes ≡ none
    → (is_empty writes ≡ false)
      × (length writes ≤ 32)
      × (total_bytes writes ≤ 1000000)
      × All (Bounded is_space) writes
      × DistinctPaths [] writes
unfolding validate_file_writes
validate_file_writes-Bounded is_space writes e =
    let (some_write, few, light, passed) =
      writes_lem (is_empty writes) (length writes) (total_bytes writes)
        (check_writes is_space [] writes) e in
    let (all, distinct) = check_writes-Bounded is_space [] writes passed in
    (some_write, few, light, all, distinct)
