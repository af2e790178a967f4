-- ===== src/Signed/Metadata.antt =====
-- driftscribe_lib/iac_plan_metadata.py: `build_metadata`, over values that may be anything that JSON
-- holds. A `fullmatch` of a value that is no text raises a TypeError.
use Prim.Native.Char.{code}
use Prim.Native.String
use driftscribe.Base.{
  ℕ, suc, String, Bool, true, false, not, ◌&&◌, ◌||◌, Option, none, some, Result, ok, raised,
  type_error, value_error, require, ◌>>◌, if◌then◌else◌, leb, ◌==◌, ◌≡◌, refl,
}
use driftscribe.Base.Text.{◌=ₛ◌, until, after_first?, starts_with}
use driftscribe.Base.Json.{Json, num, str, Fields, end, field}

abbrev pub is_digit : ℕ → Bool
is_digit c = leb b'0' c && leb c b'9'

abbrev pub is_hex : ℕ → Bool
is_hex c = is_digit c || (leb b'a' c && leb c b'f')

abbrev pub is_alnum : ℕ → Bool
is_alnum c = is_digit c || (leb b'A' c && leb c b'Z') || (leb b'a' c && leb c b'z')

-- The characters `[A-Za-z0-9._-]`.
abbrev pub is_name_char : ℕ → Bool
is_name_char c = is_alnum c || c == b'.' || c == b'_' || c == b'-'

-- `[...]*` against a whole text.
unfoldable pub each_char : (ℕ → Bool) → String → Bool
each_char p String.[] = true
each_char p (String.◌∷◌ c s) = p (code c) && each_char p s

-- `len(s)`
unfoldable pub text_length : String → ℕ
text_length String.[] = 0
text_length (String.◌∷◌ c s) = suc (text_length s)

-- `[...]+` against a whole text.
abbrev pub some_chars : (ℕ → Bool) → String → Bool
some_chars p s = not (s =ₛ "") && each_char p s

-- `_HEX40`, `_HEX64`, `_DIGITS`
unfoldable pub is_hex_of : ℕ → String → Bool
is_hex_of n s = each_char is_hex s && text_length s == n

unfoldable pub is_digits : String → Bool
is_digits s = some_chars is_digit s

-- `_POSITIVE_DIGITS`
unfoldable pub is_positive_digits : String → Bool
is_positive_digits s = is_digits s && not (starts_with s "0")

abbrev pub parts_of_repo : String → Option String → Bool
parts_of_repo owner none = false
parts_of_repo owner (some name) = some_chars is_name_char owner && some_chars is_name_char name

-- `_REPO`: no character of the two names is a slash.
unfoldable pub is_repo : String → Bool
is_repo s = parts_of_repo (until b'/' s) (after_first? s "/")

-- What a pattern still awaits of `_SEMVER_3`: digits of a segment, with segments to come, or a suffix.
unfoldable pub semver_rest : ℕ → Bool → String → Bool
semver_rest n seen String.[] = seen && n == 0
semver_rest n seen (String.◌∷◌ c s) =
    let digit = semver_rest n true s in
    let next_1 = semver_rest 1 false s in
    let next_0 = semver_rest 0 false s in
    if is_digit (code c)
    then digit
    else if not seen
    then false
    else if n == 2
    then code c == b'.' && next_1
    else if n == 1
    then code c == b'.' && next_0
    else (code c == b'.' || code c == b'-')
      && some_chars (λ d. is_alnum d || d == b'.' || d == b'-') s

-- `_SEMVER_3`
unfoldable pub is_semver : String → Bool
is_semver s = semver_rest 2 false s

pub record MetadataInput : Type 0 where
  pub repo : Json
  pub pr_number : Json
  pub head_sha : Json
  pub base_sha : Json
  pub workflow_run_id : Json
  pub workflow_run_attempt : Json
  pub artifact_uri_plan : Json
  pub artifact_uri_json : Json
  pub generation_plan : Json
  pub generation_json : Json
  pub plan_sha256 : Json
  pub plan_json_sha256 : Json
  pub opentofu_version : Json
  pub provider_lockfile_sha256 : Json

-- `_check` with a `fullmatch` that nothing guards.
unfoldable pub check_match : (String → Bool) → String → Json → Result (Unit {0})
check_match p name (str s) = require (p s) name
check_match p name _ = raised type_error

-- `_check` with `isinstance(v, str)` before the `fullmatch`.
unfoldable pub check_text : (String → Bool) → String → Json → Result (Unit {0})
check_text p name (str s) = require (p s) name
check_text p name _ = raised (value_error name)

-- Whether the spelling of a number is that of an `int` above 0, which Python prints alike.
unfoldable pub spells_positive : String → Bool
spells_positive n = is_positive_digits n

unfoldable pub check_number : Json → Result (Unit {0})
check_number (num n) = require (spells_positive n) "pr_number"
check_number _ = raised (value_error "pr_number")

-- `f"{v}"`, of a value that has been checked to be a text or a whole number.
abbrev pub spelled : Json → String
spelled (str s) = s
spelled (num n) = n
spelled _ = ""

abbrev pub slash : String → String → String
slash s t = String.◌++◌ s (String.◌++◌ "/" t)

abbrev pub dash : String → String → String
dash s t = String.◌++◌ s (String.◌++◌ "-" t)

-- `expected_prefix`
unfoldable pub expected_prefix : MetadataInput → String
expected_prefix inp = slash "gs://driftscribe-hack-2026-tofu-artifacts" (
    slash (dash "pr" (spelled inp.pr_number)) (
      slash (spelled inp.head_sha) (
        slash (dash "run" (dash (spelled inp.workflow_run_id) (spelled inp.workflow_run_attempt)))
          "")))

abbrev pub equals : String → Json → Bool
equals t (str s) = s =ₛ t
equals t _ = false

unfoldable pub check_fields : MetadataInput → Result (Unit {0})
check_fields inp = do
  check_match is_repo "repo" inp.repo
  check_number inp.pr_number
  check_match (is_hex_of 40) "head_sha" inp.head_sha
  check_match (is_hex_of 40) "base_sha" inp.base_sha
  check_text is_digits "workflow_run_id" inp.workflow_run_id
  check_text is_positive_digits "workflow_run_attempt" inp.workflow_run_attempt
  check_text is_digits "generation_plan" inp.generation_plan
  check_text is_digits "generation_json" inp.generation_json
  check_match (is_hex_of 64) "plan_sha256" inp.plan_sha256
  check_match (is_hex_of 64) "plan_json_sha256" inp.plan_json_sha256
  check_match (is_hex_of 64) "provider_lockfile_sha256" inp.provider_lockfile_sha256
  check_match is_semver "opentofu_version" inp.opentofu_version
  require (equals (String.◌++◌ (expected_prefix inp) "plan.tfplan") inp.artifact_uri_plan)
      "artifact_uri_plan"
  require (equals (String.◌++◌ (expected_prefix inp) "plan.json") inp.artifact_uri_json)
      "artifact_uri_json"

abbrev pub metadata_schema_version : String
metadata_schema_version = "c2.v1"

-- The record that `build_metadata` returns.
abbrev pub metadata_of : MetadataInput → Fields
metadata_of inp = field "schema_version" (str metadata_schema_version) (
    field "repo" inp.repo (
      field "pr_number" inp.pr_number (
        field "head_sha" inp.head_sha (
          field "base_sha" inp.base_sha (
            field "workflow_run_id" inp.workflow_run_id (
              field "workflow_run_attempt" inp.workflow_run_attempt (
                field "artifact_uri_plan" inp.artifact_uri_plan (
                  field "artifact_uri_json" inp.artifact_uri_json (
                    field "generation_plan" inp.generation_plan (
                      field "generation_json" inp.generation_json (
                        field "plan_sha256" inp.plan_sha256 (
                          field "plan_json_sha256" inp.plan_json_sha256 (
                            field "opentofu_version" inp.opentofu_version (
                              field "provider_lockfile_sha256" inp.provider_lockfile_sha256
                                end))))))))))))))

-- `build_metadata`
unfoldable pub build_metadata : MetadataInput → Result Fields
build_metadata inp = check_fields inp >> ok (metadata_of inp)

semver_runs : is_semver "1.10.2-rc1" ≡ true
unfolding is_semver semver_rest each_char
semver_runs = refl
