-- ===== src/Signed/Payload.antt =====
-- driftscribe_lib/approvals.py: `new_approval_window` and `build_plan_approval_payload`. A time is a
-- number of microseconds. What `datetime.fromisoformat` reads, `none` where it raises ValueError, and
-- which characters are digits to `\d` are parameters.
pub mod Rebuilt
use Prim.Native.Char.{code}
use Prim.Native.String
use driftscribe.Base.{
  ℕ, ◌+◌, ◌*◌, String, Bool, true, false, not, ◌&&◌, Option, none, some, List, [], ◌∷◌, Result, ok,
  raised, type_error, value_error, require, ◌>>=◌, ◌>>◌, if◌then◌else◌, ltb, leb, ◌==◌, ◌≡◌, refl,
}
use driftscribe.Base.Text.{◌=ₛ◌}
use driftscribe.Base.Sorted.{sorted_names}
use driftscribe.Base.Json.{Json, str, obj, Fields, end, field, get}
use driftscribe.Signed.Metadata.{
  MetadataInput, metadata_schema_version, build_metadata, is_digits, equals, slash,
}

abbrev pub c2_metadata_keys : List String
c2_metadata_keys =
    "schema_version" ∷ "repo" ∷ "pr_number" ∷ "head_sha" ∷ "base_sha" ∷ "workflow_run_id"
    ∷ "workflow_run_attempt" ∷ "artifact_uri_plan" ∷ "artifact_uri_json" ∷ "generation_plan"
    ∷ "generation_json" ∷ "plan_sha256" ∷ "plan_json_sha256" ∷ "opentofu_version"
    ∷ "provider_lockfile_sha256" ∷ []

abbrev pub max_approval_ttl_minutes : ℕ
max_approval_ttl_minutes = 15

abbrev pub plan_approval_schema_version : String
plan_approval_schema_version = "c3.v1"

pub record Calendar : Type 0 where
  pub is_decimal : ℕ → Bool
  pub fromisoformat : String → Option ℕ

-- A text against a form in which a `d` stands for `\d` and every other character for itself.
unfoldable pub has_form : (ℕ → Bool) → String → String → Bool
has_form is_decimal String.[] s = s =ₛ ""
has_form is_decimal (String.◌∷◌ f form) String.[] = false
has_form is_decimal (String.◌∷◌ f form) (String.◌∷◌ c s) =
    (if code f == b'd' then is_decimal (code c) else code c == code f) && has_form is_decimal form s

-- `_RFC3339_UTC`
unfoldable pub is_rfc3339_utc : (ℕ → Bool) → String → Bool
is_rfc3339_utc is_decimal s = has_form is_decimal "dddd-dd-ddTdd:dd:dd+00:00" s

unfoldable pub keys : Fields → List String
keys end = []
keys (field k v rest) = k ∷ keys rest

unfoldable pub same_texts : List String → List String → Bool
same_texts [] [] = true
same_texts (s ∷ ss) (t ∷ ts) = s =ₛ t && same_texts ss ts
same_texts _ _ = false

-- The input of `build_metadata` that an object holds.
abbrev pub inputs_of : Fields → MetadataInput
inputs_of md = record {
  repo = get md "repo";
  pr_number = get md "pr_number";
  head_sha = get md "head_sha";
  base_sha = get md "base_sha";
  workflow_run_id = get md "workflow_run_id";
  workflow_run_attempt = get md "workflow_run_attempt";
  artifact_uri_plan = get md "artifact_uri_plan";
  artifact_uri_json = get md "artifact_uri_json";
  generation_plan = get md "generation_plan";
  generation_json = get md "generation_json";
  plan_sha256 = get md "plan_sha256";
  plan_json_sha256 = get md "plan_json_sha256";
  opentofu_version = get md "opentofu_version";
  provider_lockfile_sha256 = get md "provider_lockfile_sha256";
}

-- `s.rsplit("/", 1)[0]`: what stands before the last slash, the whole text if there is none.
unfoldable pub before_last_slash? : String → Option String
before_last_slash? String.[] = none
before_last_slash? (String.◌∷◌ c s) =
    let later = before_last_slash? s in
    elim later [
      | none ↦ if code c == b'/' then some "" else none
      | some rest ↦ some (String.◌∷◌ c rest)
    ]

abbrev pub run_dir_of : String → String
run_dir_of s = elim (before_last_slash? s) [ none ↦ s | some rest ↦ rest ]

abbrev pub text_of : Json → String
text_of (str s) = s
text_of _ = ""

-- What is signed besides the metadata.
pub record Binding : Type 0 where
  pub artifact_uri_metadata : String
  pub generation_metadata : String
  pub approver : String
  pub issued_at : String
  pub expires_at : String

-- A TypeError of `build_metadata` is turned into a ValueError.
unfoldable pub fold_type_error : Result Fields → Result Fields
fold_type_error (raised type_error) = raised (value_error "metadata: malformed field")
fold_type_error r = r

-- `_parse_rfc3339_utc`
unfoldable pub parse_rfc3339_utc : Calendar → String → Result ℕ
parse_rfc3339_utc cal s = elim (cal.fromisoformat s) [
  | none ↦ raised (value_error "isoformat")
  | some t ↦ ok t
]

unfoldable pub check_span : ℕ → ℕ → Result (Unit {0})
check_span issued expires = do
  require (ltb issued expires) "expires_at must be strictly after issued_at"
  require (leb expires (issued + max_approval_ttl_minutes * 60000000)) "approval window"

-- The checks on the window.
unfoldable pub check_window : Calendar → Binding → Result (Unit {0})
check_window cal b = do
  require (is_rfc3339_utc cal.is_decimal b.issued_at) "issued_at"
  require (is_rfc3339_utc cal.is_decimal b.expires_at) "expires_at"
  issued ← parse_rfc3339_utc cal b.issued_at
  expires ← parse_rfc3339_utc cal b.expires_at
  check_span issued expires

unfoldable pub check_metadata : Fields → Result (Unit {0})
check_metadata md = do
  require (same_texts (sorted_names (keys md)) (sorted_names c2_metadata_keys)) "metadata keys"
  require (equals metadata_schema_version (get md "schema_version")) "metadata.schema_version"

-- The checks on the locator and the approver.
unfoldable pub check_locator : Fields → Binding → Result (Unit {0})
check_locator canonical b = do
  require
      (b.artifact_uri_metadata
        =ₛ slash (run_dir_of (text_of (get canonical "artifact_uri_plan"))) "metadata.json")
      "artifact_uri_metadata"
  require (is_digits b.generation_metadata) "generation_metadata"
  require (not (b.approver =ₛ "")) "approver"

-- The checks on what is signed besides the metadata.
unfoldable pub check_binding : Calendar → Fields → Binding → Result (Unit {0})
check_binding cal canonical b = check_locator canonical b >> check_window cal b

abbrev pub payload_of : Fields → Binding → Fields
payload_of canonical b = field "approval_schema_version" (str plan_approval_schema_version) (
    field "metadata" (obj canonical) (
      field "artifact_uri_metadata" (str b.artifact_uri_metadata) (
        field "generation_metadata" (str b.generation_metadata) (
          field "approver" (str b.approver)
            (field "issued_at" (str b.issued_at) (field "expires_at" (str b.expires_at) end))))))

abbrev pub build_from : Calendar → Binding → Fields → Result Fields
build_from cal b md = do
  check_metadata md
  canonical ← fold_type_error (build_metadata (inputs_of md))
  check_binding cal canonical b
  ok (payload_of canonical b)

-- `build_plan_approval_payload`
unfoldable pub build_plan_approval_payload : Calendar → Json → Binding → Result Fields
build_plan_approval_payload cal (obj md) b = build_from cal b md
build_plan_approval_payload cal _ b = raised (value_error "metadata: must be a dict")
