-- ===== src/Apply/Fetch.antt =====
-- workers/tofu_apply/gcs_fetch.py. `none` stands for a `GcsFetchError`. What `int` makes of a
-- generation, and the download of an object at a generation, are parameters; bytes are texts.
use Prim.Native.String
use driftscribe.Base.{
  String, Bool, false, not, ◌&&◌, Option, none, some, List, [], ◌∷◌, if◌then◌else◌,
}
use driftscribe.Base.Text.{◌=ₛ◌, strip_prefix?, ends_with, until, after_first?, contains}
use driftscribe.Base.Json.{Json, str}
use driftscribe.Signed.Metadata.{is_hex_of, is_positive_digits, slash}
use driftscribe.Signed.Payload.{run_dir_of}

pub record Bucket : Type 0 where
  pub generation_of : Json → Option String
  pub download : String → String → Option String

abbrev pub artifact_bucket : String
artifact_bucket = "driftscribe-hack-2026-tofu-artifacts"

abbrev pub or_empty : Option String → String
or_empty none = ""
or_empty (some s) = s

-- `rest.partition("/")`, with the two parts tested.
unfoldable pub partition : String → Option (String × String)
partition rest =
    let bucket = until b'/' rest in
    let object = or_empty (after_first? rest "/") in
    if bucket =ₛ "" then none else if object =ₛ "" then none else some (bucket, object)

abbrev pub parse_rest : Option String → Option (String × String)
parse_rest none = none
parse_rest (some rest) = partition rest

-- `parse_gs_uri`
unfoldable pub parse_gs_uri : Json → Option (String × String)
parse_gs_uri (str uri) = parse_rest (strip_prefix? uri "gs://")
parse_gs_uri _ = none

-- A prefix and a whole number above 0.
abbrev pub is_numbered : Option String → Bool
is_numbered none = false
is_numbered (some s) = is_positive_digits s

abbrev pub is_run_ids : Option String → Bool
is_run_ids none = false
is_run_ids (some s) = is_positive_digits (until b'-' s) && is_numbered (after_first? s "-")

abbrev pub artifact_names : List String
artifact_names = "metadata.json" ∷ "plan.tfplan" ∷ "plan.json" ∷ "iac-tree.json" ∷ []

-- `_OBJECT_RE`, segment by segment: no segment has a slash.
unfoldable pub is_artifact_object : String → Bool
is_artifact_object s =
    let after_pr = or_empty (after_first? s "/") in
    let after_sha = or_empty (after_first? after_pr "/") in
    is_numbered (strip_prefix? (until b'/' s) "pr-")
    && is_hex_of 40 (until b'/' after_pr)
    && is_run_ids (strip_prefix? (until b'/' after_sha) "run-")
    && contains artifact_names (or_empty (after_first? after_sha "/"))

abbrev pub valid_object : String → Option (String × String) → Option String
valid_object basename none = none
valid_object basename (some (bucket, object)) =
    if not (bucket =ₛ artifact_bucket)
    then none
    else if not (is_artifact_object object)
    then none
    else if not (ends_with object (String.◌++◌ "/" basename))
    then none
    else some object

-- `validate_artifact_uri`: the object; the bucket is always the one above.
unfoldable pub validate_artifact_uri : Json → String → Option String
validate_artifact_uri uri basename = valid_object basename (parse_gs_uri uri)

abbrev pub pinned : Bucket → String → Option String → Option String
pinned b object none = none
pinned b object (some generation) = b.download object generation

-- `fetch_object_pinned`
unfoldable pub fetch_object_pinned : Bucket → String → Json → Option String
fetch_object_pinned b object generation = pinned b object (b.generation_of generation)

-- `fetch_artifact`
unfoldable pub fetch_artifact : Bucket → Json → Json → String → Option String
fetch_artifact b uri generation basename = elim (validate_artifact_uri uri basename) [
  | none ↦ none
  | some object ↦ fetch_object_pinned b object generation
]

-- The URI beside the metadata, if it is an artifact's. The object ends with "/metadata.json", so what
-- is left without the file's name is the text up to the last slash.
abbrev pub sidecar_of : Option String → Option String
sidecar_of none = none
sidecar_of (some object) =
    let uri =
      String.◌++◌ "gs://" (slash artifact_bucket (slash (run_dir_of object) "iac-tree.json")) in
    elim (validate_artifact_uri (str uri) "iac-tree.json") [ none ↦ none | some _ ↦ some uri ]

-- `derive_sidecar_uri`
unfoldable pub derive_sidecar_uri : Json → Option String
derive_sidecar_uri metadata_uri = sidecar_of (validate_artifact_uri metadata_uri "metadata.json")
