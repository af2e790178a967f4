-- ===== src/Examples/Editor.antt =====
-- One write that the editor's policy lets through.
use driftscribe.Base.{ℕ, ◌≤◌, ◌==◌, Bool, false, List, [], ◌∷◌, ◌≡◌, refl, All, length, is_empty}
use driftscribe.Base.Text.{contains, starts_with, strip_prefix?, has_infix, after_first?}
use driftscribe.Signed.Metadata.{each_char}
use driftscribe.Editor.Path.{
  validate_one_path, normpath, normal_segments, segments, joined, extension, last_dot?,
  last_segment, ends_in,
}
use driftscribe.Editor.Writes.{Write, utf8_length, check_writes, total_bytes, validate_file_writes}
use driftscribe.Editor.Writes.Bounded.{Bounded, DistinctPaths, validate_file_writes-Bounded}

abbrev is_space : ℕ → Bool
is_space c = c == 32

abbrev writes : List Write
writes = record { path = "iac/bucket.tf"; content = "x" } ∷ []

validate_file_writes-Bounded_example :
    (is_empty writes ≡ false)
    × (length writes ≤ 32)
    × (total_bytes writes ≤ 1000000)
    × All (Bounded is_space) writes
    × DistinctPaths [] writes
unfolding validate_file_writes check_writes validate_one_path normpath normal_segments segments
    joined extension last_dot? last_segment ends_in utf8_length total_bytes contains starts_with
    strip_prefix? has_infix after_first? each_char
validate_file_writes-Bounded_example = validate_file_writes-Bounded is_space writes refl
