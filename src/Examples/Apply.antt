-- ===== src/Examples/Apply.antt =====
-- A plan, a refresh and a run of OpenTofu, for the guard, the freshness gate and the diagnosis.
use driftscribe.Base.{true, false, none, some, [], ◌∷◌, ◌≡◌, refl, ◌↔◌, ◌⊎◌, inl, arith}
use driftscribe.Base.Text.{starts_with, strip_prefix?, contains}
use driftscribe.Base.Sorted.{sorted_names, insert, precedes}
use driftscribe.Base.Json.{num, str, arr, obj, nil, cons, Fields, end, field, get, get_or}
use driftscribe.Base.Value.{Python, find?, json_eq, size}
use driftscribe.Plan.Classify.{is_quiet_list}
use driftscribe.Drift.Secrets.{folded, is_infix, is_prefix, fold_case}
use driftscribe.Apply.Guard.{resource_set_guard}
use driftscribe.Apply.Guard.Admits.{AdmitsPlan, resource_set_guard_iff}
use driftscribe.Apply.Drift.{
  cloud_run_allowlist, diff_leaf_paths, is_computed_only_path, normalize_attr_path, has_true,
  benign_drift_allowlists, strip_indices, index_length, is_null_empty_normalization, under_subtree,
  added_keys,
}
use driftscribe.Apply.Drift.Classify.{
  classify_refresh_drift, drift_entries, drift_entry, drift_change, sort_leaves, sort_paths,
  allowlist_of, all_quiet,
}
use driftscribe.Apply.Drift.Benign.{benign_keeps_texts}
use driftscribe.Apply.Sequence.{
  Command, apply_plan, exited, Answer, World, run_apply_sequence, apply_saved_plan, initialize,
  freshness, after_init, after_refresh, after_apply, attempt, run_tofu, state_serial_lineage,
  reading_of, is_lock_contention,
}
use driftscribe.Apply.Sequence.Gate.{applies}
use driftscribe.Apply.Sequence.Cleared.{Cleared, run_apply_sequence-Cleared}
use driftscribe.Apply.Sequence.Clean.{Unchanged, Judged, clean_failure_iff}

abbrev pub plan : Fields
plan =
    field "resource_changes"
      (arr (
        cons
          (obj (
            field "address" (str "google_storage_bucket.b")
              (field "change" (obj (field "actions" (arr (cons (str "update") nil)) end)) end)))
          nil))
      end

resource_set_guard_iff_example :
    (resource_set_guard plan ("google_storage_bucket.b" ∷ []) false false ≡ none)
    ↔ AdmitsPlan false false ("google_storage_bucket.b" ∷ []) (get plan "resource_changes")
resource_set_guard_iff_example =
    resource_set_guard_iff plan ("google_storage_bucket.b" ∷ []) false false

abbrev pub python : Python
python = record {
  num_eq = λ a b. true;
  is_zero = λ a. false;
  is_digit = λ c. false;
  format = λ j. "";
}

abbrev before : Fields
before = field "etag" (str "1") (field "ingress" (str "all") end)

abbrev after : Fields
after = field "etag" (str "2") (field "ingress" (str "all") end)

abbrev change : Fields
change =
    field "actions" (arr (cons (str "update") nil))
      (field "before" (obj before) (field "after" (obj after) end))

abbrev entry : Fields
entry =
    field "address" (str "s")
      (field "type" (str "google_cloud_run_v2_service") (field "change" (obj change) end))

abbrev show : Fields
show = field "resource_drift" (arr (cons (obj entry) nil)) end

benign_keeps_texts_example :
    (find? after "ingress" ≡ some (str "all"))
    ⊎ (is_computed_only_path (normalize_attr_path python "ingress") cloud_run_allowlist ≡ true)
unfolding classify_refresh_drift drift_entries drift_entry drift_change sort_leaves sort_paths
    allowlist_of all_quiet diff_leaf_paths is_computed_only_path normalize_attr_path has_true
    benign_drift_allowlists strip_indices index_length is_null_empty_normalization under_subtree
    added_keys get get_or find? json_eq size contains starts_with strip_prefix? sorted_names insert
    precedes is_quiet_list
benign_keeps_texts_example =
    benign_keeps_texts python show entry change before after (cons (obj entry) nil)
      (record { benign = true; paths = "s:etag" ∷ [] }) cloud_run_allowlist "ingress" "all" refl
      refl refl (inl refl) refl refl refl refl refl refl

abbrev pub fine : Answer
fine = record { rc = exited 0; out = ""; err = "" }

-- OpenTofu succeeds at everything.
abbrev pub quiet_world : World
quiet_world = record { tofu = λ c ran. some fine; loads = λ s. none; py = python }

run_apply_sequence-Cleared_example :
    (applies (run_apply_sequence quiet_world []).0 ≡ 1) × Cleared quiet_world
unfolding run_apply_sequence initialize freshness after_init after_refresh apply_saved_plan
    after_apply attempt run_tofu state_serial_lineage reading_of applies
run_apply_sequence-Cleared_example = run_apply_sequence-Cleared quiet_world (omega arith)

-- An apply fails, and the state stays at its serial.
abbrev answer_of : Command → Answer
answer_of apply_plan = record { rc = exited 1; out = ""; err = "denied" }
answer_of _ = fine

abbrev failing_world : World
failing_world = record {
  tofu = λ c ran. some (answer_of c);
  loads = λ s. some (obj (field "serial" (num "3") (field "lineage" (str "l") end)));
  py = python;
}

clean_failure_iff_example :
    Judged (answer_of apply_plan) (apply_saved_plan failing_world []).1 (Unchanged failing_world [])
unfolding is_lock_contention folded is_infix is_prefix fold_case
clean_failure_iff_example = clean_failure_iff failing_world [] (answer_of apply_plan) refl refl refl
