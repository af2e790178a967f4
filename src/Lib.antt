-- ===== src/Lib.antt =====
-- DriftScribe watches a Cloud Run service for drift and proposes changes of its infrastructure. This
-- library models the parts that decide what may happen: the denylist over OpenTofu plans and the
-- predicates that route plans, the classifier and the validator of the drift workload, the approvals
-- of rollbacks with the worker that executes them, the approvals of plans with the worker that applies
-- them, the policy for edits of the infrastructure, and the autonomy dial and pause flag.
--
-- The modules under Plan (driftscribe_lib/iac_plan_denylist.py, iac_plan_classify.py)
--   Plan/Denylist/Names, Rules: the constants and rule ids. Plan/Denylist/Checks: the rules
--   `_check_*` for one change. Plan/Denylist/Evaluate: `_iter_resource_changes` (`read_entry`) and
--   `evaluate`. Plan/Denylist/Nodes: `is_control_plane_node`. Plan/Classify: `plan_has_create` and
--   `plan_has_import`. A plan is a parsed JSON document (Base/Json); `json.loads` is a parameter of
--   `load_plan_json`. A rule appends to a list of violations in the code and returns its violations
--   here; a set lookup of a list or an object raises as in Python. Plan/Denylist/Protected and
--   Admission say without the rules which plans pass.
-- The modules under Drift (agent/validator.py, classifier.py, contract.py, models.py, secret_guard.py)
--   Drift/Validator: `validate` step by step, `ValidationError` as a value. Drift/Contract and
--   Drift/Models: the data and their validators. Drift/Secrets: `is_secret_name`. A confidence is a
--   number of thousandths, negative, or not a number. Drift/Validator/Rollback says what justifies
--   a rollback. Drift/Classifier: `classify`, where Python's `\w` is a parameter; its proposals are
--   the validator's input.
-- The modules under Approval (driftscribe_lib/approvals.py, the rollback approvals)
--   Approval/Doc: documents and phases. Approval/Store: `ApprovalStore`; each Firestore transaction
--   is one function on the documents, and HMAC-SHA-256, fresh ids, fresh tokens and the clock are
--   parameters. Approval/History: the transactions as a step relation, for any interleaving.
-- The modules under Rollback (workers/rollback/main.py)
--   Rollback/Execute, Deny, Reconcile, Propose: the four handlers, over the store and over what Cloud
--   Run answers (Rollback/CloudRun). Between two store calls of a handler the field `others` of
--   `Worker` says what other requests do to the documents. Rollback/Service: the requests as a step
--   relation. The worker and the store interact by the functions of Approval/Store only.
-- The modules under Signed (driftscribe_lib/approvals.py, iac_plan_metadata.py)
--   Signed/Metadata: `build_metadata`, with each regular expression as a function on characters.
--   Signed/Payload: `build_plan_approval_payload`. Signed/Window: `new_approval_window`. Signed/Store: `PlanApprovalStore`, the verification
--   of a token, the expiry and `verify_artifact_integrity`. SHA-256, HMAC, JSON and the reading of
--   dates are parameters (`Crypto`, `Calendar`).
-- The modules under Apply (workers/tofu_apply/main.py, tofu_runner.py, gcs_fetch.py)
--   Apply/Guard: `resource_set_guard` and `assert_fidelity`. Apply/Drift: `_diff_leaf_paths`, and
--   Apply/Drift/Classify: `classify_refresh_drift`. Apply/Sequence: `run_apply_sequence`; an answer of
--   OpenTofu may depend on the commands before it. Apply/Fetch: the artifacts. Apply/Gates: the checks of
--   /apply after the claim, which call the denylist and the classifiers of Plan and the payload of Signed.
--   Apply/Worker: /apply and /deny, and Apply/Propose: /propose, over the store of Signed; `others` says what other requests do to
--   the documents between two store calls. An audit keeps its phase and the identities.
-- The modules under Editor (driftscribe_lib/iac_editor_policy.py)
--   Editor/Path: the checks of a path and of a branch. Editor/Writes: `validate_file_writes`.
-- The modules under Autonomy (agent/autonomy.py, pause.py)
--   Autonomy/Dial: the autonomy dial and the filter of tools. Autonomy/Pause: the pause flag. A read
--   of the state store raises, finds nothing, or finds a document, given as a JSON value.
-- Base holds what the others share; Examples runs the models on small inputs.
--
-- No function needs fuel: every loop of the code runs over a list or a text, and is a structural
-- recursion here. Times are numbers of microseconds, and numbers do not overflow, as in Python.
--
-- Calls of Firestore are taken to succeed, save that an update of a missing document fails. Not modelled: the wording of most messages, logging,
-- authentication of callers, the request schemas of pydantic, the snapshot of environments shown on
-- the approval page (an argument of `propose`), the YAML loader, Python's limit on nesting, the coordinator, the other workers, the clients of Google Cloud, GitHub and
-- Cloudflare, the frontend and the deployment files: input and output for the most part.
pub mod Base
pub mod Plan
pub mod Drift
pub mod Approval
pub mod Rollback
pub mod Autonomy
pub mod Signed
pub mod Apply
pub mod Editor
pub mod Examples
