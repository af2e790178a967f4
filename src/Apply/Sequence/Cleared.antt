-- ===== src/Apply/Sequence/Cleared.antt =====
-- When `run_apply_sequence` (workers/tofu_apply/tofu_runner.py) runs `tofu apply`, and how often.
use driftscribe.Base.{
  suc, ◌<◌, String, Option, none, some, List, [], ◌∷◌, ◌≡◌, refl, ◌∙◌, ap, ◌⊎◌, inl, inr, arith,
  Bool-cases,
}
use driftscribe.Apply.Sequence.{
  Command, init, state_pull, apply_plan, Exit, is_exit, Answer, World, Run, went, failed, Step,
  initialize, freshness, after_apply, after_diagnosis, apply_saved_plan, run_apply_sequence,
  attempt, run_tofu, state_serial_lineage, diagnose_post_failure_state, continue, answered,
  is_lock_contention, Reading, PostFailureState, ApplyOutcome, ◌>>=◌, return,
}
use driftscribe.Apply.Sequence.Gate.{
  applies, Gated, Initialized, Fresh, initialize-Gated, initialize-ran, freshness-Gated,
  later-Gated, map-Gated,
}

-- `init` succeeded, and then the refresh found no drift, or only drift that was explained as benign.
abbrev pub Cleared : World → Type 0
Cleared w = Initialized w × Fresh w (init ∷ [])

-- One apply, and that one cleared; or none.
abbrev Late : {A : Type 0} → Type 0 → List Command × Run A → Type 0
Late P (ran, result) = (applies ran ≡ 0) ⊎ ((applies ran ≡ 1) × P)

after_diagnosis-applies :
    (a : Answer) (d : PostFailureState) (ran : List Command)
    → applies (after_diagnosis a d ran).0 ≡ applies ran
unfolding after_diagnosis
after_diagnosis-applies a d ran = elim (Bool-cases d.state_suspect) [
  | inl y ↦ rw y (refl)
  | inr n ↦ rw n (refl)
]

after_apply-applies :
    (w : World) (before : Reading) (a : Answer) (ran : List Command)
    → applies (after_apply w before a ran).0 ≡ applies ran
unfolding after_apply diagnose_post_failure_state state_serial_lineage attempt applies
after_apply-applies w before a ran = elim (Bool-cases (is_exit a.rc 0)) [
  | inl y ↦ rw y (refl)
  | inr n ↦ rw n (elim (Bool-cases (is_lock_contention a.err)) [
    | inl lock ↦ rw lock (refl)
    | inr other ↦ rw other (after_diagnosis-applies a _ _)
  ])
]

answer-applies :
    (w : World) (before : Reading) (o : Option Answer) (ran : List Command)
    → applies (continue (after_apply w before) (answered o (apply_plan ∷ ran))).0
      ≡ suc (applies ran)
unfolding applies
answer-applies w before none ran = refl
answer-applies w before (some a) ran = after_apply-applies w before a (apply_plan ∷ ran)

apply_saved_plan-applies :
    (w : World) (ran : List Command) → applies (apply_saved_plan w ran).0 ≡ suc (applies ran)
unfolding apply_saved_plan state_serial_lineage run_tofu attempt applies
apply_saved_plan-applies w ran =
    answer-applies w _ (w.tofu apply_plan (state_pull ∷ ran)) (state_pull ∷ ran)

-- The rest of the sequence, once the plan has been applied.
closing-applies :
    {A B : Type 0} (w : World) (m : List Command × Run A) (f : A → Reading → B)
    → applies (continue (λ x. state_serial_lineage w >>= λ r. return (f x r)) m).0 ≡ applies m.0
unfolding state_serial_lineage attempt applies
closing-applies w (ran, went x) f = refl
closing-applies w (ran, failed e) f = refl

Gated-Late :
    {A B : Type 0} (P : Type 0) (m : List Command × Run A) (f : A → Step B)
    → Gated (λ _. P) [] m
    → ((x : A) (ran : List Command) → applies (f x ran).0 ≡ suc (applies ran))
    → Late P (continue f m)
unfolding applies
Gated-Late P (ran, went x) f (e, p) once = inr (once x ran ∙ ap suc e, p)
Gated-Late P (ran, failed e) f none_ran once = inl none_ran

Late-Once :
    {A : Type 0} (P : Type 0) (m : List Command × Run A)
    → Late P m
    → 0 < applies m.0
    → (applies m.0 ≡ 1) × P
Late-Once P m (inl e) h = absurd (omega (arith, e))
Late-Once P m (inr p) h = p

-- What follows the freshness gate.
abbrev finish : World → Exit × List String → Step ApplyOutcome
finish w (exit, paths) = apply_saved_plan w >>= λ _.
    (state_serial_lineage w >>= λ r. return (record {
      freshness_exit = exit;
      state_serial = r.0;
      state_lineage = r.1;
      benign_drift_paths = paths;
    }))

finish-applies :
    (w : World) (x : Exit × List String) (ran : List Command)
    → applies (finish w x ran).0 ≡ suc (applies ran)
finish-applies w x ran =
    closing-applies w (apply_saved_plan w ran) _ ∙ apply_saved_plan-applies w ran

ready-Late :
    (w : World) (m : List Command × Run (Unit {0}))
    → Gated (λ _. Initialized w) [] m
    → m.0 ≡ init ∷ []
    → Late (Cleared w) (continue (λ _. freshness w >>= finish w) m)
unfolding applies
ready-Late w (ran, failed e) none_ran at = inl none_ran
ready-Late w (ran, went x) (e, first) at =
    Gated-Late (Cleared w) (freshness w ran) (finish w)
      (later-Gated (λ _. Cleared w) [] ran e (freshness w ran)
        (map-Gated (λ _. Fresh w ran) (λ _. Cleared w) ran (freshness w ran)
          (λ x p. (first, Fresh-at p)) (freshness-Gated w ran)))
      (finish-applies w)
  where
    Fresh-at : Fresh w ran → Fresh w (init ∷ [])
    Fresh-at p = rw (← at) (p)

-- `tofu apply` is run at most once, and if it is run, then `tofu init` had exit code 0 and the refresh
-- after it had exit code 0, or exit code 2 with a `tofu show` after it that had exit code 0 and whose
-- output parses and is classified as benign for at least one path.
pub run_apply_sequence-Cleared :
    (w : World)
    → 0 < applies (run_apply_sequence w []).0
    → (applies (run_apply_sequence w []).0 ≡ 1) × Cleared w
unfolding run_apply_sequence
run_apply_sequence-Cleared w =
    Late-Once (Cleared w) (run_apply_sequence w [])
      (ready-Late w (initialize w []) (initialize-Gated w) (initialize-ran w))
