-- ===== src/Apply/Sequence/Clean.antt =====
-- When a failed `tofu apply` counts as clean (workers/tofu_apply/tofu_runner.py,
-- `_diagnose_post_failure_state`).
use driftscribe.Base.{
  true, false, Option, none, some, List, ◌∷◌, ◌≡◌, refl, sym, ◌∙◌, ◌↔◌, arith, eq_iff, Bool-cases,
  inl, inr,
}
use driftscribe.Base.Value.{Python, json_eq}
use driftscribe.Apply.Sequence.{
  Command, state_pull, apply_plan, diagnose, Exit, is_exit, Answer, World, Run, failed, step_error,
  state_suspect, after_apply, after_diagnosis, apply_saved_plan, attempt, run_tofu,
  state_serial_lineage, diagnose_post_failure_state, is_lock_contention, Reading, PostFailureState,
  post_failure, provably_clean, reading_of,
}

-- Both states were read in full, and their serials and lineages are equal.
abbrev pub Same : Python → Reading → Reading → Type 0
Same py (some serial, some lineage) (some serial', some lineage') =
    (json_eq py serial' serial ≡ true) × (lineage' ≡ lineage)
Same py _ _ = ⊥

abbrev pub FoundClean : Option Answer → Type 0
FoundClean none = ⊥
FoundClean (some a) = is_exit a.rc 0 ≡ true

-- The state before the apply and after it is the same, and the refresh that follows finds no drift.
abbrev pub Unchanged : World → List Command → Type 0
Unchanged w ran =
    Same w.py (reading_of w (w.tofu state_pull ran))
      (reading_of w (w.tofu state_pull (apply_plan ∷ state_pull ∷ ran)))
    × FoundClean (w.tofu diagnose (state_pull ∷ apply_plan ∷ state_pull ∷ ran))

provably_clean_iff :
    (py : Python) (before after : Reading) (rc : Exit)
    → (provably_clean py before after rc ≡ true) ↔ (Same py before after × (is_exit rc 0 ≡ true))
unfolding provably_clean
provably_clean_iff py (some s, some l) (some s', some l') rc = ground (arith, eq_iff l' l)
provably_clean_iff py (some s, some l) (some s', none) rc = ground arith
provably_clean_iff py (some s, some l) (none, l') rc = ground arith
provably_clean_iff py (some s, none) after rc = ground arith
provably_clean_iff py (none, l) after rc = ground arith

suspect_iff :
    (py : Python) (before after : Reading) (o : Option Answer)
    → ((post_failure py before after o).state_suspect ≡ false)
      ↔ (Same py before after × FoundClean o)
unfolding post_failure
suspect_iff py before after none = ground arith
suspect_iff py before after (some a) = ground (arith, provably_clean_iff py before after a.rc)

-- The failure says that the state is suspect, and carries the verdict of a diagnosis.
abbrev pub Suspected : Answer → Run (Unit {0}) → Type 0
Suspected a r =
    (d : PostFailureState) × (d.state_suspect ≡ true) × (r ≡ failed (state_suspect a.rc a.err d))

-- One of two failures, for a state that is unchanged and for any other.
abbrev pub Judged : Answer → Run (Unit {0}) → Type 0 → Type 0
Judged a r unchanged =
    ((r ≡ failed (step_error apply_plan a.rc a.err)) ↔ unchanged) × (Suspected a r ↔ (¬ unchanged))

after_diagnosis-Judged :
    (a : Answer) (d : PostFailureState) (ran : List Command) {unchanged : Type 0}
    → (d.state_suspect ≡ false) ↔ unchanged
    → Judged a (after_diagnosis a d ran).1 unchanged
unfolding after_diagnosis
after_diagnosis-Judged a d ran clean = elim (Bool-cases d.state_suspect) [
  | inl y ↦
      let suspected : Suspected a (after_diagnosis a d ran).1 = (d, y, simp y refl) in
      (
        ((λ e. absurd (let f = simp y at e in cc)), λ u. absurd (let n = clean.1 u in cc)),
        ((λ s u. let n = clean.1 u in cc), λ n. suspected),
      )
  | inr n ↦
      let plain : (after_diagnosis a d ran).1 ≡ failed (step_error apply_plan a.rc a.err) =
        simp n refl in
      (
        ((λ e. clean.0 n), λ u. plain),
        (
          (λ (d', _, e) u. absurd (let f = sym plain ∙ e in cc)),
          λ not_u. absurd (not_u (clean.0 n)),
        ),
      )
]

-- After an apply that failed, and not for the lock, the failure is the plain step error exactly if the
-- serial and the lineage of the state were read both before and after, are equal, and the refresh-only
-- plan of the diagnosis has exit code 0; exactly if that is not so, the failure says that the state is
-- suspect, with the verdict of a diagnosis.
pub clean_failure_iff :
    (w : World) (ran : List Command) (a : Answer)
    → w.tofu apply_plan (state_pull ∷ ran) ≡ some a
    → is_exit a.rc 0 ≡ false
    → is_lock_contention a.err ≡ false
    → Judged a (apply_saved_plan w ran).1 (Unchanged w ran)
unfolding apply_saved_plan state_serial_lineage run_tofu attempt after_apply
    diagnose_post_failure_state
clean_failure_iff w ran a e failing unlocked = rw e (
    rw failing (
      rw unlocked (
        let before = reading_of w (w.tofu state_pull ran) in
        let after = reading_of w (w.tofu state_pull (apply_plan ∷ state_pull ∷ ran)) in
        let found = w.tofu diagnose (state_pull ∷ apply_plan ∷ state_pull ∷ ran) in
        after_diagnosis-Judged a (post_failure w.py before after found)
          (diagnose ∷ state_pull ∷ apply_plan ∷ state_pull ∷ ran)
          (suspect_iff w.py before after found))))
