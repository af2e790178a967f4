-- ===== src/Apply/Sequence/Gate.antt =====
-- What must have been answered before `run_apply_sequence` (workers/tofu_apply/tofu_runner.py) runs
-- `tofu apply`.
use driftscribe.Base.{
  ℕ, suc, String, true, false, Option, none, some, List, [], ◌∷◌, Result, ok, raised, ◌≡◌, refl,
  ◌∙◌, ◌⊎◌, inl, inr, Bool-cases, is_empty,
}
use driftscribe.Base.Json.{Json}
use driftscribe.Apply.Drift.Classify.{Verdict, classify_refresh_drift}
use driftscribe.Apply.Sequence.{
  Command, init, refresh_only, show_refresh, apply_plan, is_exit, Answer, World, Exit, ◌>>=◌, Run,
  went, failed, Step, initialize, freshness, after_init, after_refresh, tolerated, attempt,
  run_tofu, refresh_drift_verdict, verdict_of, classified, verdict_or_refused, continue, answered,
  return,
}

-- How often `tofu apply` has been run.
unfoldable pub applies : List Command → ℕ
applies [] = 0
applies (apply_plan ∷ cs) = suc (applies cs)
applies (c ∷ cs) = applies cs

-- The drift that the refresh found is shown, and classified as benign for some path at least.
abbrev pub Explained : World → List Command → Type 0
Explained w ran =
    (a : Answer) × (w.tofu show_refresh ran ≡ some a)
    × (is_exit a.rc 0 ≡ true)
    × (show : Json) × (w.loads a.out ≡ some show)
    × (v : Verdict) × (classify_refresh_drift w.py show ≡ ok v)
    × (v.benign ≡ true)
    × (is_empty v.paths ≡ false)

-- The refresh finds nothing, or drift that is explained.
abbrev pub Fresh : World → List Command → Type 0
Fresh w ran =
    (a : Answer) × (w.tofu refresh_only ran ≡ some a)
    × ((is_exit a.rc 0 ≡ true) ⊎ ((is_exit a.rc 2 ≡ true) × Explained w (refresh_only ∷ ran)))

abbrev pub Initialized : World → Type 0
Initialized w = (a : Answer) × (w.tofu init [] ≡ some a) × (is_exit a.rc 0 ≡ true)

-- A step that runs no `apply`, and whose value has `P` if it goes on.
abbrev pub Gated : {A : Type 0} → (A → Type 0) → List Command → List Command × Run A → Type 0
Gated P before (ran, went x) = (applies ran ≡ applies before) × P x
Gated P before (ran, failed e) = applies ran ≡ applies before

init-Gated :
    (w : World) (o : Option Answer)
    → w.tofu init [] ≡ o
    → Gated (λ _. Initialized w) [] (continue after_init (answered o (init ∷ [])))
unfolding after_init applies
init-Gated w none e = refl
init-Gated w (some a) e = elim (Bool-cases (is_exit a.rc 0)) [
  | inl y ↦ rw y (refl, (a, e, y))
  | inr n ↦ rw n (refl)
]

after_init-ran : (o : Option Answer) → (continue after_init (answered o (init ∷ []))).0 ≡ init ∷ []
unfolding after_init
after_init-ran none = refl
after_init-ran (some a) = elim (Bool-cases (is_exit a.rc 0)) [
  | inl y ↦ rw y (refl)
  | inr n ↦ rw n (refl)
]

pub initialize-ran : (w : World) → (initialize w []).0 ≡ init ∷ []
unfolding initialize run_tofu attempt
initialize-ran w = after_init-ran (w.tofu init [])

pub initialize-Gated : (w : World) → Gated (λ _. Initialized w) [] (initialize w [])
unfolding initialize run_tofu attempt
initialize-Gated w = init-Gated w (w.tofu init []) refl

-- A verdict that is benign has been reached by the classifier.
returned_lem :
    (r : Result Verdict) → (verdict_or_refused r).benign ≡ true → r ≡ ok (verdict_or_refused r)
returned_lem (ok v) b = refl
returned_lem (raised e) b = absurd cc

-- The verdict on the drift, once `show` has answered.
abbrev Shown : World → Answer → Verdict → Type 0
Shown w a v =
    (show : Json) × (w.loads a.out ≡ some show) × (classify_refresh_drift w.py show ≡ ok v)

classified-Shown :
    (w : World) (a : Answer) (o : Option Json)
    → w.loads a.out ≡ o
    → (classified w o).benign ≡ true
    → Shown w a (classified w o)
classified-Shown w a none e b = absurd cc
classified-Shown w a (some show) e b = (show, e, returned_lem _ b)

verdict_of-Shown :
    (w : World) (a : Answer)
    → (verdict_of w a).benign ≡ true
    → (is_exit a.rc 0 ≡ true) × Shown w a (verdict_of w a)
unfolding verdict_of
verdict_of-Shown w a = elim (Bool-cases (is_exit a.rc 0)) [
  | inl y ↦ rw y (λ b. (refl, classified-Shown w a (w.loads a.out) refl b))
  | inr n ↦ rw n (λ b. absurd cc)
]

tolerated-Gated :
    (v : Verdict) (before : List Command)
    → Gated (λ _. (v.benign ≡ true) × (is_empty v.paths ≡ false)) before (tolerated v before)
unfolding tolerated
tolerated-Gated v before = elim (Bool-cases v.benign) [
  | inl y ↦ rw y (elim (Bool-cases (is_empty v.paths)) [
    | inl empty ↦ rw empty (refl)
    | inr some_path ↦ rw some_path (refl, (refl, refl))
  ])
  | inr n ↦ rw n (refl)
]

pub later-Gated :
    {B : Type 0} (Q : B → Type 0) (before ran : List Command)
    → applies ran ≡ applies before
    → (m : List Command × Run B) → Gated Q ran m
    → Gated Q before m
later-Gated Q before ran e (ran', went y) (e', q) = (e' ∙ e, q)
later-Gated Q before ran e (ran', failed y) e' = e' ∙ e

pub continue-Gated :
    {A B : Type 0} (P : A → Type 0) (Q : B → Type 0) (before : List Command)
    (m : List Command × Run A) (f : A → Step B)
    → Gated P before m
    → ((x : A) (ran : List Command) → P x → Gated Q ran (f x ran))
    → Gated Q before (continue f m)
continue-Gated P Q before (ran, went x) f (e, p) next =
    later-Gated Q before ran e (f x ran) (next x ran p)
continue-Gated P Q before (ran, failed y) f e next = e

-- A benign verdict on the drift comes from a `show` that answered.
abbrev ShownBy : World → List Command → Verdict → Type 0
ShownBy w ran v =
    v.benign ≡ true
    → (a : Answer) × (w.tofu show_refresh ran ≡ some a) × (is_exit a.rc 0 ≡ true) × Shown w a v

show-Gated :
    (w : World) (ran : List Command) (o : Option Answer)
    → w.tofu show_refresh ran ≡ o
    → Gated
        (ShownBy w ran)
        ran
        (continue (λ a. return (verdict_of w a)) (answered o (show_refresh ∷ ran)))
unfolding applies
show-Gated w ran none e = refl
show-Gated w ran (some a) e =
    (refl, λ b. let (zero_exit, shown) = verdict_of-Shown w a b in (a, e, zero_exit, shown))

Explained-Gated :
    (w : World) (rc : Exit) (v : Verdict) (ran later : List Command)
    → ShownBy w ran v
    → Gated {A = Exit × List String}
        (λ _. Explained w ran)
        later
        (continue (λ paths. return (rc, paths)) (tolerated v later))
Explained-Gated w rc v ran later shown =
    continue-Gated (λ _. (v.benign ≡ true) × (is_empty v.paths ≡ false)) (λ _. Explained w ran)
      later (tolerated v later) (λ paths. return (rc, paths)) (tolerated-Gated v later)
      (λ paths ran' p.
        let (answer, asked, zero_exit, (show, loaded, found)) = shown p.0 in
        (refl, (answer, asked, zero_exit, show, loaded, v, found, p.0, p.1)))

tolerance-Gated :
    (w : World) (rc : Exit) (ran : List Command)
    → Gated {A = Exit × List String}
        (λ _. Explained w ran)
        ran
        (continue (λ v. tolerated v >>= λ paths. return (rc, paths)) (refresh_drift_verdict w ran))
unfolding refresh_drift_verdict run_tofu attempt
tolerance-Gated w rc ran =
    continue-Gated (ShownBy w ran) (λ _. Explained w ran) ran
      (continue (λ a. return (verdict_of w a))
        (answered (w.tofu show_refresh ran) (show_refresh ∷ ran)))
      (λ v. tolerated v >>= λ paths. return (rc, paths))
      (show-Gated w ran (w.tofu show_refresh ran) refl)
      (λ v later. Explained-Gated w rc v ran later)

pub map-Gated :
    {A : Type 0} (P Q : A → Type 0) (before : List Command) (m : List Command × Run A)
    → ((x : A) → P x → Q x)
    → Gated P before m
    → Gated Q before m
map-Gated P Q before (ran, went x) f (e, p) = (e, f x p)
map-Gated P Q before (ran, failed e) f g = g

abbrev Passes : World → Answer → List Command → Type 0
Passes w a ran = (is_exit a.rc 0 ≡ true) ⊎ ((is_exit a.rc 2 ≡ true) × Explained w ran)

after_refresh-Gated :
    (w : World) (a : Answer) (ran : List Command)
    → Gated (λ _. Passes w a ran) ran (after_refresh w a ran)
unfolding after_refresh
after_refresh-Gated w a ran = elim (Bool-cases (is_exit a.rc 2)) [
  | inl two ↦ rw two (
      map-Gated (λ _. Explained w ran) _ ran
        (continue (λ v. tolerated v >>= λ paths. return (a.rc, paths))
          (refresh_drift_verdict w ran))
        (λ x p. inr (refl, p)) (tolerance-Gated w a.rc ran))
  | inr n ↦
      rw n
        (elim (Bool-cases (is_exit a.rc 0)) [ inl y ↦ rw y (refl, inl refl) | inr m ↦ rw m (refl) ])
]

refresh-Gated :
    (w : World) (ran : List Command) (o : Option Answer)
    → w.tofu refresh_only ran ≡ o
    → Gated (λ _. Fresh w ran) ran (continue (after_refresh w) (answered o (refresh_only ∷ ran)))
unfolding applies
refresh-Gated w ran none e = refl
refresh-Gated w ran (some a) e =
    later-Gated (λ _. Fresh w ran) ran (refresh_only ∷ ran) refl
      (after_refresh w a (refresh_only ∷ ran))
      (map-Gated (λ _. Passes w a (refresh_only ∷ ran)) (λ _. Fresh w ran) (refresh_only ∷ ran)
        (after_refresh w a (refresh_only ∷ ran)) (λ x p. (a, e, p))
        (after_refresh-Gated w a (refresh_only ∷ ran)))

pub freshness-Gated :
    (w : World) (ran : List Command) → Gated (λ _. Fresh w ran) ran (freshness w ran)
unfolding freshness run_tofu attempt
freshness-Gated w ran = refresh-Gated w ran (w.tofu refresh_only ran) refl
