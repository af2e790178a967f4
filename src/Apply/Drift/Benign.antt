-- ===== src/Apply/Drift/Benign.antt =====
-- What a benign verdict of `classify_refresh_drift` (workers/tofu_apply/tofu_runner.py) means for the
-- texts in the drifted resources.
use Prim.Native.String
use driftscribe.Base.{
  String, Bool, true, false, Option, none, some, List, [], ◌∷◌, ◌++◌, Result, ok, raised, ◌≡◌, refl,
  sym, subst, ◌∙◌, ap, ◌⊎◌, inl, inr, eq_iff, Bool-cases, Any, All, is_empty, ◌>>=◌, >>=-eq-ok,
}
use driftscribe.Base.Text.{◌=ₛ◌, contains}
use driftscribe.Base.Sorted.{sorted_names}
use driftscribe.Base.Json.{Json, str, arr, obj, Items, Fields, elems, get, get_or}
use driftscribe.Base.Value.{Python, find?, is_truthy, shown_value}
use driftscribe.Apply.Drift.{
  DriftAllowlist, diff_leaf_paths, is_computed_only_path, normalize_attr_path,
}
use driftscribe.Apply.Drift.Diff.{contains-sorted_names, diff_leaf_paths-text}
use driftscribe.Apply.Drift.Classify.{
  Verdict, refused, Sorted, both, sort_paths, sort_leaves, drift_entry, drift_entries, drift_change,
  drift_update, has_markers, is_quiet, is_update, allowlist_of, and_then, no_actions, conclude,
  classify_refresh_drift,
}

-- A path that may not stand is material.
sort_paths-material :
    (stands : String → Bool) (label : String → String) (ps : List String) (p : String)
    → contains ps p ≡ true
    → (sort_paths stands label ps).material ≡ []
    → stands p ≡ true
unfolding contains sort_paths
sort_paths-material stands label [] p = λ e none_material. absurd cc
sort_paths-material stands label (q ∷ ps) p = elim (Bool-cases (stands q)) [
  | inl y ↦ rw y (elim (Bool-cases (p =ₛ q)) [
    | inl same ↦ λ e none_material. rw ((eq_iff p q).0 same) (y)
    | inr other ↦
        rw other (λ e none_material. sort_paths-material stands label ps p e none_material)
  ])
  | inr n ↦ rw n (λ e none_material. absurd cc)
]

append-empty : {A : Type 0} (xs ys : List A) → xs ++ ys ≡ [] → (xs ≡ []) × (ys ≡ [])
append-empty [] ys e = (refl, e)
append-empty (x ∷ xs) ys e = absurd cc

abbrev Passed : Python → Json → Type 0
Passed py e = (s : Sorted) × (drift_entry py e ≡ ok (some s)) × (s.material ≡ [])

and_then-Passed :
    (a : Option Sorted) (rest : Result (Option Sorted)) (found : Sorted)
    → and_then a rest ≡ ok (some found)
    → (x : Sorted) × (a ≡ some x) × (y : Sorted) × (rest ≡ ok (some y)) × (found ≡ both x y)
and_then-Passed none rest found e = absurd cc
and_then-Passed (some x) (ok (some y)) found e = (x, refl, y, refl, cc)
and_then-Passed (some x) (ok none) found e = absurd cc
and_then-Passed (some x) (raised fault) found e = absurd cc

-- Every entry has been gone through, if nothing material was found.
entries-Passed :
    (py : Python) (es : List Json) (found : Sorted)
    → drift_entries py es ≡ ok (some found)
    → found.material ≡ []
    → All (Passed py) es
unfolding drift_entries
entries-Passed py [] found e m = tt
entries-Passed py (x ∷ es) found e m =
    let (o, at, next) = >>=-eq-ok (drift_entry py x) (λ o. and_then o (drift_entries py es)) e in
    let (a, is_a, b, is_b, joined) = and_then-Passed o (drift_entries py es) found next in
    let (m_a, m_b) = append-empty a.material b.material (ap (λ f. f.material) (sym joined) ∙ m) in
    ((a, at ∙ ap ok is_a, m_a), entries-Passed py es b is_b m_b)

is_empty_lem : (ps : List String) → is_empty ps ≡ true → ps ≡ []
is_empty_lem [] e = refl
is_empty_lem (p ∷ ps) e = absurd cc

conclude-benign :
    (o : Option Sorted)
    → (conclude o).benign ≡ true
    → (found : Sorted) × (o ≡ some found) × (found.material ≡ [])
conclude-benign none = λ b. absurd cc
conclude-benign (some found) = elim (Bool-cases (is_empty found.material)) [
  | inl y ↦ λ b. (found, refl, is_empty_lem found.material y)
  | inr n ↦ rw n (λ b. absurd cc)
]

All-at : (P : Json → Type 0) (xs : List Json) (y : Json) → All P xs → Any (λ x. x ≡ y) xs → P y
All-at P [] y h at = absurd at
All-at P (x ∷ xs) y (p, h) (inl e) = subst P e p
All-at P (x ∷ xs) y (p, h) (inr at) = All-at P xs y h at

-- The paths of an update that passed.
drift_update-leaves :
    (py : Python) (addr : String) (change before after : Fields) (allowlist : DriftAllowlist)
    (s : Sorted)
    → get change "before" ≡ obj before
    → get change "after" ≡ obj after
    → drift_update py addr change (some allowlist) ≡ some s
    → s ≡ sort_leaves allowlist addr (diff_leaf_paths py (obj before) (obj after) "")
drift_update-leaves py addr change before after allowlist s eb ea =
    elim (Bool-cases (has_markers change)) [
      | inl y ↦ rw y (λ e. absurd cc)
      | inr n ↦ rw n (rw eb (rw ea (λ e. cc)))
    ]

drift_change-leaves :
    (py : Python) (addr : String) (type : Json) (change before after : Fields)
    (allowlist : DriftAllowlist) (s : Sorted)
    → is_quiet (get change "actions") ≡ false
    → allowlist_of type ≡ ok (some allowlist)
    → get change "before" ≡ obj before
    → get change "after" ≡ obj after
    → drift_change py addr type (obj change) ≡ ok (some s)
    → s ≡ sort_leaves allowlist addr (diff_leaf_paths py (obj before) (obj after) "")
unfolding drift_change
drift_change-leaves py addr type change before after allowlist s loud known eb ea =
    rw loud (elim (Bool-cases (is_update (get change "actions"))) [
      | inl y ↦ rw y (
          rw known
            (λ e. drift_update-leaves py addr change before after allowlist s eb ea (ok_lem _ _ e)))
      | inr n ↦ rw n (λ e. absurd cc)
    ])
  where
    ok_lem : {A : Type 0} (x y : A) → ok x ≡ ok y → x ≡ y
    ok_lem x y e = cc

-- A text that a passed update changes has a path that may stand.
leaves-text :
    (py : Python) (addr : String) (before after : Fields) (allowlist : DriftAllowlist)
    (key text : String)
    → (sort_leaves allowlist addr (diff_leaf_paths py (obj before) (obj after) "")).material ≡ []
    → find? before key ≡ some (str text)
    → (find? after key ≡ some (str text))
      ⊎ (is_computed_only_path (normalize_attr_path py key) allowlist ≡ true)
unfolding sort_leaves
leaves-text py addr before after allowlist key text none_material found =
    elim (diff_leaf_paths-text py before after key text found) [
      | inl kept ↦ inl kept
      | inr noted ↦ inr (
          let leaves = diff_leaf_paths py (obj before) (obj after) "" in
          let (m_n, m_c) = append-empty _ _ none_material in
          sort_paths-material (λ p. is_computed_only_path p allowlist)
            (λ p. String.◌++◌ addr (String.◌++◌ ":" p)) (sorted_names leaves.0)
            (normalize_attr_path py key)
            (contains-sorted_names leaves.0 (normalize_attr_path py key) ∙ noted) m_c)
    ]

verdict-Passed :
    (py : Python) (es : List Json) (v : Verdict)
    → drift_entries py es >>= (λ o. ok (conclude o)) ≡ ok v
    → v.benign ≡ true
    → All (Passed py) es
verdict-Passed py es v e benign =
    let (o, at, is_v) = >>=-eq-ok (drift_entries py es) (λ o. ok (conclude o)) e in
    let concluded : conclude o ≡ v = cc in
    let (found, is_found, none_material) =
      conclude-benign o (ap (λ w. w.benign) concluded ∙ benign) in
    entries-Passed py es found (at ∙ ap ok is_found) none_material

classify-Passed :
    (py : Python) (show : Fields) (es : Items) (v : Verdict)
    → get show "resource_drift" ≡ arr es
    → v.benign ≡ true
    → classify_refresh_drift py (obj show) ≡ ok v
    → All (Passed py) (elems es)
unfolding classify_refresh_drift
classify-Passed py show es v drift benign =
    elim (Bool-cases (is_truthy py (get show "output_changes"))) [
      | inl y ↦ rw y (λ e. absurd (refused_lem v benign e))
      | inr n ↦ rw n (elim (Bool-cases (no_actions (get show "resource_changes"))) [
        | inl y ↦ rw y (rw drift (λ e. verdict-Passed py (elems es) v e benign))
        | inr m ↦ rw m (λ e. absurd (refused_lem v benign e))
      ])
    ]
  where
    refused_lem : (v : Verdict) → v.benign ≡ true → ok refused ≡ ok v → ⊥
    refused_lem v b e =
        let same : refused ≡ v = cc in let no : false ≡ true = ap (λ w. w.benign) same ∙ b in cc

-- If the drift of a refresh is classified as benign, then in each entry of it that is no no-op and no
-- read, of a type with an allowlist, and with an object before and after, a text that stands at a key
-- before stands there after, unless the allowlist has the path of the key as one that is computed.
pub benign_keeps_texts :
    (py : Python) (show entry change before after : Fields) (es : Items) (v : Verdict)
    (allowlist : DriftAllowlist) (key text : String)
    → classify_refresh_drift py (obj show) ≡ ok v
    → v.benign ≡ true
    → get show "resource_drift" ≡ arr es
    → Any (λ e. e ≡ obj entry) (elems es)
    → get entry "change" ≡ obj change
    → is_quiet (get change "actions") ≡ false
    → allowlist_of (get entry "type") ≡ ok (some allowlist)
    → get change "before" ≡ obj before
    → get change "after" ≡ obj after
    → find? before key ≡ some (str text)
    → (find? after key ≡ some (str text))
      ⊎ (is_computed_only_path (normalize_attr_path py key) allowlist ≡ true)
unfolding drift_entry
benign_keeps_texts py show entry change before after es v allowlist key text e benign drift here
      changed loud known eb ea found =
    let (s, at, none_material) =
      All-at (Passed py) (elems es) (obj entry) (classify-Passed py show es v drift benign e)
        here in
    let addr = shown_value py (get_or entry "address" (str "<unknown>")) in
    let at' : drift_change py addr (get entry "type") (obj change) ≡ ok (some s) =
      subst (λ c. drift_change py addr (get entry "type") c ≡ ok (some s)) changed at in
    let leaves =
      drift_change-leaves py addr (get entry "type") change before after allowlist s loud known eb
        ea at' in
    leaves-text py addr before after allowlist key text
      (ap (λ x. x.material) (sym leaves) ∙ none_material) found
