-- ===== src/Apply/Drift/Diff.antt =====
-- What the paths of `_diff_leaf_paths` (workers/tofu_apply/tofu_runner.py) contain.
use driftscribe.Base.{
  String, Bool, true, false, ◌&&◌, ◌||◌, Option, none, some, List, [], ◌∷◌, ◌++◌, ◌≡◌, refl, sym,
  subst, ◌∙◌, ap, ◌⊎◌, inl, inr, arith, eq_iff, Bool-cases,
}
use driftscribe.Base.Text.{◌=ₛ◌, contains}
use driftscribe.Base.Sorted.{insert, sorted_names}
use driftscribe.Base.Json.{Json, null, str, obj, Fields, end, field, is_null}
use driftscribe.Base.Value.{Python, find?, json_eq, fields_in, text_eq}
use driftscribe.Apply.Drift.{
  Leaves, join, changed_leaf, normalize_attr_path, diff_leaf_paths, diff_fields, added_keys,
  is_null_empty_normalization, sub_path,
}

-- A path is in both of two lists, or in one: membership in the joined list.
pub contains-append :
    (xs ys : List String) (p : String) → contains (xs ++ ys) p ≡ contains xs p || contains ys p
unfolding contains
contains-append [] ys p = refl
contains-append (x ∷ xs) ys p = ground (arith, contains-append xs ys p)

pub contains-insert :
    (n : String) (ns : List String) (p : String) → contains (insert n ns) p ≡ contains (n ∷ ns) p
unfolding contains insert
contains-insert n [] p = refl
contains-insert n (m ∷ ns) p = ground (arith, contains-insert n ns p, eq_iff n m)

-- Sorting without repetition keeps the members.
pub contains-sorted_names :
    (ns : List String) (p : String) → contains (sorted_names ns) p ≡ contains ns p
unfolding contains sorted_names
contains-sorted_names [] p = refl
contains-sorted_names (n ∷ ns) p =
    contains-insert n (sorted_names ns) p ∙ ground (arith, contains-sorted_names ns p)

text_eq_lem : (s : String) (j : Json) → text_eq s j ≡ true → j ≡ str s
text_eq_lem s (str t) e = ground (arith, eq_iff s t)
text_eq_lem s null e = absurd cc
text_eq_lem s _ e = absurd cc

eq_self : (s : String) → (s =ₛ s) ≡ true
eq_self s = ground (arith, eq_iff s s)

-- What equals a text at a key is that text.
at_key :
    (py : Python) (s : String) (o : Option Json)
    → elim o [ none ↦ false | some w ↦ json_eq py (str s) w ] ≡ true
    → o ≡ some (str s)
unfolding json_eq
at_key py s none e = absurd cc
at_key py s (some w) e = let same = text_eq_lem s w e in cc

text_of : (v : Json) (s : String) → some v ≡ some (str s) → v ≡ str s
text_of v s e = cc

first_key :
    (py : Python) (gs : Fields) (v : Json) (k key s : String)
    → v ≡ str s
    → k ≡ key
    → elim (find? gs k) [ none ↦ false | some w ↦ json_eq py v w ] ≡ true
    → find? gs key ≡ some (str s)
first_key py gs v k key s is_text same = rw same (
    subst
      (λ x.
        elim (find? gs key) [ none ↦ false | some w ↦ json_eq py x w ] ≡ true
        → find? gs key ≡ some (str s))
      (sym is_text) (at_key py s (find? gs key)))

and_both : (a b : Bool) → (a && b) ≡ true → (a ≡ true) × (b ≡ true)
and_both a b e = ground arith

-- A text of an object that equals another stands in the other too.
fields_in-find? :
    (py : Python) (fs gs : Fields) (key s : String)
    → fields_in py fs gs ≡ true
    → find? fs key ≡ some (str s)
    → find? gs key ≡ some (str s)
unfolding fields_in find?
fields_in-find? py end gs key s e = λ found. absurd cc
fields_in-find? py (field k v rest) gs key s e =
    let (here, later) = and_both _ (fields_in py rest gs) e in
    elim (Bool-cases (k =ₛ key)) [
      | inl same ↦
          rw same
            (λ found. first_key py gs v k key s (text_of v s found) ((eq_iff k key).0 same) here)
      | inr other ↦ rw other (fields_in-find? py rest gs key s later)
    ]

text_leaf :
    (py : Python) (s : String) (w : Json) (prefix : String)
    → (w ≡ str s)
      ⊎ (contains (diff_leaf_paths py (str s) w prefix).0 (normalize_attr_path py prefix) ≡ true)
unfolding diff_leaf_paths json_eq is_null_empty_normalization contains
text_leaf py s w prefix = elim (Bool-cases (text_eq s w)) [
  | inl same ↦ inl (text_eq_lem s w same)
  | inr other ↦ inr (
      rw other (elim (Bool-cases (is_null w)) [
        | inl y ↦ rw y (rw (eq_self (normalize_attr_path py prefix)))
        | inr n ↦ rw n (rw (eq_self (normalize_attr_path py prefix)))
      ]))
]

-- The path of a text that changed at a key, or vanished, is among the changed ones.
abbrev Noted : Python → Json → Option Json → String → String → Leaves → Type 0
Noted py v o s prefix leaves =
    (o ≡ some (str s)) ⊎ (contains leaves.0 (normalize_attr_path py prefix) ≡ true)

-- The leaves that one key gives.
abbrev key_leaves : Python → Json → Option Json → String → Leaves
key_leaves py v o prefix = elim o [
  | none ↦ changed_leaf py prefix
  | some w ↦ diff_leaf_paths py v w prefix
]

text_at :
    (py : Python) (s : String) (o : Option Json) (prefix : String)
    → Noted py (str s) o s prefix (key_leaves py (str s) o prefix)
unfolding contains
text_at py s none prefix = inr (rw (eq_self (normalize_attr_path py prefix)))
text_at py s (some w) prefix = elim (text_leaf py s w prefix) [
  | inl same ↦ inl (ap some same)
  | inr noted ↦ inr noted
]

joined_text :
    (py : Python) (v : Json) (first later : Leaves) (o : Option Json) (s prefix : String)
    → Noted py v o s prefix first
    → Noted py v o s prefix (join first later)
joined_text py v first later o s prefix (inl kept) = inl kept
joined_text py v first later o s prefix (inr noted) =
    inr (contains-append first.0 later.0 (normalize_attr_path py prefix) ∙ ground arith)

first_text :
    (py : Python) (gs : Fields) (v : Json) (k key s prefix : String) (later : Leaves)
    → v ≡ str s
    → k ≡ key
    → Noted py v
        (find? gs key)
        s
        (sub_path prefix key)
        (join (key_leaves py v (find? gs k) (sub_path prefix k)) later)
first_text py gs v k key s prefix later is_text same =
    subst
      (λ k'.
        Noted py v (find? gs key) s (sub_path prefix key)
          (join (key_leaves py v (find? gs k') (sub_path prefix k')) later))
      (sym same)
      (subst
        (λ v'.
          Noted py v (find? gs key) s (sub_path prefix key)
            (join (key_leaves py v' (find? gs key) (sub_path prefix key)) later))
        (sym is_text)
        (joined_text py v (key_leaves py (str s) (find? gs key) (sub_path prefix key)) later
          (find? gs key) s (sub_path prefix key)
          (text_at py s (find? gs key) (sub_path prefix key))))

later_text :
    (py : Python) (first later : Leaves) (o : Option Json) (s prefix : String)
    → Noted py (str s) o s prefix later
    → Noted py (str s) o s prefix (join first later)
later_text py first later o s prefix (inl kept) = inl kept
later_text py first later o s prefix (inr noted) =
    inr (contains-append first.0 later.0 (normalize_attr_path py prefix) ∙ ground arith)

diff_fields-text :
    (py : Python) (fs gs : Fields) (prefix key s : String)
    → find? fs key ≡ some (str s)
    → Noted py (str s) (find? gs key) s (sub_path prefix key) (diff_fields py fs gs prefix)
unfolding find? diff_fields
diff_fields-text py end gs prefix key s = λ found. absurd cc
diff_fields-text py (field k v rest) gs prefix key s = elim (Bool-cases (k =ₛ key)) [
  | inl same ↦ rw same (λ found.
      first_text py gs v k key s prefix (diff_fields py rest gs prefix) (text_of v s found)
        ((eq_iff k key).0 same))
  | inr other ↦ rw other (λ found.
      later_text py (key_leaves py v (find? gs k) (sub_path prefix k))
        (diff_fields py rest gs prefix) _ s _ (diff_fields-text py rest gs prefix key s found))
]

-- A text of an object stands at its key afterwards too, or the path of the key is among those changed.
pub diff_leaf_paths-text :
    (py : Python) (before after : Fields) (key s : String)
    → find? before key ≡ some (str s)
    → (find? after key ≡ some (str s))
      ⊎ (contains (diff_leaf_paths py (obj before) (obj after) "").0 (normalize_attr_path py key)
          ≡ true)
unfolding diff_leaf_paths json_eq is_null_empty_normalization
diff_leaf_paths-text py before after key s found =
    elim (Bool-cases (json_eq py (obj before) (obj after))) [
      | inl same ↦ inl (fields_in-find? py before after key s (and_both _ _ same).1 found)
      | inr other ↦ rw other (elim (diff_fields-text py before after "" key s found) [
        | inl kept ↦ inl kept
        | inr noted ↦ inr (
            contains-append _ (added_keys py before after "").0 (normalize_attr_path py key)
            ∙ ground arith)
      ])
    ]
