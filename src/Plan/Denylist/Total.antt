-- ===== src/Plan/Denylist/Total.antt =====
-- driftscribe_lib/iac_plan_denylist.py: when `evaluate` returns, and raises nothing.
use driftscribe.Base.{
  String, true, not, ◌||◌, List, [], ◌∷◌, ◌++◌, ◌≡◌, refl, arith, All, ok, ap, ◌∙◌, Result, ◌>>=◌,
  ◌>>◌, is_empty, length, ltb,
}
use driftscribe.Base.Json.{Json, null, str, arr, Fields, elems, get, dict_of, is_null, is_str}
use driftscribe.Plan.Denylist.Names.{Actions, all_known_tuples}
use driftscribe.Plan.Denylist.Rules.{Violation}
use driftscribe.Plan.Denylist.Checks.{address_of, is_mutation, identity_dicts, in_tuples}
use driftscribe.Plan.Denylist.Evaluate.{
  Entry, malformed, row, read_entry, row_violations, entry_violations, Scan, visit, scan,
  importing_of, mutation_of, join_addresses, batch_rule, mixed_rule, finish, start,
  evaluate_changes, evaluate,
}
use driftscribe.Plan.Denylist.Returns.{Returns, identity_rules-Returns, if-Returns, HashableNames}

-- What it takes of an entry for no rule to raise: names with a hash, and an address that is a text.
abbrev pub Readable : Entry → Type 0
Readable (malformed _) = Unit
Readable (row rc rtype change actions) =
    HashableNames (dict_of (get change "before")) (dict_of (get change "after"))
    × (is_str (address_of rc) ≡ true)

>>=-Returns {ℓ κ} :
    {A : Type ℓ} {B : Type κ} (m : Result A) (f : A → Result B)
    → Returns m
    → ((a : A) → Returns (f a))
    → Returns (m >>= f)
>>=-Returns m f (a, e) h = rw e (h a)

then-Returns {ℓ} :
    {B : Type ℓ} (m : Result (Unit {0})) (k : Result B) → m ≡ ok tt → Returns k → Returns (m >> k)
then-Returns m k e h = rw e h

>>=-ok {ℓ κ} :
    {A : Type ℓ} {B : Type κ} (m : Result A) (f : A → Result B) {a : A} → m ≡ ok a → (m >>= f) ≡ f a
>>=-ok m f e = rw e refl

row_violations-Returns :
    (rc : Fields) (rtype : String) (change : Fields) (actions : Actions)
    → HashableNames (dict_of (get change "before")) (dict_of (get change "after"))
    → Returns (row_violations rc rtype change actions)
unfolding row_violations identity_dicts
row_violations-Returns rc rtype change actions h =
    if-Returns (in_tuples actions all_known_tuples)
      (>>=-Returns _ _
        (if-Returns (is_mutation actions || not (is_null (get change "importing")))
          (identity_rules-Returns rc rtype _ _ h) ([], refl))
        (λ found. (_, refl)))
      (_, refl)

entry_violations-Returns : (e : Entry) → Readable e → Returns (entry_violations e)
unfolding entry_violations
entry_violations-Returns (malformed subject) h = (_, refl)
entry_violations-Returns (row rc rtype change actions) h =
    row_violations-Returns rc rtype change actions h.0

-- The addresses that the loop has collected are texts.
abbrev AllTexts : List Json → Type 0
AllTexts = All (λ j. is_str j ≡ true)

All-append : (xs ys : List Json) → AllTexts xs → AllTexts ys → AllTexts (xs ++ ys)
All-append [] ys h k = k
All-append (x ∷ xs) ys h k = (h.0, All-append xs ys h.1 k)

importing_of-AllTexts : (e : Entry) → Readable e → AllTexts (importing_of e)
unfolding importing_of
importing_of-AllTexts (malformed subject) h = tt
importing_of-AllTexts (row rc rtype change actions) h = ground arith

mutation_of-AllTexts : (e : Entry) → Readable e → AllTexts (mutation_of e)
unfolding mutation_of
mutation_of-AllTexts (malformed subject) h = tt
mutation_of-AllTexts (row rc rtype change actions) h = ground arith

abbrev Collected : Scan → Type 0
Collected s = AllTexts s.importing_addresses × AllTexts s.other_mutation_addresses

visit-Returns :
    (s : Scan) (e : Entry)
    → Readable e
    → Collected s
    → (t : Scan) × (visit s e ≡ ok t) × Collected t
unfolding visit
visit-Returns s e h c =
    let (found, same) = entry_violations-Returns e h in
    (
      _,
      >>=-ok (entry_violations e) _ same,
      (
        All-append s.importing_addresses _ c.0 (importing_of-AllTexts e h),
        All-append s.other_mutation_addresses _ c.1 (mutation_of-AllTexts e h),
      ),
    )

scan-Returns :
    (s : Scan) (js : List Json)
    → All (λ j. Readable (read_entry j)) js
    → Collected s
    → (t : Scan) × (scan s js ≡ ok t) × Collected t
unfolding scan
scan-Returns s [] h c = (s, refl, c)
scan-Returns s (j ∷ js) (h, hs) c =
    let (s', visited, c') = visit-Returns s (read_entry j) h c in
    let (t, scanned, c'') = scan-Returns s' js hs c' in
    (t, ap (λ r. r >>= λ u. scan u js) visited ∙ scanned, c'')

join_addresses-Returns : (js : List Json) → AllTexts js → join_addresses js ≡ ok tt
unfolding join_addresses
join_addresses-Returns [] h = refl
join_addresses-Returns (str a ∷ js) h = join_addresses-Returns js h.1
join_addresses-Returns (j ∷ js) h = absurd (let f = h.0 in cc)

batch_rule-Returns : (s : Scan) → Collected s → Returns (batch_rule s)
unfolding batch_rule
batch_rule-Returns s c =
    if-Returns (ltb 1 (length s.importing_addresses))
      (then-Returns (join_addresses s.importing_addresses) _
        (join_addresses-Returns s.importing_addresses c.0) (_, refl))
      ([], refl)

mixed_rule-Returns : (s : Scan) → Collected s → Returns (mixed_rule s)
unfolding mixed_rule
mixed_rule-Returns s c =
    if-Returns (is_empty s.importing_addresses || is_empty s.other_mutation_addresses) ([], refl)
      (then-Returns (join_addresses s.importing_addresses) _
        (join_addresses-Returns s.importing_addresses c.0)
        (then-Returns (join_addresses s.other_mutation_addresses) _
          (join_addresses-Returns s.other_mutation_addresses c.1) (_, refl)))

finish-Returns : (s : Scan) → Collected s → Returns (finish s)
unfolding finish
finish-Returns s c =
    >>=-Returns (batch_rule s) _ (batch_rule-Returns s c)
      (λ batch. >>=-Returns (mixed_rule s) _ (mixed_rule-Returns s c) (λ mixed. (_, refl)))

abbrev pub AllReadable : Json → Type 0
AllReadable (arr items) = All (λ j. Readable (read_entry j)) (elems items)
AllReadable _ = Unit

evaluate_changes-Returns : (j : Json) → AllReadable j → Returns (evaluate_changes j)
unfolding evaluate_changes
evaluate_changes-Returns (arr items) h =
    let (s, scanned, c) = scan-Returns start (elems items) h (tt, tt) in
    let (vs, finished) = finish-Returns s c in (vs, ap (λ r. r >>= finish) scanned ∙ finished)
evaluate_changes-Returns null h = (_, refl)
evaluate_changes-Returns _ h = (_, refl)

-- `evaluate` returns a list of violations, and raises nothing, for every plan whose well-formed
-- entries have a text for an address and, on both sides of the change, no list and no object
-- under `name` and `secret_id`. No other part of the document matters.
pub evaluate-returns :
    (plan : Fields)
    → AllReadable (get plan "resource_changes")
    → (vs : List Violation) × (evaluate plan ≡ ok vs)
unfolding evaluate
evaluate-returns plan h = evaluate_changes-Returns (get plan "resource_changes") h
