-- ===== src/Plan/Denylist/Pass.antt =====
-- `evaluate` returns no violation exactly for the plans that may be applied.
use mathlib.Core.Path.{subst}
use mathlib.Core.List.{append-nil, append_assoc}
use driftscribe.Base.{
  ◌≤◌, List, [], ◌∷◌, ◌++◌, Result, ok, raised, ◌>>=◌, >>=-eq-ok, ◌≡◌, refl, sym, ap, ◌∙◌, ◌⊎◌, ◌↔◌,
  arith, length,
}
use driftscribe.Base.Json.{Json, arr, obj, null, bool, num, str, Fields, elems, get}
use driftscribe.Plan.Denylist.Rules.{Violation}
use driftscribe.Plan.Denylist.Evaluate.{
  Entry, read_entry, Scan, importing_of, mutation_of, entry_violations, visit, scan, batch_rule,
  mixed_rule, finish, start, evaluate_changes, evaluate,
}
use driftscribe.Plan.Denylist.Accepted.{entry_violations-Silent}
use driftscribe.Plan.Denylist.Admission.{
  EntryAccepted, AllAccepted, imports, mutations, Alone, Admissible, Passes,
}
use driftscribe.Plan.Denylist.Screens.{Silent}

-- What the loop makes of entries that are all accepted.
abbrev grown : Scan → List Json → Scan
grown s js = record s {
  importing_addresses = s.importing_addresses ++ imports js;
  other_mutation_addresses = s.other_mutation_addresses ++ mutations js;
}

visit_accepted :
    (s : Scan) (e : Entry)
    → EntryAccepted e
    → visit s e
      ≡ ok (record s {
        importing_addresses = s.importing_addresses ++ importing_of e;
        other_mutation_addresses = s.other_mutation_addresses ++ mutation_of e;
      })
unfolding visit
visit_accepted s e h = rw ((entry_violations-Silent e).1 h) (rw append-nil)

scan-cons :
    (s : Scan) (j : Json) (js : List Json)
    → scan s (j ∷ js) ≡ (visit s (read_entry j) >>= λ t. scan t js)
unfolding scan
scan-cons s j js = refl

scan-nil : (s : Scan) → scan s [] ≡ ok s
unfolding scan
scan-nil s = refl

scan_accepted : (s : Scan) (js : List Json) → AllAccepted js → scan s js ≡ ok (grown s js)
scan_accepted s [] h = rw (scan-nil s) (simp append-nil)
scan_accepted s (j ∷ js) (h, hs) =
    scan-cons s j js
    ∙ (ap (λ r. r >>= λ t. scan t js) (visit_accepted s (read_entry j) h)
        ∙ (scan_accepted
              (record s {
                importing_addresses = s.importing_addresses ++ importing_of (read_entry j);
                other_mutation_addresses = s.other_mutation_addresses ++ mutation_of (read_entry j);
              })
              js hs
            ∙ simp append_assoc))

abbrev scan_of : Result Scan → Scan
scan_of (ok s) = s
scan_of (raised e) = start

abbrev violations_of : Result Scan → List Violation
violations_of (ok s) = s.violations
violations_of (raised e) = []

append-eq-nil : (xs ys : List Violation) → xs ++ ys ≡ [] → (xs ≡ []) × (ys ≡ [])
append-eq-nil [] ys h = (refl, h)
append-eq-nil (x ∷ xs) ys h = absurd cc

visit_sound :
    (s t : Scan) (e : Entry)
    → visit s e ≡ ok t
    → t.violations ≡ []
    → (s.violations ≡ []) × EntryAccepted e
unfolding visit
visit_sound s t e h n =
    let (found, added, same) = >>=-eq-ok (entry_violations e) _ h in
    let (before, silent) = append-eq-nil s.violations found (ap violations_of same ∙ n) in
    (before, (entry_violations-Silent e).0 (rw silent at added))

scan_sound :
    (s t : Scan) (js : List Json)
    → scan s js ≡ ok t
    → t.violations ≡ []
    → (s.violations ≡ []) × AllAccepted js
scan_sound s t [] h n = (ap violations_of (sym (scan-nil s) ∙ h) ∙ n, tt)
scan_sound s t (j ∷ js) h n =
    let (s', visited, rest) =
      >>=-eq-ok (visit s (read_entry j)) (λ s'. scan s' js) (sym (scan-cons s j js) ∙ h) in
    let (clean, later) = scan_sound s' t js rest n in
    let (before, here) = visit_sound s s' (read_entry j) visited clean in (before, (here, later))

batch_rule-Silent : (s : Scan) → Silent (batch_rule s) ↔ (length s.importing_addresses ≤ 1)
unfolding batch_rule
batch_rule-Silent s = ground arith

mixed_rule-Silent :
    (s : Scan)
    → Silent (mixed_rule s) ↔ ((s.importing_addresses ≡ []) ⊎ (s.other_mutation_addresses ≡ []))
unfolding mixed_rule
mixed_rule-Silent s = ground arith

-- Lists appended by calls in a row, one of them possibly raising.
tail-Silent :
    (vs : List Violation) (b m : Result (List Violation))
    → Silent (b >>= λ x. m >>= λ y. ok (vs ++ (x ++ y))) ↔ ((vs ≡ []) × Silent b × Silent m)
tail-Silent vs (raised e) m = ground arith
tail-Silent vs (ok x) (raised e) = ground arith
tail-Silent [] (ok []) (ok y) = ground arith
tail-Silent [] (ok (v ∷ x)) (ok y) = ground arith
tail-Silent (v ∷ vs) (ok x) (ok y) = ground arith

finish-Silent :
    (s : Scan)
    → Silent (finish s)
      ↔ ((s.violations ≡ []) × Alone s.importing_addresses s.other_mutation_addresses)
unfolding finish
finish-Silent s =
    let parts = tail-Silent s.violations (batch_rule s) (mixed_rule s) in
    let batch = batch_rule-Silent s in
    let mixed = mixed_rule-Silent s in
    (
      (λ e. let (v, b, m) = parts.0 e in (v, (batch.0 b, mixed.0 m))),
      λ (v, a). parts.1 (v, batch.1 a.0, mixed.1 a.1),
    )

scan-finish-Silent : (js : List Json) → Silent (scan start js >>= finish) ↔ Admissible js
scan-finish-Silent js = (
  (λ e.
      let (t, scanned, finished) = >>=-eq-ok (scan start js) finish e in
      let (clean, alone) = (finish-Silent t).0 finished in
      let (_, accepted) = scan_sound start t js scanned clean in
      let same = ap scan_of (sym scanned ∙ scan_accepted start js accepted) in
      record {
        accepted = accepted;
        alone = subst (λ u. Alone u.importing_addresses u.other_mutation_addresses) same alone;
      }),
  λ a.
      ap (λ r. r >>= finish) (scan_accepted start js a.accepted)
      ∙ (finish-Silent (grown start js)).1 (refl, a.alone),
)

evaluate_changes-Silent : (j : Json) → Silent (evaluate_changes j) ↔ Passes j
unfolding evaluate_changes
evaluate_changes-Silent (arr items) = scan-finish-Silent (elems items)
evaluate_changes-Silent null = ((λ e. cc), λ h. absurd h)
evaluate_changes-Silent (bool b) = ((λ e. cc), λ h. absurd h)
evaluate_changes-Silent (num s) = ((λ e. cc), λ h. absurd h)
evaluate_changes-Silent (str s) = ((λ e. cc), λ h. absurd h)
evaluate_changes-Silent (obj fs) = ((λ e. cc), λ h. absurd h)

-- `evaluate` returns no violation exactly for the plans that list their resource changes, each of
-- them accepted on its own, with at most one import and nothing else changed beside an import.
pub evaluate_iff : (plan : Fields) → (evaluate plan ≡ ok []) ↔ Passes (get plan "resource_changes")
unfolding evaluate
evaluate_iff plan = evaluate_changes-Silent (get plan "resource_changes")
