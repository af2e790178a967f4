-- ===== src/Signed/Payload/Rebuilt.antt =====
-- What a payload of `build_plan_approval_payload` (driftscribe_lib/approvals.py) is good for.
use driftscribe.Base.{
  ℕ, ◌+◌, ◌≤◌, ◌<◌, String, Option, none, some, Result, ok, raised, type_error, value_error, ◌>>=◌,
  >>=-eq-ok, >>-eq-ok, require-eq-ok, ◌≡◌, refl, sym, subst, ◌∙◌, ap, leb→le, ltb→lt,
}
use driftscribe.Base.Sorted.{sorted_names, insert, precedes}
use driftscribe.Base.Json.{Json, null, str, obj, Fields, get}
use driftscribe.Signed.Metadata.{MetadataInput, check_fields, metadata_of, build_metadata}
use driftscribe.Signed.Payload.{
  Calendar, Binding, keys, same_texts, inputs_of, fold_type_error, check_span, check_window,
  check_metadata, check_locator, check_binding, payload_of, build_from, build_plan_approval_payload,
  parse_rfc3339_utc,
}

metadata_of-checks : (i : MetadataInput) → check_metadata (metadata_of i) ≡ ok tt
unfolding check_metadata keys same_texts sorted_names get insert precedes
metadata_of-checks i = refl

inputs_of-metadata_of : (i : MetadataInput) → inputs_of (metadata_of i) ≡ i
unfolding get
inputs_of-metadata_of i = refl

fold_type_error-eq-ok : (r : Result Fields) (c : Fields) → fold_type_error r ≡ ok c → r ≡ ok c
unfolding fold_type_error
fold_type_error-eq-ok (ok d) c e = e
fold_type_error-eq-ok (raised type_error) c e = absurd cc
fold_type_error-eq-ok (raised (value_error m)) c e = absurd cc

build_metadata-eq-ok :
    (i : MetadataInput) (c : Fields)
    → build_metadata i ≡ ok c
    → (check_fields i ≡ ok tt) × (c ≡ metadata_of i)
unfolding build_metadata
build_metadata-eq-ok i c e =
    let (t, checked, same) = >>=-eq-ok (check_fields i) (λ _. ok (metadata_of i)) e in (checked, cc)

ok_lem : (p q : Fields) → ok q ≡ ok p → p ≡ q
ok_lem p q e = cc

-- The parts of a run that built a payload.
abbrev pub Built : Calendar → Binding → Fields → MetadataInput → Type 0
Built cal b p i =
    (check_fields i ≡ ok tt)
    × (check_binding cal (metadata_of i) b ≡ ok tt)
    × (p ≡ payload_of (metadata_of i) b)

pub build_from-Built :
    (cal : Calendar) (b : Binding) (md p : Fields)
    → build_from cal b md ≡ ok p
    → Built cal b p (inputs_of md)
build_from-Built cal b md p e =
    let (_, _, e1) =
      >>=-eq-ok (check_metadata md)
        (λ _. fold_type_error (build_metadata (inputs_of md)) >>= λ canonical.
          check_binding cal canonical b >>= λ _. ok (payload_of canonical b))
        e in
    let (c, folded, e2) =
      >>=-eq-ok (fold_type_error (build_metadata (inputs_of md)))
        (λ canonical. check_binding cal canonical b >>= λ _. ok (payload_of canonical b)) e1 in
    let (_, bound, e3) = >>=-eq-ok (check_binding cal c b) (λ _. ok (payload_of c b)) e2 in
    let (checked, same) =
      build_metadata-eq-ok (inputs_of md) c
        (fold_type_error-eq-ok (build_metadata (inputs_of md)) c folded) in
    (
      checked,
      subst (λ x. check_binding cal x b ≡ ok tt) same bound,
      ok_lem p (payload_of c b) e3 ∙ ap (λ x. payload_of x b) same,
    )

built-again :
    (cal : Calendar) (b : Binding) (i : MetadataInput)
    → check_fields i ≡ ok tt
    → check_binding cal (metadata_of i) b ≡ ok tt
    → build_from cal b (metadata_of i) ≡ ok (payload_of (metadata_of i) b)
unfolding build_metadata fold_type_error get
built-again cal b i checked bound = rw (metadata_of-checks i) (rw checked (rw bound))

-- The payload that is built holds metadata that were checked, and building a payload from those with
-- the same locator, approver and window gives the same payload again.
pub build_plan_approval_payload-again :
    (cal : Calendar) (md : Json) (b : Binding) (p : Fields)
    → build_plan_approval_payload cal md b ≡ ok p
    → (i : MetadataInput) × (check_fields i ≡ ok tt)
      × (get p "metadata" ≡ obj (metadata_of i))
      × (build_plan_approval_payload cal (get p "metadata") b ≡ ok p)
unfolding build_plan_approval_payload get
build_plan_approval_payload-again cal (obj md) b p e =
    let (checked, bound, same) = build_from-Built cal b md p e in
    (
      inputs_of md,
      checked,
      ap (λ x. get x "metadata") same,
      subst (λ x. build_plan_approval_payload cal (get x "metadata") b ≡ ok x) (sym same)
          (built-again cal b (inputs_of md) checked bound),
    )
build_plan_approval_payload-again cal null b p e = absurd cc
build_plan_approval_payload-again cal _ b p e = absurd cc

parse-eq-ok :
    (cal : Calendar) (s : String) (t : ℕ)
    → parse_rfc3339_utc cal s ≡ ok t
    → cal.fromisoformat s ≡ some t
unfolding parse_rfc3339_utc
parse-eq-ok cal s t = go (cal.fromisoformat s)
  where
    go :
        (o : Option ℕ)
        → elim o [ none ↦ raised (value_error "isoformat") | some t ↦ ok t ] ≡ ok t
        → o ≡ some t
    go none e = absurd cc
    go (some u) e = cc

check_span-bounds :
    (issued expires : ℕ)
    → check_span issued expires ≡ ok tt
    → (issued < expires) × (expires ≤ issued + 900000000)
unfolding check_span
check_span-bounds issued expires e =
    let (first, second) = (>>-eq-ok _ _).0 e in
    (ltb→lt issued expires ((require-eq-ok _ _).0 first), leb→le _ _ ((require-eq-ok _ _).0 second))

-- A window that passes the checks, as it is read.
abbrev pub ShortWindow : Calendar → Binding → Type 0
ShortWindow cal b =
    (issued : ℕ) × (expires : ℕ) × (cal.fromisoformat b.issued_at ≡ some issued)
    × (cal.fromisoformat b.expires_at ≡ some expires)
    × (issued < expires)
    × (expires ≤ issued + 900000000)

check_window-Short : (cal : Calendar) (b : Binding) → check_window cal b ≡ ok tt → ShortWindow cal b
unfolding check_window
check_window-Short cal b e =
    let (_, e1) = (>>-eq-ok _ _).0 e in
    let (_, e2) = (>>-eq-ok _ _).0 e1 in
    let (issued, at, e3) =
      >>=-eq-ok (parse_rfc3339_utc cal b.issued_at)
        (λ issued. parse_rfc3339_utc cal b.expires_at >>= check_span issued) e2 in
    let (expires, to, e4) = >>=-eq-ok (parse_rfc3339_utc cal b.expires_at) (check_span issued) e3 in
    let (before, within) = check_span-bounds issued expires e4 in
    (
      issued,
      expires,
      parse-eq-ok cal b.issued_at issued at,
      parse-eq-ok cal b.expires_at expires to,
      before,
      within,
    )

check_binding-window :
    (cal : Calendar) (c : Fields) (b : Binding)
    → check_binding cal c b ≡ ok tt
    → check_window cal b ≡ ok tt
unfolding check_binding
check_binding-window cal c b e = ((>>-eq-ok (check_locator c b) (check_window cal b)).0 e).1

-- A payload that is built holds the two ends of the window that it was asked for; both parse, and the
-- second is later than the first, by at most fifteen minutes.
pub build_plan_approval_payload-Short :
    (cal : Calendar) (md : Json) (b : Binding) (p : Fields)
    → build_plan_approval_payload cal md b ≡ ok p
    → (get p "issued_at" ≡ str b.issued_at)
      × (get p "expires_at" ≡ str b.expires_at)
      × ShortWindow cal b
unfolding build_plan_approval_payload get
build_plan_approval_payload-Short cal (obj md) b p e =
    let (checked, bound, same) = build_from-Built cal b md p e in
    (
      ap (λ x. get x "issued_at") same,
      ap (λ x. get x "expires_at") same,
      check_window-Short cal b (check_binding-window cal (metadata_of (inputs_of md)) b bound),
    )
build_plan_approval_payload-Short cal null b p e = absurd cc
build_plan_approval_payload-Short cal _ b p e = absurd cc
