-- ===== src/Drift/Secrets.antt =====
-- `is_secret_name` of agent/secret_guard.py: a case-blind search for any of a list of words.
use Prim.Native.Char.{code}
use driftscribe.Base.{
  ℕ, String, Bool, true, false, ◌&&◌, ◌||◌, List, [], ◌∷◌, ◌+◌, leb, ◌==◌, if◌then◌else◌, ◌≡◌, refl,
}

-- How a character is compared under `re.IGNORECASE`, as far as the ASCII letters go: besides the
-- capitals, four other characters count as an `i`, an `s` or a `k`.
unfoldable pub fold_case : ℕ → ℕ
fold_case c =
    if leb b'A' c && leb c b'Z'
    then c + 32
    else if c == 0x130 || c == 0x131
    then b'i'
    else if c == 0x17f
    then b's'
    else if c == 0x212a
    then b'k'
    else c

unfoldable pub folded : String → List ℕ
unfolding fold_case
folded String.[] = []
folded (String.◌∷◌ c s) = fold_case (code c) ∷ folded s

unfoldable pub is_prefix : List ℕ → List ℕ → Bool
is_prefix [] ys = true
is_prefix (x ∷ xs) [] = false
is_prefix (x ∷ xs) (y ∷ ys) = x == y && is_prefix xs ys

unfoldable pub is_infix : List ℕ → List ℕ → Bool
unfolding is_prefix
is_infix xs [] = is_prefix xs []
is_infix xs (y ∷ ys) = is_prefix xs (y ∷ ys) || is_infix xs ys

abbrev pub secret_words : List String
secret_words =
    "SECRET" ∷ "TOKEN" ∷ "KEY" ∷ "PASSWORD" ∷ "PASSWD" ∷ "CRED" ∷ "PRIVATE" ∷ "AUTH" ∷ "BEARER"
    ∷ "JWT" ∷ "SIGNATURE" ∷ "SALT" ∷ "DSN" ∷ "OAUTH" ∷ "URL" ∷ "URI" ∷ "CONNECTION" ∷ "CONNSTR" ∷ []

unfoldable pub mentions : List String → List ℕ → Bool
unfolding folded is_infix
mentions [] name = false
mentions (w ∷ ws) name = is_infix (folded w) name || mentions ws name

unfoldable pub is_secret_name : String → Bool
unfolding mentions folded
is_secret_name name = mentions secret_words (folded name)

secret_names : is_secret_name "database_url" ≡ true
unfolding is_secret_name
secret_names = refl
