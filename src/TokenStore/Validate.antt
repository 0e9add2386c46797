-- ===== src/TokenStore/Validate.antt =====
-- Argument checks of memory/backend/metadata_store.py, from `_hash_bearer_token` down.
-- PBKDF2, the decoding of a token's payload and random handles are parameters.
use ai_memory_hub.Base.{
  ℕ, Text, codes, String, Bool, true, false, not, ◌&&◌, ◌||◌, all, ◌>>=◌, Option, none, some, List,
  [], ◌∷◌, ◌++◌, map, ltb, leb, eqb, ◌==◌, text_eq, option_eq, if◌then◌else◌, length, is_empty,
  keep, Result, ok, raise, value_error, strip, starts_with, text_ltb,
}

-- What the module takes from `hashlib`, `base64` and `json`: the hash of a bearer token, the digest
-- of a default project's id, and the `jti` text of a token's payload where there is one.
pub record Secrets : Type 0 where
  pub bearer_digest : Text → Text
  pub project_digest : Text → Text
  pub payload_jti : Text → Option Text

-- `_hash_bearer_token`
unfoldable pub hash_bearer_token : Secrets → Text → Result Text
hash_bearer_token c [] = raise (value_error "bearer token must be a non-empty string")
hash_bearer_token c (ch ∷ token) = ok (codes "pbkdf2-sha256:" ++ c.bearer_digest (ch ∷ token))

-- The number of parts of `token.split(".")`.
unfoldable pub dots : Text → ℕ
dots [] = 0
dots (c ∷ s) = elim (eqb c b'.') [ true ↦ ℕ.suc (dots s) | false ↦ dots s ]

-- `_token_id_from_bearer_token`
unfoldable pub token_id_from_bearer_token : Secrets → Text → Option Text
unfolding dots
token_id_from_bearer_token c token =
    if not (eqb (dots token) 2) then none else usable (c.payload_jti token)
  where
    usable : Option Text → Option Text
    usable none = none
    usable (some jti) =
        if not (starts_with jti (codes "tok_"))
        then none
        else if leb (length jti) 128
        then some jti
        else none

-- `_validate_token_lookup` and `_validate_owner_id` differ in their messages only.
unfoldable pub checked : String → String → Text → Result Text
checked empty long value =
    if is_empty (strip value)
    then raise (value_error empty)
    else if ltb 128 (length (strip value))
    then raise (value_error long)
    else ok (strip value)

unfoldable pub validate_token_lookup : Text → Result Text
unfolding checked
validate_token_lookup = checked "token_id must be non-empty" "token_id exceeds max length 128"

unfoldable pub validate_owner_id : Text → Result Text
unfolding checked
validate_owner_id = checked "owner_id must be non-empty" "owner_id exceeds max length 128"

abbrev is_ascii_alnum : ℕ → Bool
is_ascii_alnum c = leb 48 c && leb c 57 || leb 65 c && leb c 90 || leb 97 c && leb c 122

abbrev is_project_char : ℕ → Bool
is_project_char c = is_ascii_alnum c || eqb c b'.' || eqb c b'_' || eqb c b':' || eqb c b'-'

-- `_PROJECT_ID_RE.fullmatch`
unfoldable pub project_id_matches : Text → Bool
project_id_matches [] = false
project_id_matches (c ∷ s) = is_ascii_alnum c && all is_project_char s && leb (length s) 127

unfoldable pub validate_project_id : Text → Result Text
unfolding checked project_id_matches
validate_project_id project_id = do
  value ← checked "project_id must be non-empty" "project_id exceeds max length 128" project_id
  if project_id_matches value then ok value else raise (value_error project_id_message)
  where
    project_id_message : String
    project_id_message =
        "project_id must start with an alphanumeric character and contain only alphanumeric characters, dots, underscores, colons, or hyphens"

-- `sorted({…})`: each text once, in order.
unfoldable pub insert_sorted : Text → List Text → List Text
insert_sorted t [] = t ∷ []
insert_sorted t (u ∷ us) =
    if text_ltb t u then t ∷ u ∷ us else if t == u then u ∷ us else u ∷ insert_sorted t us

unfoldable pub sorted_set : List Text → List Text
unfolding insert_sorted
sorted_set [] = []
sorted_set (t ∷ ts) = insert_sorted t (sorted_set ts)

abbrev pub read_and_write : List Text
read_and_write = codes "memory:read" ∷ codes "memory:write" ∷ []

unfoldable pub or_default : Option (List Text) → List Text
or_default none = read_and_write
or_default (some scopes) = scopes

-- `_normalize_token_scopes`
unfoldable pub normalize_token_scopes : Option (List Text) → Result (List Text)
unfolding sorted_set or_default
normalize_token_scopes scopes =
    let normalized = sorted_set (keep (λ t. not (is_empty t)) (map strip (or_default scopes))) in
    if is_empty normalized
    then raise (value_error "token scopes must not be empty")
    else ok normalized

-- `_parse_token_scopes` on a column that is null or holds a JSON list.
unfoldable pub parse_token_scopes : Option (List Text) → Result (List Text)
parse_token_scopes none = ok read_and_write
parse_token_scopes (some scopes) = normalize_token_scopes (some scopes)
