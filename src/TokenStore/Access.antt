-- ===== src/TokenStore/Access.antt =====
-- Bearer tokens: `create_auth_token`, `auth_context_for_token` and `revoke_auth_token` of
-- memory/backend/metadata_store.py. `now` is the text of CURRENT_TIMESTAMP.
use ai_memory_hub.Base.{
  Text, Bool, ◌&&◌, not, Option, none, some, List, [], ◌∷◌, ◌++◌, ◌==◌, text_eq, option_eq,
  if◌then◌else◌, any, take, Result, ok, raise, integrity_error, ◌>>=◌, find, update_where,
}
use ai_memory_hub.TokenStore.Rows.{User, AuthToken, Store, is_null, unexpired_or_null}
use ai_memory_hub.TokenStore.Validate.{
  Secrets, hash_bearer_token, token_id_from_bearer_token, validate_owner_id, validate_token_lookup,
  normalize_token_scopes, parse_token_scopes,
}
use ai_memory_hub.TokenStore.Projects.{upsert_user, ensure_default_project, coalesce}

abbrev pub or_else : Option Text → Text → Text
or_else none d = d
or_else (some a) d = a

-- The unique index on `token_id`.
unfoldable pub token_id_taken : AuthToken → List AuthToken → Bool
token_id_taken row = any (λ t. not (t.token_hash == row.token_hash) && t.token_id == row.token_id)

-- The row after INSERT … ON CONFLICT(token_hash) DO UPDATE: the old row keeps its handle.
unfoldable pub merged : AuthToken → Option AuthToken → AuthToken
merged row none = row
merged row (some old) = record row {
  token_id = coalesce old.token_id row.token_id;
  last_used_at = old.last_used_at;
}

unfoldable pub write_row : AuthToken → List AuthToken → List AuthToken
write_row row tokens =
    if any (λ t. t.token_hash == row.token_hash) tokens
    then update_where (λ t. t.token_hash == row.token_hash) (λ _. row) tokens
    else tokens ++ row ∷ []

unfoldable pub upsert_auth_token : AuthToken → Store → Result (AuthToken × Store)
unfolding token_id_taken merged write_row
upsert_auth_token row s =
    let row' = merged row (find (λ t. t.token_hash == row.token_hash) s.auth_tokens) in
    if token_id_taken row' s.auth_tokens
    then raise integrity_error
    else ok (row', record s { auth_tokens = write_row row' s.auth_tokens })

-- `new_id` is the random handle of `_new_token_id`.
unfoldable pub create_auth_token :
    Secrets
    → Text
    → Text
    → Text
    → Option Text
    → Option Text
    → Option Text
    → Option (List Text)
    → Store
    → Result (AuthToken × Store)
unfolding upsert_auth_token
create_auth_token c new_id owner_id token display_name token_display_name expires_at scopes s = do
  owner ← validate_owner_id owner_id
  token_hash ← hash_bearer_token c token
  scopes' ← normalize_token_scopes scopes
  s' ← ensure_default_project c (some owner) (upsert_user owner display_name s)
  upsert_auth_token
      (record {
        token_hash = token_hash;
        token_id = some (or_else (token_id_from_bearer_token c token) new_id);
        owner_id = owner;
        display_name = token_display_name;
        token_prefix = take 12 token;
        scopes = some scopes';
        last_used_at = none;
        expires_at = expires_at;
        revoked_at = none;
      })
      s'

pub record AuthContextRow : Type 0 where
  pub owner_id : Text
  pub token_id : Option Text
  pub scopes : List Text

-- The WHERE clause of `auth_context_for_token` with its join on `users`.
unfoldable pub grants : Text → Text → List User → AuthToken → Bool
grants now token_hash users t =
    t.token_hash == token_hash
    && is_null t.revoked_at
    && any (λ u. u.id == t.owner_id && is_null u.disabled_at) users
    && unexpired_or_null now t.expires_at

-- The scopes are parsed after the commit of `last_used_at`. Where a scope is not allowed, and the
-- call raises, the code keeps that time; here the call leaves no store.
unfoldable pub context_of :
    Text → Store → Text → Option AuthToken → Result (Option AuthContextRow × Store)
context_of now s token_hash none = ok (none, s)
context_of now s token_hash (some t) = do
  scopes ← parse_token_scopes t.scopes
  ok (
    some (record { owner_id = t.owner_id; token_id = t.token_id; scopes = scopes }),
    record s {
      auth_tokens =
          update_where (λ u. u.token_hash == token_hash) (λ u. record u { last_used_at = some now })
            s.auth_tokens;
    },
  )

unfoldable pub auth_context_for_token :
    Secrets → Text → Text → Store → Result (Option AuthContextRow × Store)
unfolding context_of grants
auth_context_for_token c now token s = do
  token_hash ← hash_bearer_token c token
  context_of now s token_hash (find (grants now token_hash s.users) s.auth_tokens)

-- UPDATE auth_tokens SET revoked_at = CURRENT_TIMESTAMP WHERE p
unfoldable pub revoke_tokens : Text → (AuthToken → Bool) → Store → Store
revoke_tokens now p s = record s {
  auth_tokens = update_where p (λ t. record t { revoked_at = some now }) s.auth_tokens;
}

unfoldable pub revoke_found : Text → Store → Option AuthToken → Result (Option AuthToken × Store)
unfolding revoke_tokens
revoke_found now s none = ok (none, s)
revoke_found now s (some t) =
    let s' = revoke_tokens now (λ u. u.token_hash == t.token_hash) s in
    ok (find (λ u. u.token_hash == t.token_hash) s'.auth_tokens, s')

unfoldable pub revoke_auth_token : Text → Text → Store → Result (Option AuthToken × Store)
unfolding revoke_found
revoke_auth_token now token_id s = do
  handle ← validate_token_lookup token_id
  revoke_found now s (find (λ t. t.token_id == some handle) s.auth_tokens)
