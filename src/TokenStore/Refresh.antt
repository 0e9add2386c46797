-- ===== src/TokenStore/Refresh.antt =====
-- Refresh tokens and their families: `create_oauth_refresh_token`, `oauth_refresh_token`,
-- `consume_oauth_refresh_token`, `revoke_oauth_refresh_token_family`,
-- `revoke_oauth_authorization_for_access_token` and `revoke_oauth_refresh_token` of
-- memory/backend/metadata_store.py.
use ai_memory_hub.Base.{
  ℕ, Text, Bool, true, false, ◌&&◌, ◌||◌, not, Option, none, some, List, [], ◌∷◌, ◌++◌, ◌==◌,
  text_eq, option_eq, if◌then◌else◌, any, is_empty, Result, ok, raise, integrity_error, ◌>>=◌, find,
  update_where,
}
use ai_memory_hub.TokenStore.Rows.{AuthToken, RefreshToken, Store, is_null, unexpired}
use ai_memory_hub.TokenStore.Validate.{
  Secrets, hash_bearer_token, validate_owner_id, validate_token_lookup, normalize_token_scopes,
}
use ai_memory_hub.TokenStore.Projects.{add_user, ensure_default_project}
use ai_memory_hub.TokenStore.Access.{revoke_tokens}

abbrev pub has_family : Text → Store → Bool
has_family family s = any (λ f. f == family) s.families

-- `if family_revoked and access_token_id`
unfoldable pub revoke_born : Text → Bool → Option Text → Store → Store
revoke_born now false access_token_id s = s
revoke_born now true none s = s
revoke_born now true (some id) s =
    if is_empty id then s else revoke_tokens now (λ t. t.token_id == some id) s

unfoldable pub insert_refresh_token : RefreshToken → Store → Result Store
insert_refresh_token row s =
    if any (λ r. r.refresh_token_hash == row.refresh_token_hash) s.refresh_tokens
    then raise integrity_error
    else ok (record s { refresh_tokens = s.refresh_tokens ++ row ∷ [] })

-- The row is born revoked if its family is; `now_iso` is `datetime.now(UTC).isoformat()`.
unfoldable pub write_refresh_token :
    Text → Text → RefreshToken → Store → Result (RefreshToken × Store)
unfolding revoke_born insert_refresh_token
write_refresh_token now now_iso row s =
    let family_revoked = has_family row.token_family_id s in
    let row' = record row { revoked_at = if family_revoked then some now_iso else none } in
    do
      s' ← insert_refresh_token row' s
      ok (row', revoke_born now family_revoked row.access_token_id s')

unfoldable pub create_oauth_refresh_token :
    Secrets
    → Text
    → Text
    → Text
    → Text
    → Text
    → Text
    → List Text
    → Text
    → Option Text
    → Text
    → Store
    → Result (RefreshToken × Store)
unfolding write_refresh_token
create_oauth_refresh_token c now now_iso refresh_token family client_id owner_id scopes resource
      access_token_id expires_at s =
    do
      token_hash ← hash_bearer_token c refresh_token
      family_id ← validate_token_lookup family
      client ← validate_token_lookup client_id
      owner ← validate_owner_id owner_id
      scopes' ← normalize_token_scopes (some scopes)
      s₁ ← ensure_default_project c (some owner) (add_user owner s)
      write_refresh_token now now_iso
          (record {
            refresh_token_hash = token_hash;
            token_family_id = family_id;
            client_id = client;
            owner_id = owner;
            scopes = scopes';
            resource = resource;
            access_token_id = access_token_id;
            expires_at = expires_at;
            consumed_at = none;
            revoked_at = none;
          })
          s₁

unfoldable pub oauth_refresh_token : Secrets → Text → Store → Result (Option RefreshToken)
oauth_refresh_token c refresh_token s = do
  token_hash ← hash_bearer_token c refresh_token
  ok (find (λ r. r.refresh_token_hash == token_hash) s.refresh_tokens)

-- The WHERE clause of `consume_oauth_refresh_token`.
unfoldable pub rotatable : Text → Text → RefreshToken → Bool
rotatable now token_hash r =
    r.refresh_token_hash == token_hash
    && is_null r.consumed_at
    && is_null r.revoked_at
    && unexpired now r.expires_at

abbrev pub consumed : Text → RefreshToken → RefreshToken
consumed now r = record r { consumed_at = some now }

-- UPDATE … SET consumed_at … RETURNING: the row comes back as it is after the update.
unfoldable pub consume_oauth_refresh_token :
    Secrets → Text → Text → Store → Result (Option RefreshToken × Store)
unfolding rotatable
consume_oauth_refresh_token c now refresh_token s = do
  token_hash ← hash_bearer_token c refresh_token
  ok (
    ai_memory_hub.Base.map_option (consumed now) (find (rotatable now token_hash) s.refresh_tokens),
    record s {
      refresh_tokens = update_where (rotatable now token_hash) (consumed now) s.refresh_tokens;
    },
  )

-- `token_id IN (SELECT access_token_id FROM oauth_refresh_tokens WHERE p AND … IS NOT NULL)`
unfoldable pub issued_with : (RefreshToken → Bool) → Store → AuthToken → Bool
issued_with p s t =
    any (λ r. p r && not (is_null r.access_token_id) && t.token_id == r.access_token_id)
      s.refresh_tokens

-- UPDATE oauth_refresh_tokens SET revoked_at = CURRENT_TIMESTAMP WHERE p AND revoked_at IS NULL
unfoldable pub revoke_refresh_tokens : Text → (RefreshToken → Bool) → Store → Store
revoke_refresh_tokens now p s = record s {
  refresh_tokens =
      update_where (λ r. p r && is_null r.revoked_at) (λ r. record r { revoked_at = some now })
        s.refresh_tokens;
}

abbrev pub of_family : Text → RefreshToken → Bool
of_family family r = r.token_family_id == family

unfoldable pub record_family : Text → Store → Store
record_family family s =
    if has_family family s then s else record s { families = s.families ++ family ∷ [] }

-- The result says whether a refresh token changed.
unfoldable pub revoke_oauth_refresh_token_family : Text → Text → Store → Result (Bool × Store)
unfolding record_family revoke_tokens issued_with revoke_refresh_tokens
revoke_oauth_refresh_token_family now token_family_id s = do
  family ← validate_token_lookup token_family_id
  let s₁ = record_family family s
  let s₂ = revoke_tokens now (issued_with (of_family family) s₁) s₁
  ok (
    any (λ r. of_family family r && is_null r.revoked_at) s₂.refresh_tokens,
    revoke_refresh_tokens now (of_family family) s₂,
  )

-- `token_family_id IN (SELECT token_family_id FROM oauth_refresh_tokens WHERE access_token_id = ?)`
unfoldable pub in_family_of : Text → Store → RefreshToken → Bool
in_family_of token_id s r =
    any (λ q. q.access_token_id == some token_id && q.token_family_id == r.token_family_id)
      s.refresh_tokens

unfoldable pub str_or_none : Option Text → Text
str_or_none none = ai_memory_hub.Base.codes "None"
str_or_none (some id) = id

unfoldable pub revoke_authorization_of : Text → Text → Store → Option AuthToken → Bool × Store
unfolding revoke_tokens issued_with revoke_refresh_tokens in_family_of str_or_none
revoke_authorization_of now token_hash s none = (false, s)
revoke_authorization_of now token_hash s (some t) =
    let token_id = str_or_none t.token_id in
    if not (any (λ r. r.access_token_id == some token_id) s.refresh_tokens)
    then (false, s)
    else let s₁ = revoke_tokens now (λ u. u.token_hash == token_hash && is_null u.revoked_at) s in
      let s₂ =
        revoke_tokens now (λ u. issued_with (in_family_of token_id s₁) s₁ u && is_null u.revoked_at)
          s₁ in
      (true, revoke_refresh_tokens now (in_family_of token_id s₂) s₂)

unfoldable pub revoke_oauth_authorization_for_access_token :
    Secrets → Text → Text → Store → Result (Bool × Store)
unfolding revoke_authorization_of
revoke_oauth_authorization_for_access_token c now access_token s = do
  token_hash ← hash_bearer_token c access_token
  ok (
      revoke_authorization_of now token_hash s
        (find (λ t. t.token_hash == token_hash) s.auth_tokens))

unfoldable pub revoke_family_of : Text → Store → Option RefreshToken → Result (Bool × Store)
revoke_family_of now s none = ok (false, s)
revoke_family_of now s (some r) = revoke_oauth_refresh_token_family now r.token_family_id s

unfoldable pub revoke_oauth_refresh_token : Secrets → Text → Text → Store → Result (Bool × Store)
unfolding revoke_family_of
revoke_oauth_refresh_token c now refresh_token s = do
  found ← oauth_refresh_token c refresh_token s
  revoke_family_of now s found
