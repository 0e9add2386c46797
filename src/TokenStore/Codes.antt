-- ===== src/TokenStore/Codes.antt =====
-- OAuth clients and authorization codes: `create_oauth_client`, `oauth_client`,
-- `create_oauth_authorization_code` and `consume_oauth_authorization_code` of
-- memory/backend/metadata_store.py.
use ai_memory_hub.Base.{
  ℕ, Text, codes as text_codes, Bool, ◌&&◌, Option, none, some, List, [], ◌∷◌, ◌++◌, leb, ◌==◌,
  text_eq, if◌then◌else◌, any, is_empty, Result, ok, raise, client_quota_exceeded, integrity_error,
  ◌>>=◌, find, update_where, count_where,
}
use ai_memory_hub.TokenStore.Rows.{OauthClient, AuthorizationCode, Store, is_null, unexpired}
use ai_memory_hub.TokenStore.Validate.{
  Secrets, hash_bearer_token, validate_owner_id, validate_token_lookup,
}

-- `revoked_at IS NULL AND expires_at > CURRENT_TIMESTAMP`
abbrev pub active_client : Text → OauthClient → Bool
active_client now cl = is_null cl.revoked_at && unexpired now cl.expires_at

unfoldable pub write_client : OauthClient → List OauthClient → List OauthClient
write_client row clients =
    if any (λ cl. cl.client_id == row.client_id) clients
    then update_where (λ cl. cl.client_id == row.client_id) (λ _. row) clients
    else clients ++ row ∷ []

-- `client_name or "MCP client"`
unfoldable pub client_name_or_default : Text → Text
client_name_or_default name = if is_empty name then text_codes "MCP client" else name

unfoldable pub create_oauth_client :
    Text → Text → Text → List Text → Text → ℕ → Store → Result (OauthClient × Store)
unfolding write_client client_name_or_default
create_oauth_client now client_id client_name redirect_uris expires_at max_active_clients s = do
  handle ← validate_token_lookup client_id
  if leb max_active_clients (count_where (active_client now) s.clients)
      then raise client_quota_exceeded
      else (do
        let row : OauthClient = record {
          client_id = handle;
          client_name = client_name_or_default client_name;
          redirect_uris = redirect_uris;
          expires_at = expires_at;
          revoked_at = none;
        }
        ok (row, record s { clients = write_client row s.clients }))

unfoldable pub oauth_client : Text → Text → Store → Result (Option OauthClient)
oauth_client now client_id s = do
  handle ← validate_token_lookup client_id
  ok (find (λ cl. cl.client_id == handle && active_client now cl) s.clients)

unfoldable pub create_oauth_authorization_code :
    Secrets → Text → Text → Text → Text → Text → Text → Text → Text → Store → Result Store
create_oauth_authorization_code c code client_id owner_id redirect_uri code_challenge resource scope
      expires_at s =
    do
      code_hash ← hash_bearer_token c code
      client ← validate_token_lookup client_id
      owner ← validate_owner_id owner_id
      if any (λ r. r.code_hash == code_hash) s.codes
          then raise integrity_error
          else ok (record s {
            codes =
                s.codes
                ++ record {
                  code_hash = code_hash;
                  client_id = client;
                  owner_id = owner;
                  redirect_uri = redirect_uri;
                  code_challenge = code_challenge;
                  resource = resource;
                  scope = scope;
                  expires_at = expires_at;
                  consumed_at = none;
                }
                  ∷ [];
          })

-- The WHERE clause of `consume_oauth_authorization_code`.
unfoldable pub redeemable : Text → Text → Text → Text → Text → AuthorizationCode → Bool
redeemable now code_hash client_id redirect_uri code_challenge r =
    r.code_hash == code_hash
    && r.client_id == client_id
    && r.redirect_uri == redirect_uri
    && r.code_challenge == code_challenge
    && is_null r.consumed_at
    && unexpired now r.expires_at

-- UPDATE … SET consumed_at … RETURNING, the first row.
unfoldable pub consume_oauth_authorization_code :
    Secrets → Text → Text → Text → Text → Text → Store → Result (Option AuthorizationCode × Store)
unfolding redeemable
consume_oauth_authorization_code c now code client_id redirect_uri code_challenge s = do
  code_hash ← hash_bearer_token c code
  let p = redeemable now code_hash client_id redirect_uri code_challenge
  ok (
    find p s.codes,
    record s { codes = update_where p (λ r. record r { consumed_at = some now }) s.codes },
  )
