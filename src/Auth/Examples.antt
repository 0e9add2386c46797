-- ===== src/Auth/Examples.antt =====
-- Requests at memory/auth.py, and the theorems about them at concrete inputs.
use ai_memory_hub.Base.{
  false≢true, Text, ◌≡◌, refl, true, none, some, [], ◌∷◌, ◌++◌, All, pos, codes, ok, find,
  update_where, text_beq, text_ltb, strip, starts_with,
}
use ai_memory_hub.TokenStore.Rows.{Store, AuthToken}
use ai_memory_hub.TokenStore.Validate.{
  hash_bearer_token, validate_token_lookup, parse_token_scopes, normalize_token_scopes,
}
use ai_memory_hub.TokenStore.Access.{AuthContextRow, auth_context_for_token, revoke_auth_token}
use ai_memory_hub.TokenStore.Examples.{plain, noon, hub, bearer, tomorrow}
use ai_memory_hub.Auth.Claims.{
  Config, Payload, AccessTokenClaims, oauth_resource_server, validate_oauth_access_token,
  is_hub_issued_claim,
}
use ai_memory_hub.Auth.Requests.{
  has_query_access_token, by_oauth, Request, AuthContext, allowed, unauthorized, is_public_path,
  extract_bearer_token,
}
use ai_memory_hub.Auth.Middleware.{dispatch}
use ai_memory_hub.Auth.Protected.{
  WritePath, WritePath-listed, memory_below, Guarded, dispatch-Protected,
}
use ai_memory_hub.Auth.Guard.{InBoth, needs_row, dispatch-hub_issued, dispatch-revoked}

abbrev payload : Payload
payload = record {
  exp = some (pos 2000);
  nbf = none;
  iss = some (codes "https://hub");
  sub = some (codes "alice");
  jti = some (codes "tok_1");
  aud = codes "https://hub/mcp" ∷ [];
  resource = [];
  scopes = codes "memory:read" ∷ codes "memory:write" ∷ [];
}

abbrev config : Config
config = record {
  auth = oauth_resource_server;
  issuer = codes "https://hub";
  resource = codes "https://hub/mcp";
  public_base_url = codes "https://hub";
  decode = λ _. some payload;
}

abbrev claims : AccessTokenClaims
claims = record {
  owner_id = codes "alice";
  token_id = some (codes "tok_1");
  scopes = codes "memory:read" ∷ codes "memory:write" ∷ [];
  issuer = some (codes "https://hub");
}

abbrev ask : Text → Request
ask token = record {
  method = codes "POST";
  path = codes "/memory/ask";
  query_names = [];
  authorization = some (codes "Bearer " ++ token);
  session_id = [];
  session_hash = [];
  csrf_token = [];
  csrf_hash = [];
  now = noon;
  seconds = 1000;
}

abbrev context : AuthContext
context = record {
  owner_id = codes "alice";
  token_id = some (codes "tok_1");
  scopes = codes "memory:read" ∷ [];
  auth_mode = by_oauth;
}

abbrev hub_used : Store
hub_used = record hub {
  auth_tokens =
      record (bearer (codes "b1") (codes "tok_1") tomorrow) { last_used_at = some noon }
      ∷ bearer (codes "b2") (codes "tok_2") tomorrow
      ∷ [];
}

asks : dispatch plain config (ask (codes "b1")) hub ≡ ok (allowed context, hub_used)
unfolding dispatch is_public_path extract_bearer_token validate_oauth_access_token
    is_hub_issued_claim auth_context_for_token hash_bearer_token parse_token_scopes
    normalize_token_scopes find update_where text_beq text_ltb strip starts_with
asks = refl

dispatch-Protected_example : Guarded (codes "memory:read") (ask (codes "b1")) (allowed context)
unfolding text_beq
dispatch-Protected_example =
    dispatch-Protected plain config (ask (codes "b1")) hub hub_used (codes "memory:read")
      (allowed context) (memory_below (codes "ask") no_write) asks
  where
    no_write : WritePath (codes "/memory/ask") → ⊥
    no_write w = false≢true (WritePath-listed w)

valid : validate_oauth_access_token config 1000 (codes "b1") ≡ some claims
unfolding validate_oauth_access_token text_beq strip
valid = refl

issued : is_hub_issued_claim claims config ≡ true
unfolding is_hub_issued_claim text_beq
issued = refl

dispatch-hub_issued_example :
    (row : AuthContextRow) × (auth_context_for_token plain noon (codes "b1") hub
      ≡ ok (some row, hub_used))
    × (row.owner_id ≡ codes "alice")
    × All (InBoth row claims) (codes "memory:read" ∷ [])
unfolding extract_bearer_token strip text_beq
dispatch-hub_issued_example =
    dispatch-hub_issued plain config (ask (codes "b1")) (codes "b1") claims hub hub_used context
      refl refl valid issued asks

abbrev b1_revoked : AuthToken
b1_revoked = record (bearer (codes "b1") (codes "tok_1") tomorrow) { revoked_at = some noon }

abbrev b1_ended : Store
b1_ended = record hub {
  auth_tokens = b1_revoked ∷ bearer (codes "b2") (codes "tok_2") tomorrow ∷ [];
}

revoke_b1 : revoke_auth_token noon (codes "tok_1") hub ≡ ok (some b1_revoked, b1_ended)
unfolding revoke_auth_token validate_token_lookup strip find update_where text_beq
revoke_b1 = refl

dispatch-revoked_example :
    dispatch plain config (ask (codes "b1")) b1_ended ≡ ok (unauthorized "invalid_token", b1_ended)
unfolding hash_bearer_token extract_bearer_token needs_row validate_oauth_access_token
    is_hub_issued_claim is_public_path has_query_access_token strip text_beq starts_with
dispatch-revoked_example =
    dispatch-revoked plain config (ask (codes "b1")) (codes "b1") noon (codes "tok_1") b1_revoked
      hub b1_ended revoke_b1 refl refl refl refl refl
