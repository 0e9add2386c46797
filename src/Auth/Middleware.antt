-- ===== src/Auth/Middleware.antt =====
-- `AuthMiddleware` of memory/auth.py: `dispatch`, `_authenticate` and
-- `_authenticate_connect_session`.
use Prim.Native.String.{String}
use ai_memory_hub.Base.{
  Text, codes, Bool, true, false, ◌||◌, not, Option, none, some, List, [], ◌∷◌, keep, is_empty,
  if◌then◌else◌, ◌==◌, text_eq, Result, ok, ◌>>=◌, strip,
}
use ai_memory_hub.TokenStore.Rows.{WebSession, Store}
use ai_memory_hub.TokenStore.Validate.{Secrets}
use ai_memory_hub.TokenStore.Access.{AuthContextRow, auth_context_for_token}
use ai_memory_hub.TokenStore.Sessions.{web_session_for_hash}
use ai_memory_hub.Auth.Claims.{
  AuthMode, bearer_token, oauth_resource_server, Config, AccessTokenClaims,
  validate_oauth_access_token, is_hub_issued_claim,
}
use ai_memory_hub.Auth.Requests.{
  has_query_access_token, by_oauth, by_bearer_token, by_session, Request, AuthContext, Verdict,
  contains, is_public_path, write_scope, required_scopes_for_request, has_required_scopes,
  extract_bearer_token, public_path, unauthorized, forbidden, allowed,
}

-- `_context_scopes`
unfoldable pub context_scopes : AuthContextRow → List Text
context_scopes row = keep (λ scope. not (is_empty (strip scope))) row.scopes

abbrev pub bearer_context : Option AuthContextRow → Option AuthContext
bearer_context none = none
bearer_context (some row) = some (record {
  owner_id = row.owner_id;
  token_id = row.token_id;
  scopes = row.scopes;
  auth_mode = by_bearer_token;
})

abbrev pub or_claim : Option Text → Option Text → Option Text
or_claim none b = b
or_claim (some a) b = some a

-- A token that the hub issued needs its row, of the same owner; its scopes are those of both.
unfoldable pub hub_context : AccessTokenClaims → Option AuthContextRow → Option AuthContext
unfolding context_scopes
hub_context claims none = none
hub_context claims (some row) =
    if not (row.owner_id == claims.owner_id)
    then none
    else some (record {
      owner_id = claims.owner_id;
      token_id = or_claim row.token_id claims.token_id;
      scopes = keep (contains claims.scopes) (context_scopes row);
      auth_mode = by_oauth;
    })

abbrev pub claim_context : AccessTokenClaims → AuthContext
claim_context claims = record {
  owner_id = claims.owner_id;
  token_id = claims.token_id;
  scopes = claims.scopes;
  auth_mode = by_oauth;
}

unfoldable pub authenticate_claims :
    Secrets
    → Config
    → Text
    → Text
    → Option AccessTokenClaims
    → Store
    → Result (Option AuthContext × Store)
unfolding hub_context is_hub_issued_claim
authenticate_claims c config now token none s = ok (none, s)
authenticate_claims c config now token (some claims) s = do
  stored ← auth_context_for_token c now token s
  ok (
    if is_hub_issued_claim claims config
        then hub_context claims stored.0
        else some (claim_context claims),
    stored.1,
  )

-- `_authenticate` without external OIDC, by the setting `api.auth`.
unfoldable pub authenticate_by :
    AuthMode → Secrets → Config → Request → Text → Store → Result (Option AuthContext × Store)
unfolding authenticate_claims validate_oauth_access_token
authenticate_by bearer_token c config request token s = do
  stored ← auth_context_for_token c request.now token s
  ok (bearer_context stored.0, stored.1)
authenticate_by oauth_resource_server c config request token s =
    authenticate_claims c config request.now token
      (validate_oauth_access_token config request.seconds token) s

unfoldable pub authenticate :
    Secrets → Config → Request → Text → Store → Result (Option AuthContext × Store)
unfolding authenticate_by
authenticate c config request token s = authenticate_by config.auth c config request token s

-- `csrf_matches`, and the owner of the session.
unfoldable pub session_context : Request → Option WebSession → Option AuthContext
session_context request none = none
session_context request (some session) =
    if is_empty request.csrf_token
      || not (session.csrf_token_hash == request.csrf_hash)
      || is_empty session.user_id
    then none
    else some (record {
      owner_id = session.user_id;
      token_id = none;
      scopes = write_scope ∷ [];
      auth_mode = by_session;
    })

abbrev pub is_oauth : AuthMode → Bool
is_oauth bearer_token = false
is_oauth oauth_resource_server = true

unfoldable pub authenticate_connect_session : Config → Request → Store → Result (Option AuthContext)
unfolding session_context
authenticate_connect_session config request s =
    if not (is_oauth config.auth)
      || not (request.method == codes "POST")
      || not (request.path == codes "/memory/import")
    then ok none
    else if is_empty request.session_id
    then ok none
    else (do
      session ← web_session_for_hash request.now request.session_hash s
      ok (session_context request session))

unfoldable pub judge : String → Text → Option AuthContext → Verdict
unfolding has_required_scopes required_scopes_for_request
judge error path none = unauthorized error
judge error path (some auth) =
    if not (has_required_scopes auth.scopes (required_scopes_for_request path))
    then forbidden (required_scopes_for_request path)
    else allowed auth

unfoldable pub dispatch_token :
    Secrets → Config → Request → Option Text → Store → Result (Verdict × Store)
unfolding authenticate authenticate_connect_session judge
dispatch_token c config request none s = do
  auth ← authenticate_connect_session config request s
  ok (judge "invalid_request" request.path auth, s)
dispatch_token c config request (some token) s = do
  auth ← authenticate c config request token s
  ok (judge "invalid_token" request.path auth.0, auth.1)

unfoldable pub dispatch : Secrets → Config → Request → Store → Result (Verdict × Store)
unfolding is_public_path has_query_access_token dispatch_token extract_bearer_token
dispatch c config request s =
    if is_public_path request.path
    then ok (public_path, s)
    else if has_query_access_token request
    then ok (unauthorized "invalid_request", s)
    else dispatch_token c config request (extract_bearer_token request.authorization) s
