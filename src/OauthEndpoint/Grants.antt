-- ===== src/OauthEndpoint/Grants.antt =====
-- The grants of `/oauth/token` and `/oauth/revoke` in memory/api/oauth_authorization.py.
use ai_memory_hub.Base.{
  Text, codes, Bool, true, false, ◌&&◌, ◌||◌, not, Option, none, some, List, [], ◌∷◌, ◌++◌, map,
  keep, all, length, leb, eqb, is_empty, if◌then◌else◌, ◌==◌, text_eq, strip, is_space,
}
use ai_memory_hub.TokenStore.Rows.{Store, AuthorizationCode, RefreshToken, is_null}
use ai_memory_hub.TokenStore.Validate.{Secrets, dots}
use ai_memory_hub.TokenStore.Access.{create_auth_token, revoke_auth_token}
use ai_memory_hub.TokenStore.Codes.{consume_oauth_authorization_code}
use ai_memory_hub.TokenStore.Refresh.{
  create_oauth_refresh_token, oauth_refresh_token, consume_oauth_refresh_token,
  revoke_oauth_refresh_token_family, revoke_oauth_authorization_for_access_token,
  revoke_oauth_refresh_token,
}
use ai_memory_hub.OauthEndpoint.Handler.{
  Outcome, done, oauth_error, failed, Handler, ◌>>=◌, return, raise_oauth, settle, call, look,
}

-- What a request takes from outside: the clock as the store's text, as ISO text and as the test of
-- `_timestamp_is_expired`; the token that `issue_hub_token` signs and its two `utc_after` times; the
-- random handle, refresh token and family; SHA-256 with base64 of `_pkce_challenge`.
pub record Draw : Type 0 where
  pub now : Text
  pub now_iso : Text
  pub is_expired : Text → Bool
  pub issued_token : Text
  pub new_id : Text
  pub new_refresh_token : Text
  pub new_family : Text
  pub access_expires_at : Text
  pub refresh_expires_at : Text
  pub pkce_digest : Text → Text

-- The fields of the form that the grants read; a missing one is the empty text.
pub record Form : Type 0 where
  pub grant_type : Text
  pub code : Text
  pub code_verifier : Text
  pub redirect_uri : Text
  pub client_id : Text
  pub refresh_token : Text

pub record TokenResponse : Type 0 where
  pub access_token : Text
  pub refresh_token : Text
  pub scope : List Text
  pub resource : Text
  pub jti : Text

-- `READ_SCOPE` and `WRITE_SCOPE`, when no scope is left.
abbrev or_read_write : List Text → List Text
or_read_write [] = codes "memory:read" ∷ codes "memory:write" ∷ []
or_read_write (scope ∷ scopes) = scope ∷ scopes

unfoldable pub normalize_scopes : List Text → List Text
unfolding strip
normalize_scopes scopes = or_read_write (keep (λ s. not (is_empty s)) (map strip scopes))

abbrev close_word : Text → List Text → List Text
close_word [] words = words
close_word (c ∷ cs) words = (c ∷ cs) ∷ words

-- `str.split()`, with the word that is open.
unfoldable pub split_words : Text → Text → List Text
unfolding is_space
split_words word [] = close_word word []
split_words word (c ∷ cs) = elim (is_space c) [
  | true ↦ close_word word (split_words [] cs)
  | false ↦ split_words (word ++ c ∷ []) cs
]

unfoldable pub scopes_from_scope_value : Text → List Text
unfolding normalize_scopes split_words
scopes_from_scope_value value = normalize_scopes (split_words [] value)

-- `str(a or b or "")`
abbrev pub first_text : Option Text → Option Text → Text
first_text none none = []
first_text none (some b) = b
first_text (some []) none = []
first_text (some []) (some b) = b
first_text (some (x ∷ a)) b = x ∷ a

-- `jwt_payload(token).get("jti")`
unfoldable pub jwt_jti : Secrets → Text → Option Text
unfolding dots
jwt_jti c token = if eqb (dots token) 2 then c.payload_jti token else none

-- `except Exception`: the access token is revoked, whether that succeeds or not, and the exception
-- goes on.
abbrev pub or_revoke {ℓ} : {A : Type ℓ} → Outcome A × Store → (Store → Store) → Outcome A × Store
or_revoke (failed e, s) revoke = (failed e, revoke s)
or_revoke (oauth_error error description, s) revoke = (oauth_error error description, revoke s)
or_revoke (done a, s) revoke = (done a, s)

unfoldable pub except_revoke {ℓ} : {A : Type ℓ} → Handler A → (Store → Store) → Handler A
except_revoke m revoke s = or_revoke (m s) revoke

-- `_revoke_failed_access_token`
unfoldable pub revoke_failed_access_token : Text → Text → Store → Store
revoke_failed_access_token now token_id s = (settle (revoke_auth_token now token_id s) s).1

unfoldable pub issue_access_and_refresh_tokens :
    Secrets → Draw → Text → Text → Text → List Text → Option Text → Handler TokenResponse
unfolding normalize_scopes jwt_jti
issue_access_and_refresh_tokens c d client_id owner_id resource scopes token_family_id = do
  let normalized = normalize_scopes scopes
  record₁ ← call (
      create_auth_token c d.new_id owner_id d.issued_token none (some (codes "MCP OAuth client"))
        (some d.access_expires_at) (some normalized))
  let access_token_id = first_text record₁.token_id (jwt_jti c d.issued_token)
  let family_id = first_text token_family_id (some d.new_family)
  row ←
      except_revoke
        (call (
          create_oauth_refresh_token c d.now d.now_iso d.new_refresh_token family_id client_id
            owner_id normalized resource (some access_token_id) d.refresh_expires_at))
        (revoke_failed_access_token d.now access_token_id)
  return (record {
    access_token = d.issued_token;
    refresh_token = d.new_refresh_token;
    scope = normalized;
    resource = resource;
    jti = access_token_id;
  })

abbrev pub invalid_refresh {ℓ} : {A : Type ℓ} → Handler A
invalid_refresh = raise_oauth "invalid_grant" "Refresh token is invalid"

-- Reuse of a token: its whole family is revoked before the error.
unfoldable pub refuse_reuse : Draw → RefreshToken → Handler TokenResponse
refuse_reuse d row = do
  changed ← call (revoke_oauth_refresh_token_family d.now row.token_family_id)
  invalid_refresh

-- After `consume_oauth_refresh_token`: `none` where another request took the token first.
unfoldable pub rotate :
    Secrets → Draw → Form → RefreshToken → Option RefreshToken → Handler TokenResponse
unfolding refuse_reuse issue_access_and_refresh_tokens
rotate c d form row none = refuse_reuse d row
rotate c d form row (some taken) =
    if is_null taken.consumed_at
    then refuse_reuse d row
    else issue_access_and_refresh_tokens c d form.client_id row.owner_id row.resource row.scopes
        (some row.token_family_id)

unfoldable pub refresh_with : Secrets → Draw → Form → Option RefreshToken → Handler TokenResponse
unfolding rotate refuse_reuse
refresh_with c d form none = invalid_refresh
refresh_with c d form (some row) =
    if not (row.client_id == form.client_id)
    then invalid_refresh
    else if not (is_null row.revoked_at) || not (is_null row.consumed_at)
    then refuse_reuse d row
    else if d.is_expired row.expires_at
    then raise_oauth "invalid_grant" "Refresh token is expired"
    else (do
      taken ← call (consume_oauth_refresh_token c d.now form.refresh_token)
      rotate c d form row taken)

unfoldable pub refresh_token_response : Secrets → Draw → Form → Handler TokenResponse
unfolding refresh_with
refresh_token_response c d form =
    if is_empty form.refresh_token
    then invalid_refresh
    else (do row ← look (oauth_refresh_token c form.refresh_token); refresh_with c d form row)

-- `PKCE_VERIFIER_PATTERN`: letters, digits and `._~-`, from 43 to 128 of them.
unfoldable pub is_verifier : Text → Bool
is_verifier verifier =
    leb 43 (length verifier)
    && leb (length verifier) 128
    && all
        (λ x.
          leb 65 x && leb x 90
          || leb 97 x && leb x 122
          || leb 48 x && leb x 57
          || eqb x b'.'
          || eqb x b'_'
          || eqb x b'~'
          || eqb x b'-')
        verifier

unfoldable pub redeem : Secrets → Draw → Option AuthorizationCode → Handler TokenResponse
unfolding issue_access_and_refresh_tokens scopes_from_scope_value
redeem c d none =
    raise_oauth "invalid_grant" "Authorization code is invalid, expired, or does not match request"
redeem c d (some row) =
    issue_access_and_refresh_tokens c d row.client_id row.owner_id row.resource
      (scopes_from_scope_value row.scope) none

-- `oauth_token`
unfoldable pub oauth_token : Secrets → Draw → Form → Handler TokenResponse
unfolding refresh_token_response is_verifier redeem
oauth_token c d form =
    if form.grant_type == codes "refresh_token"
    then refresh_token_response c d form
    else if not (form.grant_type == codes "authorization_code")
    then raise_oauth "unsupported_grant_type"
        "Only authorization_code and refresh_token are supported"
    else if not (is_verifier form.code_verifier)
    then raise_oauth "invalid_grant" "PKCE verification failed"
    else (do
      row ← call (
          consume_oauth_authorization_code c d.now form.code form.client_id form.redirect_uri
            (d.pkce_digest form.code_verifier))
      redeem c d row)

abbrev pub revoke_by_jti : Text → Option Text → Handler (Unit {0})
revoke_by_jti now none = return tt
revoke_by_jti now (some id) =
    if is_empty id then return tt else (do row ← call (revoke_auth_token now id); return tt)

-- `oauth_revoke`
unfoldable pub oauth_revoke : Secrets → Text → Text → Handler (Unit {0})
unfolding jwt_jti
oauth_revoke c now token = if is_empty token then return tt else (do
  revoked ← call (revoke_oauth_refresh_token c now token)
  if revoked then return tt else (do
    revoked₂ ← call (revoke_oauth_authorization_for_access_token c now token)
    if revoked₂ then return tt else revoke_by_jti now (jwt_jti c token)))
