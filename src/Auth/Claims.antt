-- ===== src/Auth/Claims.antt =====
-- The claims of an access token: `validate_oauth_access_token` of memory/auth.py and what it calls.
use ai_memory_hub.Base.{
  ℕ, Text, ℤ, to_ℕ, Bool, true, false, ◌&&◌, ◌||◌, not, Option, none, some, List, any, ltb, leb,
  is_empty, if◌then◌else◌, ◌==◌, text_eq, option_eq, strip,
}

-- The claims that the code reads of the payload. `exp` and `nbf` hold a value that is an `int`;
-- `aud` and `resource` hold the texts of the claim, one or a list; `scopes` is the result of
-- `_scopes_from_claims`.
pub record Payload : Type 0 where
  pub exp : Option ℤ
  pub nbf : Option ℤ
  pub iss : Option Text
  pub sub : Option Text
  pub jti : Option Text
  pub aud : List Text
  pub resource : List Text
  pub scopes : List Text

-- The settings of `HubConfig` that the code reads. `decode` is `_decode_hs256_jwt` with the secret:
-- HMAC, base64 and JSON are the standard library's.
pub data AuthMode : Type 0 where
  bearer_token oauth_resource_server : AuthMode

pub record Config : Type 0 where
  pub auth : AuthMode
  pub issuer : Text
  pub resource : Text
  pub public_base_url : Text
  pub decode : Text → Option Payload

pub record AccessTokenClaims : Type 0 where
  pub owner_id : Text
  pub token_id : Option Text
  pub scopes : List Text
  pub issuer : Option Text

-- `exp <= now` and `nbf > now` for a clock that is not negative.
abbrev pub lives_until : ℕ → Option ℤ → Bool
lives_until now none = false
lives_until now (some exp) = ltb now (to_ℕ exp)

abbrev pub begun_at : ℕ → Option ℤ → Bool
begun_at now none = true
begun_at now (some nbf) = leb (to_ℕ nbf) now

unfoldable pub validate_time_claims : ℕ → Payload → Bool
validate_time_claims now claims = lives_until now claims.exp && begun_at now claims.nbf

unfoldable pub claim_matches_resource : Payload → Text → Bool
claim_matches_resource claims resource =
    any (λ x. x == resource) claims.aud || any (λ x. x == resource) claims.resource

-- `isinstance(owner_id, str) and owner_id.strip()`
abbrev pub subject_of : Option Text → Option Text
subject_of none = none
subject_of (some sub) = let owner = strip sub in if is_empty owner then none else some owner

abbrev pub claims_of : Payload → Option Text → Option AccessTokenClaims
claims_of claims none = none
claims_of claims (some owner) = some (record {
  owner_id = owner;
  token_id = claims.jti;
  scopes = claims.scopes;
  issuer = claims.iss;
})

unfoldable pub checked_claims : Config → ℕ → Option Payload → Option AccessTokenClaims
unfolding validate_time_claims claim_matches_resource
checked_claims config now none = none
checked_claims config now (some claims) =
    if not (validate_time_claims now claims)
    then none
    else if not (is_empty config.issuer) && not (claims.iss == some config.issuer)
    then none
    else if not (claim_matches_resource claims config.resource)
    then none
    else claims_of claims (subject_of claims.sub)

unfoldable pub validate_oauth_access_token : Config → ℕ → Text → Option AccessTokenClaims
unfolding checked_claims
validate_oauth_access_token config now token = checked_claims config now (config.decode token)

-- `public_base_url.rstrip("/")` is kept as the setting.
unfoldable pub is_hub_issued_claim : AccessTokenClaims → Config → Bool
is_hub_issued_claim claims config =
    not (is_empty config.public_base_url) && claims.issuer == some config.public_base_url
