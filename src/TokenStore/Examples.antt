-- ===== src/TokenStore/Examples.antt =====
-- Runs of the token store, and the theorems about it at concrete inputs.
mod Revocations
use ai_memory_hub.Base.{
  Text, ◌≡◌, ◌≢◌, refl, true, false, none, some, [], ◌∷◌, ◌++◌, codes, ok, find, update_where,
  text_beq, text_ltb, strip,
}
use ai_memory_hub.TokenStore.Rows.{Store, User, AuthToken, AuthorizationCode, RefreshToken}
use ai_memory_hub.TokenStore.Validate.{
  Secrets, hash_bearer_token, validate_token_lookup, parse_token_scopes, normalize_token_scopes,
}
use ai_memory_hub.TokenStore.Access.{AuthContextRow, auth_context_for_token, revoke_auth_token}
use ai_memory_hub.TokenStore.Codes.{consume_oauth_authorization_code}
use ai_memory_hub.TokenStore.Refresh.{
  consume_oauth_refresh_token, revoke_oauth_refresh_token_family,
}
use ai_memory_hub.TokenStore.Validate.{validate_owner_id}
use ai_memory_hub.TokenStore.Projects.{add_user, ensure_default_project}
use ai_memory_hub.TokenStore.Refresh.{
  create_oauth_refresh_token, revoke_oauth_authorization_for_access_token,
}
use ai_memory_hub.TokenStore.Reopening.{revoke_authorization_reopens}
use ai_memory_hub.TokenStore.Steps.{Step, Reach}
use ai_memory_hub.TokenStore.SingleUse.{
  HasKeys, Reach-HasKeys, consume_code_once, consume_refresh_once,
}
use ai_memory_hub.TokenStore.Families.{issued_in, revoke_family_final, revoke_family_access}
use ai_memory_hub.TokenStore.Expiry.{
  sql_time, iso_time, revoke_auth_token_ends, same_day_authenticates,
}

abbrev pub plain : Secrets
plain = record { bearer_digest = λ t. t; project_digest = λ t. t; payload_jti = λ _. none }

abbrev pub stored : Text → Text
stored token = codes "pbkdf2-sha256:" ++ token

abbrev pub noon : Text
noon = sql_time (codes "2026-03-01") (codes "12:00:00")

abbrev pub tomorrow : Text
tomorrow = iso_time (codes "2026-03-02") (codes "09:00:00+00:00")

abbrev pub alice : User
alice = record { id = codes "alice"; display_name = none; disabled_at = none }

abbrev pub a_code : AuthorizationCode
a_code = record {
  code_hash = stored (codes "k1");
  client_id = codes "cl";
  owner_id = codes "alice";
  redirect_uri = codes "u";
  code_challenge = codes "ch";
  resource = codes "r";
  scope = codes "memory:read";
  expires_at = tomorrow;
  consumed_at = none;
}

abbrev pub refresh_in : Text → Text → Text → RefreshToken
refresh_in token family access = record {
  refresh_token_hash = stored token;
  token_family_id = family;
  client_id = codes "cl";
  owner_id = codes "alice";
  scopes = codes "memory:read" ∷ [];
  resource = codes "r";
  access_token_id = some access;
  expires_at = tomorrow;
  consumed_at = none;
  revoked_at = none;
}

abbrev pub bearer : Text → Text → Text → AuthToken
bearer token id expires = record {
  token_hash = stored token;
  token_id = some id;
  owner_id = codes "alice";
  display_name = none;
  token_prefix = token;
  scopes = some (codes "memory:read" ∷ []);
  last_used_at = none;
  expires_at = some expires;
  revoked_at = none;
}

abbrev pub hub : Store
hub = record {
  users = alice ∷ [];
  projects = [];
  memberships = [];
  auth_tokens =
      bearer (codes "b1") (codes "tok_1") tomorrow
      ∷ bearer (codes "b2") (codes "tok_2") tomorrow
      ∷ [];
  sessions = [];
  clients = [];
  codes = a_code ∷ [];
  refresh_tokens =
      refresh_in (codes "r1") (codes "f1") (codes "tok_1")
      ∷ refresh_in (codes "r2") (codes "f2") (codes "tok_2")
      ∷ [];
  families = [];
}

pub hub-HasKeys : HasKeys hub
unfolding text_beq
hub-HasKeys = record { codes = (refl, tt); refresh_tokens = (refl, (refl, tt)) }

abbrev redeemed : Store
redeemed = record hub { codes = record a_code { consumed_at = some noon } ∷ [] }

redeem_k1 :
    consume_oauth_authorization_code plain noon
      (codes "k1")
      (codes "cl")
      (codes "u")
      (codes "ch")
      hub
    ≡ ok (some a_code, redeemed)
unfolding consume_oauth_authorization_code hash_bearer_token find update_where text_beq text_ltb
redeem_k1 = refl

consume_code_once_example :
    consume_oauth_authorization_code plain noon
      (codes "k1")
      (codes "other")
      (codes "u")
      (codes "ch")
      redeemed
    ≡ ok (none, redeemed)
consume_code_once_example =
    consume_code_once plain hub redeemed redeemed noon (codes "k1") (codes "cl") (codes "u")
      (codes "ch") a_code hub-HasKeys redeem_k1 Reach.here noon (codes "other") (codes "u")
      (codes "ch")

Reach-HasKeys_example : HasKeys redeemed
Reach-HasKeys_example =
    Reach-HasKeys plain hub redeemed
      (Reach.next Reach.here (
        Step.consume_code noon (codes "k1") (codes "cl") (codes "u") (codes "ch") (some a_code)
          redeem_k1))
      hub-HasKeys

abbrev pub rotated : Store
rotated = record hub {
  refresh_tokens =
      record (refresh_in (codes "r1") (codes "f1") (codes "tok_1")) { consumed_at = some noon }
      ∷ refresh_in (codes "r2") (codes "f2") (codes "tok_2")
      ∷ [];
}

abbrev pub rotated_row : RefreshToken
rotated_row = record (refresh_in (codes "r1") (codes "f1") (codes "tok_1")) {
  consumed_at = some noon;
}

rotate_r1 : consume_oauth_refresh_token plain noon (codes "r1") hub ≡ ok (some rotated_row, rotated)
unfolding consume_oauth_refresh_token hash_bearer_token find update_where text_beq text_ltb
rotate_r1 = refl

consume_refresh_once_example :
    consume_oauth_refresh_token plain noon (codes "r1") rotated ≡ ok (none, rotated)
consume_refresh_once_example =
    consume_refresh_once plain hub rotated rotated noon (codes "r1") rotated_row hub-HasKeys
      rotate_r1 Reach.here noon
