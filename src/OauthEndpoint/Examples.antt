-- ===== src/OauthEndpoint/Examples.antt =====
-- Runs of the endpoints, and the theorems about them at concrete inputs.
use ai_memory_hub.Base.{
  Text, ◌≡◌, ◌≢◌, refl, none, some, List, [], ◌∷◌, ◌++◌, codes, ok, find, update_where, text_beq,
  text_ltb, strip, true, is_space,
}
use ai_memory_hub.TokenStore.Rows.{Store, RefreshToken}
use ai_memory_hub.TokenStore.Validate.{
  validate_token_lookup, hash_bearer_token, validate_owner_id, normalize_token_scopes,
  token_id_from_bearer_token, dots,
}
use ai_memory_hub.TokenStore.Projects.{ensure_default_project, upsert_user, add_user}
use ai_memory_hub.TokenStore.Access.{create_auth_token}
use ai_memory_hub.TokenStore.Codes.{consume_oauth_authorization_code}
use ai_memory_hub.TokenStore.Refresh.{
  oauth_refresh_token, consume_oauth_refresh_token, create_oauth_refresh_token,
  revoke_oauth_refresh_token_family,
}
use ai_memory_hub.TokenStore.Families.{IsClosed}
use ai_memory_hub.TokenStore.Steps.{Reach}
use ai_memory_hub.TokenStore.Examples.{
  plain, noon, tomorrow, refresh_in, hub, hub-HasKeys, rotated, rotated_row,
}
use ai_memory_hub.OauthEndpoint.Handler.{done, oauth_error, ◌>>=◌, return, call, look, raise_oauth}
use ai_memory_hub.OauthEndpoint.Grants.{
  Draw, Form, TokenResponse, refresh_token_response, oauth_token, except_revoke,
  revoke_failed_access_token,
}
use ai_memory_hub.OauthEndpoint.Answers.{refresh_answers_once, code_answers_once}
use ai_memory_hub.OauthEndpoint.Reuse.{refresh_reuse_refused, refresh_reuse_final}

abbrev draw : Draw
draw = record {
  now = noon;
  now_iso = tomorrow;
  is_expired = λ _. ai_memory_hub.Base.false;
  issued_token = codes "b9";
  new_id = codes "tok_9";
  new_refresh_token = codes "r9";
  new_family = codes "f9";
  access_expires_at = tomorrow;
  refresh_expires_at = tomorrow;
  pkce_digest = λ _. codes "ch";
}

abbrev refresh_form : Text → Form
refresh_form token = record {
  grant_type = codes "refresh_token";
  code = [];
  code_verifier = [];
  redirect_uri = [];
  client_id = codes "cl";
  refresh_token = token;
}

abbrev code_form : Form
code_form = record {
  grant_type = codes "authorization_code";
  code = codes "k1";
  code_verifier = codes "0123456789012345678901234567890123456789012";
  redirect_uri = codes "u";
  client_id = codes "cl";
  refresh_token = [];
}

abbrev answer : TokenResponse
answer = record {
  access_token = codes "b9";
  refresh_token = codes "r9";
  scope = codes "memory:read" ∷ [];
  resource = codes "r";
  jti = codes "tok_9";
}

abbrev hub_refreshed : Store
hub_refreshed = (refresh_token_response plain draw (refresh_form (codes "r1")) hub).1

refreshes :
    refresh_token_response plain draw (refresh_form (codes "r1")) hub ≡ (done answer, hub_refreshed)
unfolding refresh_token_response ◌>>=◌ call look return except_revoke revoke_failed_access_token
    raise_oauth oauth_refresh_token consume_oauth_refresh_token create_oauth_refresh_token
    create_auth_token hash_bearer_token validate_owner_id validate_token_lookup
    normalize_token_scopes token_id_from_bearer_token dots ensure_default_project upsert_user
    add_user find update_where text_beq text_ltb strip is_space
refreshes = refl

abbrev hub_redeemed : Store
hub_redeemed = (oauth_token plain draw code_form hub).1

redeems : oauth_token plain draw code_form hub ≡ (done answer, hub_redeemed)
unfolding oauth_token ◌>>=◌ call look return except_revoke revoke_failed_access_token raise_oauth
    consume_oauth_authorization_code create_oauth_refresh_token create_auth_token hash_bearer_token
    validate_owner_id validate_token_lookup normalize_token_scopes token_id_from_bearer_token dots
    ensure_default_project upsert_user add_user find update_where text_beq text_ltb strip is_space
redeems = refl

refresh_answers_once_example :
    refresh_token_response plain draw (refresh_form (codes "r1")) hub_refreshed ≢ (done answer, hub)
refresh_answers_once_example =
    refresh_answers_once plain hub hub_refreshed hub_refreshed hub draw draw
      (refresh_form (codes "r1")) (refresh_form (codes "r1")) answer answer hub-HasKeys refreshes
      Reach.here refl

code_answers_once_example : oauth_token plain draw code_form hub_redeemed ≢ (done answer, hub)
code_answers_once_example =
    code_answers_once plain hub hub_redeemed hub_redeemed hub draw draw code_form code_form answer
      answer hub-HasKeys refl refl redeems Reach.here refl

reused_row : oauth_refresh_token plain (codes "r1") rotated ≡ ok (some rotated_row)
unfolding oauth_refresh_token hash_bearer_token find text_beq
reused_row = refl

named_f1 : validate_token_lookup (codes "f1") ≡ ok (codes "f1")
unfolding validate_token_lookup strip
named_f1 = refl

abbrev hub_reused : Store
hub_reused = (refresh_token_response plain draw (refresh_form (codes "r1")) rotated).1

refresh_reuse_refused_example :
    ((refresh_token_response plain draw (refresh_form (codes "r1")) rotated).0
      ≡ oauth_error "invalid_grant" "Refresh token is invalid")
    × IsClosed (codes "f1") hub_reused
refresh_reuse_refused_example =
    refresh_reuse_refused plain draw (refresh_form (codes "r1")) rotated rotated_row reused_row refl
      refl named_f1

abbrev other_row : RefreshToken
other_row = record (refresh_in (codes "r2") (codes "f2") (codes "tok_2")) {
  consumed_at = some noon;
}

abbrev hub_after : Store
hub_after = record hub_reused {
  refresh_tokens = record rotated_row { revoked_at = some noon } ∷ other_row ∷ [];
}

rotate_other :
    consume_oauth_refresh_token plain noon (codes "r2") hub_reused ≡ ok (some other_row, hub_after)
unfolding refresh_token_response ◌>>=◌ call look raise_oauth oauth_refresh_token
    consume_oauth_refresh_token revoke_oauth_refresh_token_family validate_token_lookup
    hash_bearer_token find update_where text_beq text_ltb strip
rotate_other = refl

refresh_reuse_final_example : codes "f2" ≢ codes "f1"
refresh_reuse_final_example =
    refresh_reuse_final plain draw (refresh_form (codes "r1")) rotated hub_reused hub_after
      rotated_row other_row noon (codes "r2") reused_row refl refl named_f1 Reach.here rotate_other
