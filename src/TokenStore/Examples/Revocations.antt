-- ===== src/TokenStore/Examples/Revocations.antt =====
-- Revocations of tokens and of families, and the properties about them at concrete stores.
use ai_memory_hub.Base.{
  ◌≡◌, ◌≢◌, refl, true, false, none, some, [], ◌∷◌, ◌++◌, codes, ok, find, update_where, text_beq,
  text_ltb, strip,
}
use ai_memory_hub.TokenStore.Rows.{Store, AuthToken, RefreshToken}
use ai_memory_hub.TokenStore.Validate.{
  hash_bearer_token, validate_token_lookup, parse_token_scopes, normalize_token_scopes,
}
use ai_memory_hub.TokenStore.Access.{AuthContextRow, auth_context_for_token, revoke_auth_token}
use ai_memory_hub.TokenStore.Refresh.{
  consume_oauth_refresh_token, revoke_oauth_refresh_token_family,
}
use ai_memory_hub.TokenStore.Validate.{validate_owner_id}
use ai_memory_hub.TokenStore.Projects.{add_user, ensure_default_project}
use ai_memory_hub.TokenStore.Refresh.{
  create_oauth_refresh_token, revoke_oauth_authorization_for_access_token,
}
use ai_memory_hub.TokenStore.Reopening.{revoke_authorization_reopens}
use ai_memory_hub.TokenStore.Steps.{Reach}
use ai_memory_hub.TokenStore.Families.{issued_in, revoke_family_final, revoke_family_access}
use ai_memory_hub.TokenStore.Expiry.{
  sql_time, iso_time, revoke_auth_token_ends, same_day_authenticates,
}
use ai_memory_hub.TokenStore.Examples.{
  plain, stored, noon, tomorrow, refresh_in, bearer, hub, rotated, rotated_row,
}

abbrev shut : Store
shut = record hub {
  auth_tokens =
      bearer (codes "b1") (codes "tok_1") tomorrow
      ∷ record (bearer (codes "b2") (codes "tok_2") tomorrow) { revoked_at = some noon }
      ∷ [];
  refresh_tokens =
      refresh_in (codes "r1") (codes "f1") (codes "tok_1")
      ∷ record (refresh_in (codes "r2") (codes "f2") (codes "tok_2")) { revoked_at = some noon }
      ∷ [];
  families = codes "f2" ∷ [];
}

shut_f2 : revoke_oauth_refresh_token_family noon (codes "f2") hub ≡ ok (true, shut)
unfolding revoke_oauth_refresh_token_family validate_token_lookup strip update_where text_beq
shut_f2 = refl

abbrev shut_rotated : Store
shut_rotated = record shut {
  refresh_tokens =
      rotated_row
      ∷ record (refresh_in (codes "r2") (codes "f2") (codes "tok_2")) { revoked_at = some noon }
      ∷ [];
}

rotate_shut :
    consume_oauth_refresh_token plain noon (codes "r1") shut ≡ ok (some rotated_row, shut_rotated)
unfolding consume_oauth_refresh_token hash_bearer_token find update_where text_beq text_ltb
rotate_shut = refl

revoke_family_final_example : validate_token_lookup (codes "f2") ≢ ok (codes "f1")
revoke_family_final_example =
    revoke_family_final plain hub shut shut shut_rotated noon (codes "f2") true noon (codes "r1")
      rotated_row shut_f2 Reach.here rotate_shut

abbrev shut_used : Store
shut_used = record shut {
  auth_tokens =
      record (bearer (codes "b1") (codes "tok_1") tomorrow) { last_used_at = some noon }
      ∷ record (bearer (codes "b2") (codes "tok_2") tomorrow) { revoked_at = some noon }
      ∷ [];
}

abbrev alice_reads : AuthContextRow
alice_reads = record {
  owner_id = codes "alice";
  token_id = some (codes "tok_1");
  scopes = codes "memory:read" ∷ [];
}

use_b1 : auth_context_for_token plain noon (codes "b1") shut ≡ ok (some alice_reads, shut_used)
unfolding auth_context_for_token parse_token_scopes normalize_token_scopes strip hash_bearer_token
    find update_where text_beq text_ltb
use_b1 = refl

named_f2 : validate_token_lookup (codes "f2") ≡ ok (codes "f2")
unfolding validate_token_lookup strip
named_f2 = refl

revoke_family_access_example : issued_in (codes "f2") hub (some (codes "tok_1")) ≡ false
revoke_family_access_example =
    revoke_family_access plain hub shut shut_used noon (codes "f2") (codes "f2") true noon
      (codes "b1") alice_reads named_f2 shut_f2 use_b1

abbrev b2_revoked : AuthToken
b2_revoked = record (bearer (codes "b2") (codes "tok_2") tomorrow) { revoked_at = some noon }

abbrev b2_ended : Store
b2_ended = record hub {
  auth_tokens = bearer (codes "b1") (codes "tok_1") tomorrow ∷ b2_revoked ∷ [];
}

revoke_b2 : revoke_auth_token noon (codes "tok_2") hub ≡ ok (some b2_revoked, b2_ended)
unfolding revoke_auth_token validate_token_lookup strip find update_where text_beq
revoke_b2 = refl

hash_b2 : hash_bearer_token plain (codes "b2") ≡ ok (stored (codes "b2"))
unfolding hash_bearer_token
hash_b2 = refl

revoke_auth_token_ends_example :
    auth_context_for_token plain noon (codes "b2") b2_ended ≡ ok (none, b2_ended)
revoke_auth_token_ends_example =
    revoke_auth_token_ends plain hub b2_ended noon (codes "tok_2") b2_revoked noon (codes "b2")
      revoke_b2 hash_b2

-- The token expired at nine, and it is used at a minute to midnight.
abbrev expired_hub : Store
expired_hub = record hub {
  auth_tokens =
      bearer (codes "b1") (codes "tok_1") (iso_time (codes "2026-03-01") (codes "09:00:00+00:00"))
      ∷ [];
}

same_day_authenticates_example :
    (t : Store) × (auth_context_for_token plain
        (sql_time (codes "2026-03-01") (codes "23:59:00"))
        (codes "b1")
        expired_hub
      ≡ ok (some alice_reads, t))
unfolding hash_bearer_token parse_token_scopes normalize_token_scopes strip text_beq text_ltb
same_day_authenticates_example =
    same_day_authenticates plain expired_hub
      (bearer (codes "b1") (codes "tok_1") (iso_time (codes "2026-03-01") (codes "09:00:00+00:00")))
      [] (codes "memory:read" ∷ []) (codes "2026-03-01") (codes "09:00:00+00:00") (codes "23:59:00")
      (codes "b1") refl refl refl refl refl refl

-- The access token `b1` of family `f1` is revoked while its refresh token `r1` is being rotated.
abbrev hub_unauthorized : Store
hub_unauthorized = record rotated {
  auth_tokens =
      record (bearer (codes "b1") (codes "tok_1") tomorrow) { revoked_at = some noon }
      ∷ bearer (codes "b2") (codes "tok_2") tomorrow
      ∷ [];
  refresh_tokens =
      record rotated_row { revoked_at = some noon }
      ∷ refresh_in (codes "r2") (codes "f2") (codes "tok_2")
      ∷ [];
}

revoke_b1 :
    revoke_oauth_authorization_for_access_token plain noon (codes "b1") rotated
    ≡ ok (true, hub_unauthorized)
unfolding revoke_oauth_authorization_for_access_token hash_bearer_token find update_where text_beq
revoke_b1 = refl

abbrev successor : RefreshToken
successor = refresh_in (codes "r3") (codes "f1") (codes "tok_3")

abbrev hub_reopened : Store
hub_reopened = record hub_unauthorized {
  projects =
      record {
        id = codes "private-alice";
        owner_id = some (codes "alice");
        name = codes "Private Default";
        description = none;
        is_default = true;
        archived_at = none;
      }
      ∷ [];
  memberships =
      record { project_id = codes "private-alice"; user_id = codes "alice"; role = codes "admin" }
      ∷ [];
  refresh_tokens = hub_unauthorized.refresh_tokens ++ successor ∷ [];
}

succeed :
    create_oauth_refresh_token plain noon noon
      (codes "r3")
      (codes "f1")
      (codes "cl")
      (codes "alice")
      (codes "memory:read" ∷ [])
      (codes "r")
      (some (codes "tok_3"))
      tomorrow
      hub_unauthorized
    ≡ ok (successor, hub_reopened)
unfolding create_oauth_refresh_token hash_bearer_token validate_token_lookup validate_owner_id
    normalize_token_scopes ensure_default_project add_user find update_where text_beq text_ltb strip
succeed = refl

revoke_authorization_reopens_example : successor.revoked_at ≡ none
unfolding text_beq
revoke_authorization_reopens_example =
    revoke_authorization_reopens plain noon (codes "b1") rotated hub_unauthorized hub_reopened noon
      noon (codes "r3") (codes "f1") (codes "cl") (codes "alice") (codes "memory:read" ∷ [])
      (codes "r") (some (codes "tok_3")) tomorrow successor revoke_b1 succeed refl
