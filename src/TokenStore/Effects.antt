-- ===== src/TokenStore/Effects.antt =====
-- What each operation of memory/backend/metadata_store.py does to the authorization codes, the
-- refresh tokens and the revoked families.
use ai_memory_hub.Base.{
  Text, ◌≡◌, refl, ap, ◌∙◌, sym, Bool, true, false, Option, none, some, arith, ◌&&◌, not, List, [],
  ◌∷◌, ◌++◌, if◌then◌else◌, any, find, update_where, Bool-cases, inl, inr, ok, raise, ◌>>=◌,
  ok-injective, raise-ne-ok, bind_elim, ◌==◌, text_eq, option_eq, leb, count_where,
}
use ai_memory_hub.TokenStore.Rows.{Store, AuthToken, AuthorizationCode, RefreshToken, is_null}
use ai_memory_hub.TokenStore.Validate.{
  Secrets, hash_bearer_token, validate_owner_id, validate_token_lookup, parse_token_scopes,
}
use ai_memory_hub.TokenStore.Access.{
  revoke_tokens, revoke_found, revoke_auth_token, context_of, grants, auth_context_for_token,
}
use ai_memory_hub.TokenStore.Codes.{
  active_client, create_oauth_client, create_oauth_authorization_code,
  consume_oauth_authorization_code, redeemable,
}
use ai_memory_hub.TokenStore.Refresh.{
  of_family, consumed, rotatable, record_family, revoke_authorization_of, revoke_family_of,
  oauth_refresh_token, consume_oauth_refresh_token, revoke_oauth_refresh_token_family,
  revoke_oauth_authorization_for_access_token, revoke_oauth_refresh_token, in_family_of,
  str_or_none,
}
use ai_memory_hub.TokenStore.Creation.{
  IsCreated, create_auth_token-SameOauth, create_oauth_refresh_token-IsCreated,
}
use ai_memory_hub.TokenStore.Steps.{Step}

-- `UPDATE oauth_refresh_tokens SET revoked_at`
abbrev pub revoked : Text → RefreshToken → RefreshToken
revoked now r = record r { revoked_at = some now }

abbrev pub spent : Text → AuthorizationCode → AuthorizationCode
spent now r = record r { consumed_at = some now }

pub data Effect (s t : Store) : Type 0 where
  same :
      t.codes ≡ s.codes → t.refresh_tokens ≡ s.refresh_tokens → t.families ≡ s.families → Effect s t
  add_code :
      (row : AuthorizationCode)
      → any (λ r. r.code_hash == row.code_hash) s.codes ≡ false
      → t.codes ≡ s.codes ++ row ∷ []
      → t.refresh_tokens ≡ s.refresh_tokens
      → t.families ≡ s.families
      → Effect s t
  spend_code :
      (now : Text) (p : AuthorizationCode → Bool)
      → t.codes ≡ update_where p (spent now) s.codes
      → t.refresh_tokens ≡ s.refresh_tokens
      → t.families ≡ s.families
      → Effect s t
  add_refresh : (row : RefreshToken) → IsCreated s row t → Effect s t
  spend_refresh :
      (now : Text) (p : RefreshToken → Bool)
      → t.codes ≡ s.codes
      → t.refresh_tokens ≡ update_where p (consumed now) s.refresh_tokens
      → t.families ≡ s.families
      → Effect s t
  revoke_some :
      (now : Text) (p : RefreshToken → Bool)
      → t.codes ≡ s.codes
      → t.refresh_tokens
        ≡ update_where (λ r. p r && is_null r.revoked_at) (revoked now) s.refresh_tokens
      → t.families ≡ s.families
      → Effect s t
  revoke_all :
      (now family : Text)
      → t.codes ≡ s.codes
      → t.refresh_tokens
        ≡ update_where
            (λ r. of_family family r && is_null r.revoked_at)
            (revoked now)
            s.refresh_tokens
      → t.families ≡ (record_family family s).families
      → Effect s t

context_of-Effect :
    (now : Text) (s t : Store) (hash : Text) (o : Option AuthToken)
    {found : Option ai_memory_hub.TokenStore.Access.AuthContextRow}
    → context_of now s hash o ≡ ok (found, t)
    → Effect s t
unfolding context_of
context_of-Effect now s t hash none h =
    let e = ap (λ r. r.1) (ok-injective h) in rw (← e) (same refl refl refl)
context_of-Effect now s t hash (some r) h =
    bind_elim (parse_token_scopes r.scopes) _ h
      λ scopes _ h₁. let e = ap (λ q. q.1) (ok-injective h₁) in rw (← e) (same refl refl refl)

revoke_found-Effect :
    (now : Text) (s t : Store) (o : Option AuthToken) {found : Option AuthToken}
    → revoke_found now s o ≡ ok (found, t)
    → Effect s t
unfolding revoke_found revoke_tokens
revoke_found-Effect now s t none h =
    let e = ap (λ r. r.1) (ok-injective h) in rw (← e) (same refl refl refl)
revoke_found-Effect now s t (some r) h =
    let e = ap (λ q. q.1) (ok-injective h) in rw (← e) (same refl refl refl)

pub record_family_keeps :
    (f : Text) (s : Store)
    → ((record_family f s).codes ≡ s.codes)
      × ((record_family f s).refresh_tokens ≡ s.refresh_tokens)
unfolding record_family
record_family_keeps f s = ground arith

revoke_family-Effect :
    (now family : Text) (s t : Store) {b : Bool}
    → revoke_oauth_refresh_token_family now family s ≡ ok (b, t)
    → Effect s t
unfolding revoke_oauth_refresh_token_family
revoke_family-Effect now family s t h = bind_elim (validate_token_lookup family) _ h λ f _ h₁.
    rw (← ap (λ q. q.1) (ok-injective h₁)) (
      revoke_all now f (record_family_keeps f s).0
        (ap (λ l. update_where (λ r. of_family f r && is_null r.revoked_at) (revoked now) l)
          (record_family_keeps f s).1)
        refl)

revoke_authorization-Effect :
    (now hash : Text) (s : Store) (o : Option AuthToken)
    → Effect s (revoke_authorization_of now hash s o).1
unfolding revoke_authorization_of
revoke_authorization-Effect now hash s none = same refl refl refl
revoke_authorization-Effect now hash s (some t) =
    elim (Bool-cases
      (any (λ r. r.access_token_id == some (str_or_none t.token_id)) s.refresh_tokens)) [
        | inl linked ↦
            rw linked (revoke_some now (in_family_of (str_or_none t.token_id) s) refl refl refl)
        | inr alone ↦ rw alone (same refl refl refl)
      ]

revoke_refresh-Effect :
    (now : Text) (s t : Store) (o : Option RefreshToken) {b : Bool}
    → revoke_family_of now s o ≡ ok (b, t)
    → Effect s t
unfolding revoke_family_of
revoke_refresh-Effect now s t none h = rw (← ap (λ q. q.1) (ok-injective h)) (same refl refl refl)
revoke_refresh-Effect now s t (some r) h = revoke_family-Effect now r.token_family_id s t h

create_client-Effect :
    (now id name : Text) (uris : List Text) (expires : Text) (quota : ai_memory_hub.Base.ℕ)
    (s t : Store) {row : ai_memory_hub.TokenStore.Rows.OauthClient}
    → create_oauth_client now id name uris expires quota s ≡ ok (row, t)
    → Effect s t
unfolding create_oauth_client
create_client-Effect now id name uris expires quota s t h =
    bind_elim (validate_token_lookup id) _ h λ handle _ h₁.
      elim (Bool-cases (leb quota (count_where (active_client now) s.clients))) [
        | inl full ↦ absurd (raise-ne-ok (rw full at h₁))
        | inr room ↦ rw (← ap (λ q. q.1) (ok-injective (rw room at h₁))) (same refl refl refl)
      ]

create_code-Effect :
    (c : Secrets) (code client owner uri challenge resource scope expires : Text) (s t : Store)
    → create_oauth_authorization_code c code client owner uri challenge resource scope expires s
      ≡ ok t
    → Effect s t
unfolding create_oauth_authorization_code
create_code-Effect c code client owner uri challenge resource scope expires s t h =
    bind_elim (hash_bearer_token c code) _ h λ hash _ h₁.
      bind_elim (validate_token_lookup client) _ h₁ λ client' _ h₂.
        bind_elim (validate_owner_id owner) _ h₂ λ owner' _ h₃.
          elim (Bool-cases (any (λ r. r.code_hash == hash) s.codes)) [
            | inl taken ↦ absurd (raise-ne-ok (rw taken at h₃))
            | inr free ↦ rw (← ok-injective (rw free at h₃)) (
                add_code
                  (record {
                    code_hash = hash;
                    client_id = client';
                    owner_id = owner';
                    redirect_uri = uri;
                    code_challenge = challenge;
                    resource = resource;
                    scope = scope;
                    expires_at = expires;
                    consumed_at = none;
                  })
                  free refl refl refl)
          ]

consume_code-Effect :
    (c : Secrets) (now code client uri challenge : Text) (s t : Store)
    {found : Option AuthorizationCode}
    → consume_oauth_authorization_code c now code client uri challenge s ≡ ok (found, t)
    → Effect s t
unfolding consume_oauth_authorization_code
consume_code-Effect c now code client uri challenge s t h =
    bind_elim (hash_bearer_token c code) _ h λ hash _ h₁.
      rw (← ap (λ q. q.1) (ok-injective h₁))
        (spend_code now (redeemable now hash client uri challenge) refl refl refl)

consume_refresh-Effect :
    (c : Secrets) (now token : Text) (s t : Store) {found : Option RefreshToken}
    → consume_oauth_refresh_token c now token s ≡ ok (found, t)
    → Effect s t
unfolding consume_oauth_refresh_token
consume_refresh-Effect c now token s t h = bind_elim (hash_bearer_token c token) _ h λ hash _ h₁.
    rw (← ap (λ q. q.1) (ok-injective h₁)) (spend_refresh now (rotatable now hash) refl refl refl)

-- Every operation has one of the effects.
pub Step-Effect : (c : Secrets) (s t : Store) → Step c s t → Effect s t
unfolding auth_context_for_token revoke_auth_token revoke_oauth_authorization_for_access_token
    revoke_oauth_refresh_token
Step-Effect c s t (Step.create_token i o k d td e sc row h) =
    let kept = create_auth_token-SameOauth c i o k d td e sc s h in
    same kept.codes kept.refresh_tokens kept.families
Step-Effect c s t (Step.use_token now token found h) =
    bind_elim (hash_bearer_token c token) _ h λ hash _ h₁. context_of-Effect now s t hash _ h₁
Step-Effect c s t (Step.revoke_token now id found h) =
    bind_elim (validate_token_lookup id) _ h λ handle _ h₁. revoke_found-Effect now s t _ h₁
Step-Effect c s t (Step.create_client now i n u e q row h) =
    create_client-Effect now i n u e q s t h
Step-Effect c s t (Step.create_code k cl o u ch r sc e h) =
    create_code-Effect c k cl o u ch r sc e s t h
Step-Effect c s t (Step.consume_code now k cl u ch found h) =
    consume_code-Effect c now k cl u ch s t h
Step-Effect c s t (Step.create_refresh n ni k f cl o sc r a e row h) =
    add_refresh row (create_oauth_refresh_token-IsCreated c n ni k f cl o sc r a e s h)
Step-Effect c s t (Step.consume_refresh now k found h) = consume_refresh-Effect c now k s t h
Step-Effect c s t (Step.revoke_family now f b h) = revoke_family-Effect now f s t h
Step-Effect c s t (Step.revoke_authorization now k b h) =
    bind_elim (hash_bearer_token c k) _ h
      λ hash _ h₁. rw (← ap (λ q. q.1) (ok-injective h₁)) (revoke_authorization-Effect now hash s _)
Step-Effect c s t (Step.revoke_refresh now k b h) =
    bind_elim (oauth_refresh_token c k s) _ h λ found _ h₁. revoke_refresh-Effect now s t found h₁
