-- ===== src/TokenStore/Reopening.antt =====
-- Revocation by access token in memory/backend/metadata_store.py, and a rotation that is under way.
use ai_memory_hub.Base.{
  Text, ◌≡◌, refl, ap, ◌∙◌, Bool, true, false, Option, none, some, List, any, ok, ok-injective,
  bind_elim, Bool-cases, inl, inr, ◌==◌, text_eq, option_eq,
}
use ai_memory_hub.TokenStore.Rows.{Store, AuthToken, RefreshToken}
use ai_memory_hub.TokenStore.Validate.{Secrets, hash_bearer_token}
use ai_memory_hub.TokenStore.Refresh.{
  has_family, str_or_none, revoke_authorization_of, revoke_oauth_authorization_for_access_token,
  create_oauth_refresh_token,
}
use ai_memory_hub.TokenStore.Creation.{create_oauth_refresh_token-IsCreated}

revoke_authorization_of-families :
    (now hash : Text) (s : Store) (o : Option AuthToken)
    → (revoke_authorization_of now hash s o).1.families ≡ s.families
unfolding revoke_authorization_of
revoke_authorization_of-families now hash s none = refl
revoke_authorization_of-families now hash s (some t) =
    elim (Bool-cases
      (any (λ r. r.access_token_id == some (str_or_none t.token_id)) s.refresh_tokens)) [
        | inl linked ↦ rw linked refl
        | inr alone ↦ rw alone refl
      ]

revoke_authorization-families :
    (c : Secrets) (now token : Text) (s t : Store) {b : Bool}
    → revoke_oauth_authorization_for_access_token c now token s ≡ ok (b, t)
    → t.families ≡ s.families
unfolding revoke_oauth_authorization_for_access_token
revoke_authorization-families c now token s t h =
    bind_elim (hash_bearer_token c token) _ h λ hash _ h₁.
      rw (← ap (λ q. q.1) (ok-injective h₁)) (revoke_authorization_of-families now hash s _)

-- After `revoke_oauth_authorization_for_access_token` revoked the authorization of an access token,
-- a refresh token that is created next in a family that was not recorded as revoked before, which
-- may be the family just revoked, is not revoked.
pub revoke_authorization_reopens :
    (c : Secrets) (now token : Text) (s t u : Store) (now' now_iso fresh family client owner : Text)
    (scopes : List Text) (resource : Text) (access : Option Text) (expires : Text)
    (row : RefreshToken)
    → revoke_oauth_authorization_for_access_token c now token s ≡ ok (true, t)
    → create_oauth_refresh_token c now' now_iso fresh family client owner scopes resource access
        expires t
      ≡ ok (row, u)
    → has_family row.token_family_id s ≡ false
    → row.revoked_at ≡ none
revoke_authorization_reopens c now token s t u now' now_iso fresh family client owner scopes
      resource access expires row revoked created open_family =
    (create_oauth_refresh_token-IsCreated c now' now_iso fresh family client owner scopes resource
        access expires t created).born_live
      (ap (λ l. any (λ f. f == row.token_family_id) l)
          (revoke_authorization-families c now token s t revoked)
        ∙ open_family)
