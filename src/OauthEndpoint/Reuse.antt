-- ===== src/OauthEndpoint/Reuse.antt =====
-- A refresh token that comes back to memory/api/oauth_authorization.py after its use.
use ai_memory_hub.Base.{
  Text, ◌≡◌, ◌≢◌, refl, ap, sym, ◌∙◌, subst, Bool, true, false, ◌||◌, not, Option, some, [], ◌∷◌,
  ok, raise-ne-ok, text_eq, text_beq_iff, is_empty,
}
use ai_memory_hub.TokenStore.Rows.{Store, RefreshToken, is_null}
use ai_memory_hub.TokenStore.Validate.{Secrets, hash_bearer_token, validate_token_lookup}
use ai_memory_hub.TokenStore.Refresh.{
  oauth_refresh_token, consume_oauth_refresh_token, revoke_oauth_refresh_token_family,
}
use ai_memory_hub.TokenStore.Families.{IsClosed, revoke_family-IsClosed, revoke_family_final}
use ai_memory_hub.TokenStore.Steps.{Reach}
use ai_memory_hub.OauthEndpoint.Handler.{oauth_error, ◌>>=◌, raise_oauth, call, look}
use ai_memory_hub.OauthEndpoint.Grants.{
  Draw, Form, refuse_reuse, refresh_with, refresh_token_response,
}

looked_up-not_empty :
    (c : Secrets) (token : Text) (s : Store) {r : Option RefreshToken}
    → oauth_refresh_token c token s ≡ ok r
    → is_empty token ≡ false
unfolding oauth_refresh_token hash_bearer_token
looked_up-not_empty c [] s h = absurd (raise-ne-ok h)
looked_up-not_empty c (x ∷ token) s h = refl

-- The revocation of a family with a valid name goes through.
revoke_family_runs :
    (now family f : Text) (s : Store)
    → validate_token_lookup family ≡ ok f
    → (changed : Bool) × (t : Store) × (revoke_oauth_refresh_token_family now family s
        ≡ ok (changed, t))
unfolding revoke_oauth_refresh_token_family
revoke_family_runs now family f s name = rw name (_, _, refl)

refuse_reuse-revokes :
    (d : Draw) (row : RefreshToken) (s : Store)
    → validate_token_lookup row.token_family_id ≡ ok row.token_family_id
    → (changed : Bool) × (t : Store) × (revoke_oauth_refresh_token_family d.now row.token_family_id
          s
        ≡ ok (changed, t))
      × ((refuse_reuse d row s).1 ≡ t)
unfolding refuse_reuse ◌>>=◌ call raise_oauth
refuse_reuse-revokes d row s name =
    let (changed, t, revoked) =
      revoke_family_runs d.now row.token_family_id row.token_family_id s name in
    (changed, t, revoked, rw revoked refl)

refuse_reuse_lem :
    (d : Draw) (row : RefreshToken) (s : Store)
    → validate_token_lookup row.token_family_id ≡ ok row.token_family_id
    → ((refuse_reuse d row s).0 ≡ oauth_error "invalid_grant" "Refresh token is invalid")
      × IsClosed row.token_family_id (refuse_reuse d row s).1
unfolding refuse_reuse ◌>>=◌ call raise_oauth
refuse_reuse_lem d row s name =
    let (changed, t, revoked) =
      revoke_family_runs d.now row.token_family_id row.token_family_id s name in
    rw revoked
      (refl, revoke_family-IsClosed d.now row.token_family_id row.token_family_id s t name revoked)

-- The branch of the handler for a token that was used or revoked.
refresh_reuse_lem :
    (c : Secrets) (d : Draw) (form : Form) (s : Store) (row : RefreshToken)
    → oauth_refresh_token c form.refresh_token s ≡ ok (some row)
    → row.client_id ≡ form.client_id
    → (not (is_null row.revoked_at) || not (is_null row.consumed_at)) ≡ true
    → refresh_token_response c d form s ≡ refuse_reuse d row s
unfolding refresh_token_response ◌>>=◌ look refresh_with
refresh_reuse_lem c d form s row found mine spent =
    rw
      (
        looked_up-not_empty c form.refresh_token s found,
        found,
        (text_beq_iff row.client_id form.client_id).1 mine,
        spent,
      )
      refl

-- A refresh token of a family with a valid name that is presented by its client after it was
-- rotated or revoked gets `invalid_grant`, and the request leaves its family recorded as revoked
-- and each refresh token of the family revoked.
pub refresh_reuse_refused :
    (c : Secrets) (d : Draw) (form : Form) (s : Store) (row : RefreshToken)
    → oauth_refresh_token c form.refresh_token s ≡ ok (some row)
    → row.client_id ≡ form.client_id
    → (not (is_null row.revoked_at) || not (is_null row.consumed_at)) ≡ true
    → validate_token_lookup row.token_family_id ≡ ok row.token_family_id
    → ((refresh_token_response c d form s).0
        ≡ oauth_error "invalid_grant" "Refresh token is invalid")
      × IsClosed row.token_family_id (refresh_token_response c d form s).1
refresh_reuse_refused c d form s row found mine spent name =
    rw (refresh_reuse_lem c d form s row found mine spent) (refuse_reuse_lem d row s name)

-- After a request in which a client presents its refresh token that was rotated or revoked before,
-- and whose family has a valid name, no refresh token of the family is ever rotated, whatever
-- operations follow.
pub refresh_reuse_final :
    (c : Secrets) (d : Draw) (form : Form) (s u v : Store) (row r : RefreshToken)
    (now' token : Text)
    → oauth_refresh_token c form.refresh_token s ≡ ok (some row)
    → row.client_id ≡ form.client_id
    → (not (is_null row.revoked_at) || not (is_null row.consumed_at)) ≡ true
    → validate_token_lookup row.token_family_id ≡ ok row.token_family_id
    → Reach c (refresh_token_response c d form s).1 u
    → consume_oauth_refresh_token c now' token u ≡ ok (some r, v)
    → r.token_family_id ≢ row.token_family_id
refresh_reuse_final c d form s u v row r now' token found mine spent name reach took same =
    let (changed, t, revoked, left) = refuse_reuse-revokes d row s name in
    revoke_family_final c s t u v d.now row.token_family_id changed now' token r revoked
      (subst (λ x. Reach c x u)
        (ap (λ q. q.1) (refresh_reuse_lem c d form s row found mine spent) ∙ left) reach)
      took (name ∙ ap ok (sym same))
