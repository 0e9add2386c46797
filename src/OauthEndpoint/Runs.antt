-- ===== src/OauthEndpoint/Runs.antt =====
-- The requests to the endpoints of memory/api/oauth_authorization.py as sequences of operations of
-- the token store.
use Prim.Native.String.{String}
use ai_memory_hub.Base.{
  Text, codes, ◌≡◌, refl, Bool, true, false, ◌||◌, not, Option, none, some, List, if◌then◌else◌,
  Result, ok, raise, ◌==◌, text_eq, is_empty,
}
use ai_memory_hub.TokenStore.Rows.{Store, RefreshToken, AuthorizationCode, is_null}
use ai_memory_hub.TokenStore.Validate.{Secrets}
use ai_memory_hub.TokenStore.Access.{revoke_auth_token}
use ai_memory_hub.TokenStore.Steps.{Step, Reach}
use ai_memory_hub.OauthEndpoint.Handler.{
  Outcome, done, oauth_error, failed, Handler, after, ◌>>=◌, return, raise_oauth, settle, call,
  look, settle_read,
}
use ai_memory_hub.OauthEndpoint.Grants.{
  Draw, Form, or_revoke, except_revoke, revoke_failed_access_token, issue_access_and_refresh_tokens,
  refuse_reuse, rotate, refresh_with, refresh_token_response, redeem, oauth_token, oauth_revoke,
  revoke_by_jti, is_verifier, scopes_from_scope_value,
}

pub Reach-trans : {c : Secrets} {s t u : Store} → Reach c s t → Reach c t u → Reach c s u
Reach-trans r Reach.here = r
Reach-trans r (Reach.next q step) = Reach.next (Reach-trans r q) step

-- Wherever a handler starts, steps of the store lead to where it ends.
abbrev pub Runs {ℓ} : {A : Type ℓ} → Secrets → Handler A → Type 0
Runs c m = (s : Store) → Reach c s (m s).1

module _ {ℓ} {A : Type ℓ} (c : Secrets) where
  after-Reach {κ} :
      {B : Type κ} (o : Outcome A) (s t : Store) (next : A → Handler B)
      → Reach c s t
      → ((a : A) → Runs c (next a))
      → Reach c s (after o t next).1
  after-Reach (done a) s t next r h = Reach-trans r (h a t)
  after-Reach (oauth_error e d) s t next r h = r
  after-Reach (failed e) s t next r h = r

  pub bind-Runs {κ} :
      {B : Type κ} (m : Handler A) (next : A → Handler B)
      → Runs c m
      → ((a : A) → Runs c (next a))
      → Runs c (m >>= next)
  unfolding ◌>>=◌
  bind-Runs m next h k s = after-Reach (m s).0 s (m s).1 next (h s) k

  settle-Reach :
      (s : Store) (r : Result (A × Store))
      → ((a : A) (t : Store) → r ≡ ok (a, t) → Step c s t)
      → Reach c s (settle r s).1
  settle-Reach s (ok (a, t)) h = Reach.next Reach.here (h a t refl)
  settle-Reach s (raise e) h = Reach.here

  pub call-Runs :
      (operation : Store → Result (A × Store))
      → ((s : Store) (a : A) (t : Store) → operation s ≡ ok (a, t) → Step c s t)
      → Runs c (call operation)
  unfolding call
  call-Runs operation h s = settle-Reach s (operation s) (h s)

  settle_read-Reach : (s : Store) (r : Result A) → Reach c s (settle_read r s).1
  settle_read-Reach s (ok a) = Reach.here
  settle_read-Reach s (raise e) = Reach.here

  look-Runs : (query : Store → Result A) → Runs c (look query)
  unfolding look
  look-Runs query s = settle_read-Reach s (query s)

  return-Runs : (a : A) → Runs c (return a)
  unfolding return
  return-Runs a s = Reach.here

  pub if-Runs : (b : Bool) (x y : Handler A) → Runs c x → Runs c y → Runs c (if b then x else y)
  if-Runs true x y h k = h
  if-Runs false x y h k = k

  or_revoke-Reach :
      (s : Store) (r : Outcome A × Store) (revoke : Store → Store)
      → Reach c s r.1
      → ((u : Store) → Reach c u (revoke u))
      → Reach c s (or_revoke r revoke).1
  or_revoke-Reach s (done a, t) revoke h k = h
  or_revoke-Reach s (oauth_error e d, t) revoke h k = Reach-trans h (k t)
  or_revoke-Reach s (failed e, t) revoke h k = Reach-trans h (k t)

  except_revoke-Runs :
      (m : Handler A) (revoke : Store → Store)
      → Runs c m
      → ((u : Store) → Reach c u (revoke u))
      → Runs c (except_revoke m revoke)
  unfolding except_revoke
  except_revoke-Runs m revoke h k s = or_revoke-Reach s (m s) revoke (h s) k

raise-Runs :
    (c : Secrets) (A : Type 0) (error description : String)
    → Runs c (raise_oauth {A = A} error description)
unfolding raise_oauth
raise-Runs c A error description s = Reach.here

revoke_failed-Runs :
    (c : Secrets) (now id : Text) (s : Store) → Reach c s (revoke_failed_access_token now id s)
unfolding revoke_failed_access_token
revoke_failed-Runs c now id s =
    settle-Reach c s (revoke_auth_token now id s) (λ a t h. Step.revoke_token now id a h)

pub issue-Runs :
    (c : Secrets) (d : Draw) (client owner resource : Text) (scopes : List Text)
    (family : Option Text)
    → Runs c (issue_access_and_refresh_tokens c d client owner resource scopes family)
unfolding issue_access_and_refresh_tokens
issue-Runs c d client owner resource scopes family =
    bind-Runs c _ _ (call-Runs c _ (λ u a t h. Step.create_token _ _ _ _ _ _ _ a h)) λ row.
      bind-Runs c _ _
        (except_revoke-Runs c _ _
          (call-Runs c _ (λ u a t h. Step.create_refresh _ _ _ _ _ _ _ _ _ _ a h))
          (revoke_failed-Runs c d.now _))
        λ _. return-Runs c _

refuse_reuse-Runs : (c : Secrets) (d : Draw) (row : RefreshToken) → Runs c (refuse_reuse d row)
unfolding refuse_reuse
refuse_reuse-Runs c d row =
    bind-Runs c _ _ (call-Runs c _ (λ u a t h. Step.revoke_family _ _ a h)) λ _. raise-Runs c _ _ _

rotate-Runs :
    (c : Secrets) (d : Draw) (form : Form) (row : RefreshToken) (taken : Option RefreshToken)
    → Runs c (rotate c d form row taken)
unfolding rotate
rotate-Runs c d form row none = refuse_reuse-Runs c d row
rotate-Runs c d form row (some taken) =
    if-Runs c (is_null taken.consumed_at) _ _ (refuse_reuse-Runs c d row) (
      issue-Runs c d form.client_id row.owner_id row.resource row.scopes (some row.token_family_id))

refresh_with-Runs :
    (c : Secrets) (d : Draw) (form : Form) (found : Option RefreshToken)
    → Runs c (refresh_with c d form found)
unfolding refresh_with
refresh_with-Runs c d form none = raise-Runs c _ _ _
refresh_with-Runs c d form (some row) =
    if-Runs c (not (row.client_id == form.client_id)) _ _ (raise-Runs c _ _ _) (
      if-Runs c (not (is_null row.revoked_at) || not (is_null row.consumed_at)) _ _
        (refuse_reuse-Runs c d row)
        (if-Runs c (d.is_expired row.expires_at) _ _ (raise-Runs c _ _ _) (
          bind-Runs c _ _ (call-Runs c _ (λ u a t h. Step.consume_refresh _ _ a h))
            (rotate-Runs c d form row))))

pub refresh_token_response-Runs :
    (c : Secrets) (d : Draw) (form : Form) → Runs c (refresh_token_response c d form)
unfolding refresh_token_response
refresh_token_response-Runs c d form =
    if-Runs c (is_empty form.refresh_token) _ _ (raise-Runs c _ _ _)
      (bind-Runs c _ _ (look-Runs c _) (refresh_with-Runs c d form))

redeem-Runs : (c : Secrets) (d : Draw) (row : Option AuthorizationCode) → Runs c (redeem c d row)
unfolding redeem
redeem-Runs c d none = raise-Runs c _ _ _
redeem-Runs c d (some row) =
    issue-Runs c d row.client_id row.owner_id row.resource (scopes_from_scope_value row.scope) none

pub oauth_token-Runs : (c : Secrets) (d : Draw) (form : Form) → Runs c (oauth_token c d form)
unfolding oauth_token
oauth_token-Runs c d form =
    if-Runs c (form.grant_type == codes "refresh_token") _ _ (refresh_token_response-Runs c d form)
      (if-Runs c (not (form.grant_type == codes "authorization_code")) _ _ (raise-Runs c _ _ _) (
        if-Runs c (not (is_verifier form.code_verifier)) _ _ (raise-Runs c _ _ _) (
          bind-Runs c _ _ (call-Runs c _ (λ u a t h. Step.consume_code _ _ _ _ _ a h))
            (redeem-Runs c d))))

revoke_by_jti-Runs : (c : Secrets) (now : Text) (id : Option Text) → Runs c (revoke_by_jti now id)
revoke_by_jti-Runs c now none = return-Runs c tt
revoke_by_jti-Runs c now (some id) =
    if-Runs c (is_empty id) _ _ (return-Runs c tt) (
      bind-Runs c _ _ (call-Runs c _ (λ u a t h. Step.revoke_token now id a h))
        λ _. return-Runs c _)

pub oauth_revoke-Runs : (c : Secrets) (now token : Text) → Runs c (oauth_revoke c now token)
unfolding oauth_revoke
oauth_revoke-Runs c now token = if-Runs c (is_empty token) _ _ (return-Runs c tt) (
    bind-Runs c _ _ (call-Runs c _ (λ u a t h. Step.revoke_refresh _ _ a h)) λ revoked.
      if-Runs c revoked _ _ (return-Runs c tt) (
        bind-Runs c _ _ (call-Runs c _ (λ u a t h. Step.revoke_authorization _ _ a h))
          λ revoked₂. if-Runs c revoked₂ _ _ (return-Runs c tt) (revoke_by_jti-Runs c now _)))
