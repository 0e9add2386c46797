-- ===== src/TokenStore/Steps.antt =====
-- The operations of memory/backend/metadata_store.py on tokens as steps of the store: any
-- interleaving of callers is a sequence of such steps, since each runs in one transaction.
use ai_memory_hub.Base.{ℕ, Text, ◌≡◌, Bool, Option, List, ok}
use ai_memory_hub.TokenStore.Rows.{Store, AuthToken, OauthClient, AuthorizationCode, RefreshToken}
use ai_memory_hub.TokenStore.Validate.{Secrets}
use ai_memory_hub.TokenStore.Access.{
  AuthContextRow, create_auth_token, auth_context_for_token, revoke_auth_token,
}
use ai_memory_hub.TokenStore.Codes.{
  create_oauth_client, create_oauth_authorization_code, consume_oauth_authorization_code,
}
use ai_memory_hub.TokenStore.Refresh.{
  create_oauth_refresh_token, consume_oauth_refresh_token, revoke_oauth_refresh_token_family,
  revoke_oauth_authorization_for_access_token, revoke_oauth_refresh_token,
}

-- One call that does not raise; a call that raises is rolled back.
pub data Step (c : Secrets) (s t : Store) : Type 0 where
  create_token :
      (new_id owner token : Text) (display token_display expires : Option Text)
      (scopes : Option (List Text)) (row : AuthToken)
      → create_auth_token c new_id owner token display token_display expires scopes s ≡ ok (row, t)
      → Step c s t
  use_token :
      (now token : Text) (found : Option AuthContextRow)
      → auth_context_for_token c now token s ≡ ok (found, t)
      → Step c s t
  revoke_token :
      (now token_id : Text) (found : Option AuthToken)
      → revoke_auth_token now token_id s ≡ ok (found, t)
      → Step c s t
  create_client :
      (now id name : Text) (uris : List Text) (expires : Text) (quota : ℕ) (row : OauthClient)
      → create_oauth_client now id name uris expires quota s ≡ ok (row, t)
      → Step c s t
  create_code :
      (code client owner uri challenge resource scope expires : Text)
      → create_oauth_authorization_code c code client owner uri challenge resource scope expires s
        ≡ ok t
      → Step c s t
  consume_code :
      (now code client uri challenge : Text) (found : Option AuthorizationCode)
      → consume_oauth_authorization_code c now code client uri challenge s ≡ ok (found, t)
      → Step c s t
  create_refresh :
      (now now_iso token family client owner : Text) (scopes : List Text) (resource : Text)
      (access : Option Text) (expires : Text) (row : RefreshToken)
      → create_oauth_refresh_token c now now_iso token family client owner scopes resource access
          expires s
        ≡ ok (row, t)
      → Step c s t
  consume_refresh :
      (now token : Text) (found : Option RefreshToken)
      → consume_oauth_refresh_token c now token s ≡ ok (found, t)
      → Step c s t
  revoke_family :
      (now family : Text) (changed : Bool)
      → revoke_oauth_refresh_token_family now family s ≡ ok (changed, t)
      → Step c s t
  revoke_authorization :
      (now token : Text) (done : Bool)
      → revoke_oauth_authorization_for_access_token c now token s ≡ ok (done, t)
      → Step c s t
  revoke_refresh :
      (now token : Text) (done : Bool)
      → revoke_oauth_refresh_token c now token s ≡ ok (done, t)
      → Step c s t

pub data Reach (c : Secrets) (s : Store) : Store → Type 0 where
  here : Reach c s s
  next : {t u : Store} → Reach c s t → Step c t u → Reach c s u

-- What every step keeps holds in every state that is reached.
pub Reach-keeps {ℓ} :
    {c : Secrets} (P : Store → Type ℓ) {s t : Store}
    → ((u v : Store) → Step c u v → P u → P v)
    → Reach c s t
    → P s
    → P t
Reach-keeps P keep here h = h
Reach-keeps P keep (next {t} {u} r step) h = keep t u step (Reach-keeps P keep r h)
