-- ===== src/TokenStore/Rows.antt =====
-- The rows of the authentication tables of `SQLiteMetadataStore._init_db`, in
-- memory/backend/metadata_store.py. Columns that hold the time of a write and that no query reads
-- (`created_at`, `updated_at`, `last_seen_at`, `last_login_at`) are left out.
use ai_memory_hub.Base.{Text, Bool, true, false, Option, none, some, List, text_ltb}

pub record User : Type 0 where
  pub id : Text
  pub display_name : Option Text
  pub disabled_at : Option Text

pub record Project : Type 0 where
  pub id : Text
  pub owner_id : Option Text
  pub name : Text
  pub description : Option Text
  pub is_default : Bool
  pub archived_at : Option Text

pub record Membership : Type 0 where
  pub project_id : Text
  pub user_id : Text
  pub role : Text

-- `scopes` is the decoded JSON list of the column.
pub record AuthToken : Type 0 where
  pub token_hash : Text
  pub token_id : Option Text
  pub owner_id : Text
  pub display_name : Option Text
  pub token_prefix : Text
  pub scopes : Option (List Text)
  pub last_used_at : Option Text
  pub expires_at : Option Text
  pub revoked_at : Option Text

pub record WebSession : Type 0 where
  pub session_id_hash : Text
  pub user_id : Text
  pub csrf_token_hash : Text
  pub expires_at : Text
  pub revoked_at : Option Text

pub record OauthClient : Type 0 where
  pub client_id : Text
  pub client_name : Text
  pub redirect_uris : List Text
  pub expires_at : Text
  pub revoked_at : Option Text

pub record AuthorizationCode : Type 0 where
  pub code_hash : Text
  pub client_id : Text
  pub owner_id : Text
  pub redirect_uri : Text
  pub code_challenge : Text
  pub resource : Text
  pub scope : Text
  pub expires_at : Text
  pub consumed_at : Option Text

pub record RefreshToken : Type 0 where
  pub refresh_token_hash : Text
  pub token_family_id : Text
  pub client_id : Text
  pub owner_id : Text
  pub scopes : List Text
  pub resource : Text
  pub access_token_id : Option Text
  pub expires_at : Text
  pub consumed_at : Option Text
  pub revoked_at : Option Text

-- The tables. `families` is `oauth_refresh_token_families`.
pub record Store : Type 0 where
  pub users : List User
  pub projects : List Project
  pub memberships : List Membership
  pub auth_tokens : List AuthToken
  pub sessions : List WebSession
  pub clients : List OauthClient
  pub codes : List AuthorizationCode
  pub refresh_tokens : List RefreshToken
  pub families : List Text

-- `column IS NULL`
abbrev pub is_null {ℓ} : {A : Type ℓ} → Option A → Bool
is_null none = true
is_null (some a) = false

-- `expires_at > CURRENT_TIMESTAMP`, an order of texts; `now` is the text of CURRENT_TIMESTAMP.
abbrev pub unexpired : Text → Text → Bool
unexpired now expires_at = text_ltb now expires_at

-- `expires_at IS NULL OR expires_at > CURRENT_TIMESTAMP`
abbrev pub unexpired_or_null : Text → Option Text → Bool
unexpired_or_null now none = true
unexpired_or_null now (some expires_at) = unexpired now expires_at
