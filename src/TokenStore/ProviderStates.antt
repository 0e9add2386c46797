-- ===== src/TokenStore/ProviderStates.antt =====
-- The states of logins at external providers: `create_oauth_provider_state` and
-- `consume_oauth_provider_state` of memory/backend/metadata_store.py, on the table
-- oauth_provider_states. `digest` is the SHA-256 of a purpose and a secret, and the JSON of the
-- column state_data, an object, is kept as a text.
use ai_memory_hub.Base.{
  ℕ, Text, text_eq, codes, Bool, ◌&&◌, Option, none, some, List, [], ◌∷◌, ◌++◌, leb, any, keep,
  ◌==◌, if◌then◌else◌, Result, ok, raise, value_error, state_quota_exceeded, integrity_error, ◌>>=◌,
  find, update_where, count_where, map_option,
}
use ai_memory_hub.TokenStore.Rows.{is_null, unexpired}

pub record ProviderState : Type 0 where
  pub state_hash : Text
  pub provider : Text
  pub browser_session_hash : Text
  pub nonce : Text
  pub code_verifier : Text
  pub state_data : Text
  pub expires_at : Text
  pub consumed_at : Option Text

module _ (digest : Text → Text → Text) where
  unfoldable pub hash_oauth_ephemeral_secret : Text → Text → Result Text
  hash_oauth_ephemeral_secret purpose [] =
      raise (value_error "OAuth ephemeral secret must be a non-empty string")
  hash_oauth_ephemeral_secret purpose (c ∷ token) =
      ok (codes "sha256:" ++ digest purpose (c ∷ token))

-- `consumed_at IS NULL AND expires_at > CURRENT_TIMESTAMP`
abbrev pub is_active : Text → ProviderState → Bool
is_active now r = is_null r.consumed_at && unexpired now r.expires_at

-- The two quotas and the INSERT, on the rows that the DELETE leaves.
unfoldable pub insert_state :
    Text → ProviderState → ℕ → ℕ → List ProviderState → Result (List ProviderState)
insert_state now row max_active_states max_global_active_states rows =
    if leb max_global_active_states (count_where (is_active now) rows)
    then raise state_quota_exceeded
    else if leb max_active_states (
        count_where (λ r. r.browser_session_hash == row.browser_session_hash && is_active now r)
          rows)
    then raise state_quota_exceeded
    else if any (λ r. r.state_hash == row.state_hash) rows
    then raise integrity_error
    else ok (rows ++ row ∷ [])

unfoldable pub create_oauth_provider_state :
    (Text → Text → Text)
    → Text
    → Text
    → Text
    → Text
    → Text
    → Text
    → Text
    → Text
    → ℕ
    → ℕ
    → List ProviderState
    → Result (List ProviderState)
unfolding hash_oauth_ephemeral_secret insert_state
create_oauth_provider_state digest now state provider browser nonce verifier payload expires_at
      max_active_states max_global_active_states rows =
    do
      state_hash ← hash_oauth_ephemeral_secret digest (codes "state") state
      browser_hash ← hash_oauth_ephemeral_secret digest (codes "browser-session") browser
      insert_state now
          (record {
            state_hash = state_hash;
            provider = provider;
            browser_session_hash = browser_hash;
            nonce = nonce;
            code_verifier = verifier;
            state_data = payload;
            expires_at = expires_at;
            consumed_at = none;
          })
          max_active_states max_global_active_states (keep (is_active now) rows)

-- The WHERE clause of the UPDATE.
unfoldable pub consumable : Text → Text → Text → Text → ProviderState → Bool
consumable now state_hash provider browser_hash r =
    r.state_hash == state_hash
    && r.provider == provider
    && r.browser_session_hash == browser_hash
    && is_null r.consumed_at
    && unexpired now r.expires_at

abbrev pub state_consumed : Text → ProviderState → ProviderState
state_consumed now r = record r { consumed_at = some now }

unfoldable pub consume_oauth_provider_state :
    (Text → Text → Text)
    → Text
    → Text
    → Text
    → Text
    → List ProviderState
    → Result (Option ProviderState × List ProviderState)
unfolding hash_oauth_ephemeral_secret consumable
consume_oauth_provider_state digest now state provider browser rows = do
  state_hash ← hash_oauth_ephemeral_secret digest (codes "state") state
  browser_hash ← hash_oauth_ephemeral_secret digest (codes "browser-session") browser
  ok (
    map_option (state_consumed now) (find (consumable now state_hash provider browser_hash) rows),
    update_where (consumable now state_hash provider browser_hash) (state_consumed now) rows,
  )
