-- ===== src/TokenStore/Creation.antt =====
-- What `create_auth_token`, `create_oauth_refresh_token` and the revocations of
-- memory/backend/metadata_store.py do to each table.
use ai_memory_hub.Base.{
  Text, ◌≡◌, refl, ap, ◌∙◌, sym, Bool, true, false, Option, none, some, arith, List, [], ◌∷◌, ◌++◌,
  if◌then◌else◌, any, find, Bool-cases, inl, inr, ok, ok-injective, raise-ne-ok, bind_elim, ◌==◌,
  text_eq, option_eq,
}
use ai_memory_hub.TokenStore.Rows.{Store, AuthToken, RefreshToken, is_null}
use ai_memory_hub.TokenStore.Validate.{
  Secrets, hash_bearer_token, validate_owner_id, validate_token_lookup, normalize_token_scopes,
}
use ai_memory_hub.TokenStore.Projects.{add_user, upsert_user, ensure_default_project}
use ai_memory_hub.TokenStore.Access.{upsert_auth_token, create_auth_token, merged, token_id_taken}
use ai_memory_hub.TokenStore.Refresh.{
  has_family, revoke_born, write_refresh_token, create_oauth_refresh_token,
}
use ai_memory_hub.TokenStore.Access.{revoke_tokens}
use ai_memory_hub.TokenStore.Frames.{
  SameTokens, SameTokens-trans, add_user-SameTokens, upsert_user-SameTokens,
  ensure_default_project-SameTokens,
}

-- The OAuth tables are the same; bearer tokens may differ.
pub record SameOauth (s t : Store) : Type 0 where
  pub clients : t.clients ≡ s.clients
  pub codes : t.codes ≡ s.codes
  pub refresh_tokens : t.refresh_tokens ≡ s.refresh_tokens
  pub families : t.families ≡ s.families

pub SameOauth-of : {s t : Store} → SameTokens s t → SameOauth s t
SameOauth-of h = record {
  clients = h.clients;
  codes = h.codes;
  refresh_tokens = h.refresh_tokens;
  families = h.families;
}

upsert_auth_token-SameOauth :
    (row : AuthToken) (s : Store) {r : AuthToken × Store}
    → upsert_auth_token row s ≡ ok r
    → SameOauth s r.1
unfolding upsert_auth_token
upsert_auth_token-SameOauth row s h =
    elim (Bool-cases (
      token_id_taken (merged row (find (λ t. t.token_hash == row.token_hash) s.auth_tokens))
        s.auth_tokens)) [
          | inl taken ↦ absurd (raise-ne-ok (rw taken at h))
          | inr free ↦
              let e = ok-injective (rw free at h) in
              rw (← e)
                (record { clients = refl; codes = refl; refresh_tokens = refl; families = refl })
        ]

SameOauth-trans : {s t u : Store} → SameOauth s t → SameOauth t u → SameOauth s u
SameOauth-trans a b = record {
  clients = b.clients ∙ a.clients;
  codes = b.codes ∙ a.codes;
  refresh_tokens = b.refresh_tokens ∙ a.refresh_tokens;
  families = b.families ∙ a.families;
}

pub create_auth_token-SameOauth :
    (c : Secrets) (new_id owner_id token : Text) (d td e : Option Text)
    (scopes : Option (List Text)) (s : Store) {r : AuthToken × Store}
    → create_auth_token c new_id owner_id token d td e scopes s ≡ ok r
    → SameOauth s r.1
unfolding create_auth_token
create_auth_token-SameOauth c new_id owner_id token d td e scopes s h =
    bind_elim (validate_owner_id owner_id) _ h λ owner _ h₁.
      bind_elim (hash_bearer_token c token) _ h₁ λ hash _ h₂.
        bind_elim (normalize_token_scopes scopes) _ h₂ λ scopes' _ h₃.
          bind_elim (ensure_default_project c (some owner) (upsert_user owner d s)) _ h₃
            λ s' made h₄.
              SameOauth-trans
                (SameOauth-of (
                  SameTokens-trans (upsert_user-SameTokens owner d s) (
                    ensure_default_project-SameTokens c (some owner) (upsert_user owner d s) s'
                      made)))
                (upsert_auth_token-SameOauth _ s' h₄)

revoke_born-SameOauth :
    (now : Text) (b : Bool) (o : Option Text) (s : Store) → SameOauth s (revoke_born now b o s)
unfolding revoke_born revoke_tokens
revoke_born-SameOauth now false o s = record {
  clients = refl;
  codes = refl;
  refresh_tokens = refl;
  families = refl;
}
revoke_born-SameOauth now true none s = record {
  clients = refl;
  codes = refl;
  refresh_tokens = refl;
  families = refl;
}
revoke_born-SameOauth now true (some id) s = ground arith

-- A refresh token that was created: the new row, and the tables around it.
pub record IsCreated (s : Store) (row : RefreshToken) (t : Store) : Type 0 where
  pub clients : t.clients ≡ s.clients
  pub codes : t.codes ≡ s.codes
  pub families : t.families ≡ s.families
  pub added : t.refresh_tokens ≡ s.refresh_tokens ++ row ∷ []
  pub fresh : any (λ r. r.refresh_token_hash == row.refresh_token_hash) s.refresh_tokens ≡ false
  pub born_revoked : has_family row.token_family_id s ≡ true → is_null row.revoked_at ≡ false
  pub born_live : has_family row.token_family_id s ≡ false → row.revoked_at ≡ none

write_refresh_token-IsCreated :
    (now now_iso : Text) (row : RefreshToken) (s : Store) {r : RefreshToken × Store}
    → write_refresh_token now now_iso row s ≡ ok r
    → IsCreated s r.0 r.1
unfolding write_refresh_token
write_refresh_token-IsCreated now now_iso row s h =
    elim (Bool-cases (any (λ r. r.refresh_token_hash == row.refresh_token_hash) s.refresh_tokens)) [
      | inl taken ↦ absurd (raise-ne-ok (rw taken at h))
      | inr free ↦ rw (← ok-injective (rw free at h)) (
          let same =
            revoke_born-SameOauth now (has_family row.token_family_id s) row.access_token_id
              (record s {
                refresh_tokens =
                    s.refresh_tokens
                    ++ record row {
                      revoked_at = if has_family row.token_family_id s then some now_iso else none;
                    }
                      ∷ [];
              }) in
          record {
            clients = same.clients;
            codes = same.codes;
            families = same.families;
            added = same.refresh_tokens;
            fresh = free;
            born_revoked = λ e. rw e;
            born_live = λ e. rw e;
          })
    ]

IsCreated-after :
    {s s₁ t : Store} {row : RefreshToken} → SameTokens s s₁ → IsCreated s₁ row t → IsCreated s row t
IsCreated-after {s} {s₁} {t} {row} same made = record {
  clients = made.clients ∙ same.clients;
  codes = made.codes ∙ same.codes;
  families = made.families ∙ same.families;
  added = made.added ∙ ap (λ l. l ++ row ∷ []) same.refresh_tokens;
  fresh =
      ap (λ l. any (λ r. r.refresh_token_hash == row.refresh_token_hash) l)
        (sym same.refresh_tokens)
      ∙ made.fresh;
  born_revoked =
      λ e. made.born_revoked (ap (λ l. any (λ f. f == row.token_family_id) l) same.families ∙ e);
  born_live =
      λ e. made.born_live (ap (λ l. any (λ f. f == row.token_family_id) l) same.families ∙ e);
}

pub create_oauth_refresh_token-IsCreated :
    (c : Secrets) (now now_iso token family client owner_id : Text) (scopes : List Text)
    (resource : Text) (access : Option Text) (expires : Text) (s : Store) {r : RefreshToken × Store}
    → create_oauth_refresh_token c now now_iso token family client owner_id scopes resource access
        expires s
      ≡ ok r
    → IsCreated s r.0 r.1
unfolding create_oauth_refresh_token
create_oauth_refresh_token-IsCreated c now now_iso token family client owner_id scopes resource
      access expires s h =
    bind_elim (hash_bearer_token c token) _ h λ hash _ h₁.
      bind_elim (validate_token_lookup family) _ h₁ λ family_id _ h₂.
        bind_elim (validate_token_lookup client) _ h₂ λ client' _ h₃.
          bind_elim (validate_owner_id owner_id) _ h₃ λ owner _ h₄.
            bind_elim (normalize_token_scopes (some scopes)) _ h₄ λ scopes' _ h₅.
              bind_elim (ensure_default_project c (some owner) (add_user owner s)) _ h₅
                λ s₁ made h₆.
                  IsCreated-after
                    (SameTokens-trans (add_user-SameTokens owner s)
                      (ensure_default_project-SameTokens c (some owner) (add_user owner s) s₁ made))
                    (write_refresh_token-IsCreated now now_iso
                      (record {
                        refresh_token_hash = hash;
                        token_family_id = family_id;
                        client_id = client';
                        owner_id = owner;
                        scopes = scopes';
                        resource = resource;
                        access_token_id = access;
                        expires_at = expires;
                        consumed_at = none;
                        revoked_at = none;
                      })
                      s₁ h₆)
