-- ===== src/TokenStore/SingleUse.antt =====
-- The use of authorization codes and refresh tokens of memory/backend/metadata_store.py, and their
-- primary keys.
use ai_memory_hub.Base.{
  Text, ◌≡◌, refl, ap, true, none, some, arith, text_eq, text_beq_iff, find, update_where, UniqueBy,
  UniqueBy-snoc, UniqueBy-update_where, find-none, update_where-none, ok, ok-injective, bind_elim,
  map_option-some,
}
use ai_memory_hub.TokenStore.Rows.{Store, AuthorizationCode, RefreshToken, is_null}
use ai_memory_hub.TokenStore.Validate.{Secrets, hash_bearer_token}
use ai_memory_hub.TokenStore.Codes.{consume_oauth_authorization_code, redeemable}
use ai_memory_hub.TokenStore.Refresh.{consume_oauth_refresh_token, rotatable, consumed}
use ai_memory_hub.TokenStore.Effects.{Effect, Step-Effect, spent, revoked}
use ai_memory_hub.TokenStore.Spent.{
  IsSpent, IsSpent-snoc, IsSpent-update_where, IsSpent-first, IsSpent-none,
}
use ai_memory_hub.TokenStore.Steps.{Reach, Reach-keeps}

abbrev code_key : AuthorizationCode → Text
code_key r = r.code_hash

abbrev refresh_key : RefreshToken → Text
refresh_key r = r.refresh_token_hash

-- The primary keys of the two tables.
pub record HasKeys (s : Store) : Type 0 where
  pub codes : UniqueBy code_key s.codes
  pub refresh_tokens : UniqueBy refresh_key s.refresh_tokens

abbrev CodeSpent : Text → Store → Type 0
CodeSpent k s = IsSpent code_key (λ r. r.consumed_at) k s.codes

abbrev RefreshSpent : Text → Store → Type 0
RefreshSpent k s = IsSpent refresh_key (λ r. r.consumed_at) k s.refresh_tokens

Effect-CodeSpent : (k : Text) (s t : Store) → Effect s t → CodeSpent k s → CodeSpent k t
Effect-CodeSpent k s t (Effect.same e _ _) h = rw e h
Effect-CodeSpent k s t (Effect.add_code row fresh e _ _) h =
    rw e (IsSpent-snoc code_key (λ r. r.consumed_at) k s.codes row fresh h)
Effect-CodeSpent k s t (Effect.spend_code now p e _ _) h = rw e (
    IsSpent-update_where code_key (λ r. r.consumed_at) k p (spent now) s.codes (λ _. refl)
      (λ _ _. refl) h)
Effect-CodeSpent k s t (Effect.add_refresh row made) h = rw made.codes h
Effect-CodeSpent k s t (Effect.spend_refresh now p e _ _) h = rw e h
Effect-CodeSpent k s t (Effect.revoke_some now p e _ _) h = rw e h
Effect-CodeSpent k s t (Effect.revoke_all now f e _ _) h = rw e h

Effect-RefreshSpent : (k : Text) (s t : Store) → Effect s t → RefreshSpent k s → RefreshSpent k t
Effect-RefreshSpent k s t (Effect.same _ e _) h = rw e h
Effect-RefreshSpent k s t (Effect.add_code row _ _ e _) h = rw e h
Effect-RefreshSpent k s t (Effect.spend_code now p _ e _) h = rw e h
Effect-RefreshSpent k s t (Effect.add_refresh row made) h =
    rw made.added
      (IsSpent-snoc refresh_key (λ r. r.consumed_at) k s.refresh_tokens row made.fresh h)
Effect-RefreshSpent k s t (Effect.spend_refresh now p _ e _) h = rw e (
    IsSpent-update_where refresh_key (λ r. r.consumed_at) k p (consumed now) s.refresh_tokens
      (λ _. refl) (λ _ _. refl) h)
Effect-RefreshSpent k s t (Effect.revoke_some now p _ e _) h = rw e (
    IsSpent-update_where refresh_key (λ r. r.consumed_at) k _ (revoked now) s.refresh_tokens
      (λ _. refl) (λ _ i. i) h)
Effect-RefreshSpent k s t (Effect.revoke_all now f _ e _) h = rw e (
    IsSpent-update_where refresh_key (λ r. r.consumed_at) k _ (revoked now) s.refresh_tokens
      (λ _. refl) (λ _ i. i) h)

Effect-HasKeys : (s t : Store) → Effect s t → HasKeys s → HasKeys t
Effect-HasKeys s t (Effect.same e f _) h = record {
  codes = rw e h.codes;
  refresh_tokens = rw f h.refresh_tokens;
}
Effect-HasKeys s t (Effect.add_code row fresh e f _) h = record {
  codes = rw e (UniqueBy-snoc code_key s.codes row fresh h.codes);
  refresh_tokens = rw f h.refresh_tokens;
}
Effect-HasKeys s t (Effect.spend_code now p e f _) h = record {
  codes = rw e (UniqueBy-update_where code_key p (spent now) s.codes (λ _. refl) h.codes);
  refresh_tokens = rw f h.refresh_tokens;
}
Effect-HasKeys s t (Effect.add_refresh row made) h = record {
  codes = rw made.codes h.codes;
  refresh_tokens =
      rw made.added (UniqueBy-snoc refresh_key s.refresh_tokens row made.fresh h.refresh_tokens);
}
Effect-HasKeys s t (Effect.spend_refresh now p e f _) h = record {
  codes = rw e h.codes;
  refresh_tokens = rw f (
      UniqueBy-update_where refresh_key p (consumed now) s.refresh_tokens (λ _. refl)
        h.refresh_tokens);
}
Effect-HasKeys s t (Effect.revoke_some now p e f _) h = record {
  codes = rw e h.codes;
  refresh_tokens = rw f (
      UniqueBy-update_where refresh_key _ (revoked now) s.refresh_tokens (λ _. refl)
        h.refresh_tokens);
}
Effect-HasKeys s t (Effect.revoke_all now fam e f _) h = record {
  codes = rw e h.codes;
  refresh_tokens = rw f (
      UniqueBy-update_where refresh_key _ (revoked now) s.refresh_tokens (λ _. refl)
        h.refresh_tokens);
}

-- Every operation keeps the hashes of authorization codes and of refresh tokens distinct, in each
-- state that is reached.
pub Reach-HasKeys : (c : Secrets) (s t : Store) → Reach c s t → HasKeys s → HasKeys t
Reach-HasKeys c s t r h =
    Reach-keeps HasKeys (λ u v step. Effect-HasKeys u v (Step-Effect c u v step)) r h

redeemable_lem :
    (now hash client uri challenge : Text) (r : AuthorizationCode)
    → redeemable now hash client uri challenge r ≡ true
    → (r.code_hash ≡ hash) × (is_null r.consumed_at ≡ true)
unfolding redeemable
redeemable_lem now hash client uri challenge r h = ground (arith, text_beq_iff r.code_hash hash)

rotatable_lem :
    (now hash : Text) (r : RefreshToken)
    → rotatable now hash r ≡ true
    → (r.refresh_token_hash ≡ hash) × (is_null r.consumed_at ≡ true)
unfolding rotatable
rotatable_lem now hash r h = ground (arith, text_beq_iff r.refresh_token_hash hash)

consume_code-CodeSpent :
    (c : Secrets) (now code client uri challenge : Text) (s t : Store) {r : AuthorizationCode}
    → HasKeys s
    → consume_oauth_authorization_code c now code client uri challenge s ≡ ok (some r, t)
    → (k : Text) × (hash_bearer_token c code ≡ ok k) × CodeSpent k t
unfolding consume_oauth_authorization_code
consume_code-CodeSpent c now code client uri challenge s t keys h =
    bind_elim (hash_bearer_token c code) _ h λ k e h₁.
      let first : CodeSpent k (record s {
        codes = update_where (redeemable now k client uri challenge) (spent now) s.codes;
      }) =
        IsSpent-first code_key (λ r. r.consumed_at) k (redeemable now k client uri challenge)
          (spent now) s.codes (λ r hit. (redeemable_lem now k client uri challenge r hit).0)
          (λ _. refl) (λ _. refl) keys.codes (ap (λ q. q.0) (ok-injective h₁)) in
      (k, e, rw (← ap (λ q. q.1) (ok-injective h₁)) first)

CodeSpent-none :
    (c : Secrets) (now code client uri challenge k : Text) (s : Store)
    → hash_bearer_token c code ≡ ok k
    → CodeSpent k s
    → consume_oauth_authorization_code c now code client uri challenge s ≡ ok (none, s)
unfolding consume_oauth_authorization_code
CodeSpent-none c now code client uri challenge k s e h =
    let idle =
      IsSpent-none code_key (λ r. r.consumed_at) k (redeemable now k client uri challenge) s.codes
        (redeemable_lem now k client uri challenge) h in
    rw e (rw (find-none _ s.codes idle, update_where-none _ (spent now) s.codes idle) refl)

-- Once an authorization code is redeemed in a store whose hashes are distinct, it is never redeemed
-- again: after any further operations, by whichever client, redirect URI and verifier, redeeming it
-- yields nothing and changes nothing.
pub consume_code_once :
    (c : Secrets) (s t u : Store) (now code client uri challenge : Text) (r : AuthorizationCode)
    → HasKeys s
    → consume_oauth_authorization_code c now code client uri challenge s ≡ ok (some r, t)
    → Reach c t u
    → (now' client' uri' challenge' : Text)
    → consume_oauth_authorization_code c now' code client' uri' challenge' u ≡ ok (none, u)
consume_code_once c s t u now code client uri challenge r keys h reach now' client' uri'
      challenge' =
    let (k, e, used) = consume_code-CodeSpent c now code client uri challenge s t keys h in
    CodeSpent-none c now' code client' uri' challenge' k u e (
      Reach-keeps (CodeSpent k) (λ v w step. Effect-CodeSpent k v w (Step-Effect c v w step)) reach
        used)

consume_refresh-RefreshSpent :
    (c : Secrets) (now token : Text) (s t : Store) {r : RefreshToken}
    → HasKeys s
    → consume_oauth_refresh_token c now token s ≡ ok (some r, t)
    → (k : Text) × (hash_bearer_token c token ≡ ok k) × RefreshSpent k t
unfolding consume_oauth_refresh_token
consume_refresh-RefreshSpent c now token s t keys h =
    bind_elim (hash_bearer_token c token) _ h λ k e h₁.
      let (row, found, _) =
        map_option-some (consumed now) (find (rotatable now k) s.refresh_tokens)
          (ap (λ q. q.0) (ok-injective h₁)) in
      let first : RefreshSpent k (record s {
        refresh_tokens = update_where (rotatable now k) (consumed now) s.refresh_tokens;
      }) =
        IsSpent-first refresh_key (λ r. r.consumed_at) k (rotatable now k) (consumed now)
          s.refresh_tokens (λ r hit. (rotatable_lem now k r hit).0) (λ _. refl) (λ _. refl)
          keys.refresh_tokens found in
      (k, e, rw (← ap (λ q. q.1) (ok-injective h₁)) first)

RefreshSpent-none :
    (c : Secrets) (now token k : Text) (s : Store)
    → hash_bearer_token c token ≡ ok k
    → RefreshSpent k s
    → consume_oauth_refresh_token c now token s ≡ ok (none, s)
unfolding consume_oauth_refresh_token
RefreshSpent-none c now token k s e h =
    let idle =
      IsSpent-none refresh_key (λ r. r.consumed_at) k (rotatable now k) s.refresh_tokens
        (rotatable_lem now k) h in
    rw e (
      rw
        (
          find-none _ s.refresh_tokens idle,
          update_where-none _ (consumed now) s.refresh_tokens idle,
        )
        refl)

-- Once a refresh token is rotated in a store whose hashes are distinct, it is never rotated again:
-- after any further operations, consuming it yields nothing and changes nothing.
pub consume_refresh_once :
    (c : Secrets) (s t u : Store) (now token : Text) (r : RefreshToken)
    → HasKeys s
    → consume_oauth_refresh_token c now token s ≡ ok (some r, t)
    → Reach c t u
    → (now' : Text) → consume_oauth_refresh_token c now' token u ≡ ok (none, u)
consume_refresh_once c s t u now token r keys h reach now' =
    let (k, e, used) = consume_refresh-RefreshSpent c now token s t keys h in
    RefreshSpent-none c now' token k u e (
      Reach-keeps (RefreshSpent k) (λ v w step. Effect-RefreshSpent k v w (Step-Effect c v w step))
        reach used)
