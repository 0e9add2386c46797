-- ===== src/TokenStore/Grants.antt =====
-- When a bearer token authenticates in memory/backend/metadata_store.py.
use ai_memory_hub.Base.{
  Text, ◌≡◌, refl, ap, ◌∙◌, sym, true, Option, none, some, arith, List, [], ◌∷◌, ◌&&◌, ◌==◌,
  text_eq, text_beq_iff, any, find, All, All-find, ok, ok-injective, bind_elim, some_inj,
}
use ai_memory_hub.TokenStore.Rows.{Store, User, AuthToken, is_null, unexpired_or_null}
use ai_memory_hub.TokenStore.Validate.{Secrets, hash_bearer_token, parse_token_scopes}
use ai_memory_hub.TokenStore.Access.{AuthContextRow, auth_context_for_token, context_of, grants}

-- The row of `auth_tokens` behind a context.
pub record IsGranted (now hash : Text) (s : Store) (x : AuthContextRow) : Type 0 where
  pub row : AuthToken
  pub found : find (grants now hash s.users) s.auth_tokens ≡ some row
  pub owner : x.owner_id ≡ row.owner_id
  pub handle : x.token_id ≡ row.token_id
  pub scopes : parse_token_scopes row.scopes ≡ ok x.scopes

context_of-IsGranted :
    (now hash : Text) (s v : Store) (o : Option AuthToken) (x : AuthContextRow)
    → find (grants now hash s.users) s.auth_tokens ≡ o
    → context_of now s hash o ≡ ok (some x, v)
    → IsGranted now hash s x
unfolding context_of
context_of-IsGranted now hash s v none x e h = absurd (cc (ap (λ q. q.0) (ok-injective h)))
context_of-IsGranted now hash s v (some row) x e h =
    bind_elim (parse_token_scopes row.scopes) _ h λ scopes parsed h₁.
      let same = some_inj (ap (λ q. q.0) (ok-injective h₁)) in
      record {
        row = row;
        found = e;
        owner = sym (ap (λ y. y.owner_id) same);
        handle = sym (ap (λ y. y.token_id) same);
        scopes = parsed ∙ ap (λ (y : AuthContextRow). ok y.scopes) same;
      }

pub auth_context-IsGranted :
    (c : Secrets) (now token : Text) (s v : Store) (x : AuthContextRow)
    → auth_context_for_token c now token s ≡ ok (some x, v)
    → (hash : Text) × (hash_bearer_token c token ≡ ok hash) × IsGranted now hash s x
unfolding auth_context_for_token
auth_context-IsGranted c now token s v x h =
    bind_elim (hash_bearer_token c token) _ h
      λ hash e h₁. (hash, e, context_of-IsGranted now hash s v _ x refl h₁)

-- What the WHERE clause of `auth_context_for_token` checks.
pub record IsLive (now hash : Text) (users : List User) (row : AuthToken) : Type 0 where
  pub hashed : row.token_hash ≡ hash
  pub not_revoked : is_null row.revoked_at ≡ true
  pub enabled : any (λ u. u.id == row.owner_id && is_null u.disabled_at) users ≡ true
  pub not_expired : unexpired_or_null now row.expires_at ≡ true

pub grants-IsLive :
    (now hash : Text) (users : List User) (row : AuthToken)
    → grants now hash users row ≡ true
    → IsLive now hash users row
unfolding grants
grants-IsLive now hash users row h = record {
  hashed = (text_beq_iff row.token_hash hash).0 (ground arith);
  not_revoked = ground arith;
  enabled = ground arith;
  not_expired = ground arith;
}

-- A row of the table that `find` gives satisfies the clause.
pub IsGranted-IsLive :
    (now hash : Text) (s : Store) (x : AuthContextRow) (g : IsGranted now hash s x)
    → IsLive now hash s.users g.row
IsGranted-IsLive now hash s x g =
    grants-IsLive now hash s.users g.row
      (All-find (λ _. Unit {0}) _ s.auth_tokens (units s.auth_tokens) g.found).1
  where
    units : (l : List AuthToken) → All (λ _. Unit {0}) l
    units [] = tt
    units (a ∷ l) = (tt, units l)
