-- ===== src/TokenStore/Families.antt =====
-- Revoking a family of refresh tokens in memory/backend/metadata_store.py.
use ai_memory_hub.Base.{
  Text, ◌≡◌, ◌≢◌, refl, ap, ◌∙◌, sym, Bool, true, false, false≢true, not, Option, some, arith, List,
  [], ◌∷◌, ◌&&◌, ◌==◌, text_eq, option_eq, text_beq_iff, any, any-append, find, update_where, All,
  All-append, All-find, All-update_where, All-mono, ok, ok-injective, bind_elim, map_option-some,
  Bool-cases, inl, inr,
}
use ai_memory_hub.TokenStore.Rows.{Store, AuthToken, RefreshToken, is_null}
use ai_memory_hub.TokenStore.Validate.{Secrets, hash_bearer_token, validate_token_lookup}
use ai_memory_hub.TokenStore.Access.{AuthContextRow, auth_context_for_token, grants}
use ai_memory_hub.TokenStore.Refresh.{
  has_family, of_family, consumed, rotatable, record_family, issued_with,
  consume_oauth_refresh_token, revoke_oauth_refresh_token_family,
}
use ai_memory_hub.TokenStore.Effects.{Effect, Step-Effect, revoked, record_family_keeps}
use ai_memory_hub.TokenStore.Grants.{auth_context-IsGranted, grants-IsLive}
use ai_memory_hub.TokenStore.Steps.{Reach, Reach-keeps}

-- The family is recorded, and each of its refresh tokens is revoked.
abbrev pub IsClosed : Text → Store → Type 0
IsClosed f s =
    (has_family f s ≡ true)
    × All (λ r. of_family f r ≡ true → is_null r.revoked_at ≡ false) s.refresh_tokens

has_family-record_family :
    (f g : Text) (s : Store) → has_family f s ≡ true → has_family f (record_family g s) ≡ true
unfolding record_family
has_family-record_family f g s h = elim (Bool-cases (has_family g s)) [
  | inl old ↦ rw old h
  | inr new ↦ rw new (any-append (λ x. x == f) s.families (g ∷ []) ∙ rw h)
]

record_family_lem : (f : Text) (s : Store) → has_family f (record_family f s) ≡ true
unfolding record_family
record_family_lem f s = elim (Bool-cases (has_family f s)) [
  | inl old ↦ rw old old
  | inr new ↦
      rw new
        (any-append (λ x. x == f) s.families (f ∷ []) ∙ rw (new, (text_beq_iff f f).1 refl) refl)
]

same_has :
    (f : Text) (s t : Store)
    → t.families ≡ s.families
    → has_family f s ≡ true
    → has_family f t ≡ true
same_has f s t e h = ap (λ l. any (λ x. x == f) l) e ∙ h

Effect-IsClosed : (f : Text) (s t : Store) → Effect s t → IsClosed f s → IsClosed f t
Effect-IsClosed f s t (Effect.same _ e g) (has, shut) = (same_has f s t g has, rw e shut)
Effect-IsClosed f s t (Effect.add_code row _ _ e g) (has, shut) = (same_has f s t g has, rw e shut)
Effect-IsClosed f s t (Effect.spend_code now p _ e g) (has, shut) =
    (same_has f s t g has, rw e shut)
Effect-IsClosed f s t (Effect.add_refresh row made) (has, shut) = (
  same_has f s t made.families has,
  rw made.added (
      All-append _ s.refresh_tokens (row ∷ []) shut
        ((λ mine. made.born_revoked (rw ((text_beq_iff row.token_family_id f).0 mine) has)), tt)),
)
Effect-IsClosed f s t (Effect.spend_refresh now p _ e g) (has, shut) = (
  same_has f s t g has,
  rw e (All-update_where _ p (consumed now) s.refresh_tokens (λ _ _ h. h) shut),
)
Effect-IsClosed f s t (Effect.revoke_some now p _ e g) (has, shut) = (
  same_has f s t g has,
  rw e (All-update_where _ _ (revoked now) s.refresh_tokens (λ _ _ _ _. refl) shut),
)
Effect-IsClosed f s t (Effect.revoke_all now k _ e g) (has, shut) = (
  ap (λ l. any (λ x. x == f) l) g ∙ has_family-record_family f k s has,
  rw e (All-update_where _ _ (revoked now) s.refresh_tokens (λ _ _ _ _. refl) shut),
)

revoke_shuts :
    (now f : Text) (xs : List RefreshToken)
    → All
        (λ r. of_family f r ≡ true → is_null r.revoked_at ≡ false)
        (update_where (λ r. of_family f r && is_null r.revoked_at) (revoked now) xs)
unfolding update_where
revoke_shuts now f [] = tt
revoke_shuts now f (r ∷ xs) = elim (Bool-cases (of_family f r && is_null r.revoked_at)) [
  | inl hit ↦ (rw hit (λ _. refl), revoke_shuts now f xs)
  | inr miss ↦ (rw miss (λ mine. ground arith), revoke_shuts now f xs)
]

pub revoke_family-IsClosed :
    (now family f : Text) (s t : Store) {b : Bool}
    → validate_token_lookup family ≡ ok f
    → revoke_oauth_refresh_token_family now family s ≡ ok (b, t)
    → IsClosed f t
unfolding revoke_oauth_refresh_token_family
revoke_family-IsClosed now family f s t v h =
    let e = ap (λ q. q.1) (ok-injective (rw v at h)) in
    rw (← e) (record_family_lem f s, revoke_shuts now f (record_family f s).refresh_tokens)

rotatable_live :
    (now hash : Text) (r : RefreshToken) → rotatable now hash r ≡ true → is_null r.revoked_at ≡ true
unfolding rotatable
rotatable_live now hash r h = ground arith

-- After a family of refresh tokens is revoked, no refresh token of that family is ever rotated
-- again, whatever operations follow, those that add a token to the family included.
pub revoke_family_final :
    (c : Secrets) (s t u v : Store) (now family : Text) (changed : Bool) (now' token : Text)
    (r : RefreshToken)
    → revoke_oauth_refresh_token_family now family s ≡ ok (changed, t)
    → Reach c t u
    → consume_oauth_refresh_token c now' token u ≡ ok (some r, v)
    → validate_token_lookup family ≢ ok r.token_family_id
unfolding consume_oauth_refresh_token
revoke_family_final c s t u v now family changed now' token r h reach took name =
    let closed =
      Reach-keeps (IsClosed r.token_family_id)
        (λ a b step. Effect-IsClosed r.token_family_id a b (Step-Effect c a b step)) reach
        (revoke_family-IsClosed now family r.token_family_id s t name h) in
    bind_elim (hash_bearer_token c token) _ took λ hash _ took₁.
      let (row, found, e) =
        map_option-some (consumed now') (find (rotatable now' hash) u.refresh_tokens)
          (ap (λ q. q.0) (ok-injective took₁)) in
      let (shut, live) = All-find _ (rotatable now' hash) u.refresh_tokens closed.1 found in
      false≢true (
        sym (shut ((text_beq_iff _ _).1 (ap (λ q. q.token_family_id) e)))
        ∙ rotatable_live now' hash row live)

revoke_tokens_shuts :
    (now : Text) (p : AuthToken → Bool) (xs : List AuthToken)
    → ((a : AuthToken) (o : Option Text) → p (record a { revoked_at = o }) ≡ p a)
    → All
        (λ a. p a ≡ true → is_null a.revoked_at ≡ false)
        (update_where p (λ a. record a { revoked_at = some now }) xs)
unfolding update_where
revoke_tokens_shuts now p [] same = tt
revoke_tokens_shuts now p (a ∷ xs) same = elim (Bool-cases (p a)) [
  | inl hit ↦ (rw hit (λ _. refl), revoke_tokens_shuts now p xs same)
  | inr miss ↦
      (rw miss (λ hit. absurd (false≢true (sym miss ∙ hit))), revoke_tokens_shuts now p xs same)
]

-- An access token that was issued with a refresh token of the family.
abbrev pub issued_in : Text → Store → Option Text → Bool
issued_in f s id =
    any (λ r. of_family f r && not (is_null r.access_token_id) && id == r.access_token_id)
      s.refresh_tokens

revoked_access :
    (now family f : Text) (s t : Store) {b : Bool}
    → validate_token_lookup family ≡ ok f
    → revoke_oauth_refresh_token_family now family s ≡ ok (b, t)
    → All (λ a. issued_in f s a.token_id ≡ true → is_null a.revoked_at ≡ false) t.auth_tokens
unfolding revoke_oauth_refresh_token_family
revoked_access now family f s t v h = rw (← ap (λ q. q.1) (ok-injective (rw v at h))) (
    All-mono _ _ _
      (λ a shut mine. shut (
        ap
          (λ l.
            any
              (λ r.
                of_family f r && not (is_null r.access_token_id) && a.token_id == r.access_token_id)
              l)
          (record_family_keeps f s).1
        ∙ mine))
      (revoke_tokens_shuts now (issued_with (of_family f) (record_family f s))
        (record_family f s).auth_tokens (λ _ _. refl)))

-- Revoking a family with a valid name also ends its access tokens: right after it, no bearer token
-- authenticates whose handle was issued with a refresh token of the family.
pub revoke_family_access :
    (c : Secrets) (s t v : Store) (now family f : Text) (changed : Bool) (now' token : Text)
    (x : AuthContextRow)
    → validate_token_lookup family ≡ ok f
    → revoke_oauth_refresh_token_family now family s ≡ ok (changed, t)
    → auth_context_for_token c now' token t ≡ ok (some x, v)
    → issued_in f s x.token_id ≡ false
revoke_family_access c s t v now family f changed now' token x name h got =
    let (hash, _, granted) = auth_context-IsGranted c now' token t v x got in
    let (shut, hit) =
      All-find _ (grants now' hash t.users) t.auth_tokens (revoked_access now family f s t name h)
        granted.found in
    let live = (grants-IsLive now' hash t.users granted.row hit).not_revoked in
    elim (Bool-cases (issued_in f s granted.row.token_id)) [
      | inl mine ↦ absurd (false≢true (sym (shut mine) ∙ live))
      | inr other ↦ ap (issued_in f s) granted.handle ∙ other
    ]
