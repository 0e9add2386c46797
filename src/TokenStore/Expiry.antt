-- ===== src/TokenStore/Expiry.antt =====
-- The end of a bearer token in memory/backend/metadata_store.py: by revocation, and by its
-- `expires_at` text, which `utc_after` of memory/api/connect_service.py writes in ISO format.
use ai_memory_hub.Base.{
  Text, ◌≡◌, refl, ap, ◌∙◌, sym, true, false, false≢true, Option, none, some, arith, List, [], ◌∷◌,
  ◌++◌, ◌&&◌, ◌==◌, ◌⊎◌, text_eq, text_beq_iff, any, find, find-none, update_where, All, All-mono,
  ok, ok-injective, bind_elim, Bool-cases, inl, inr, codes, text_ltb, some_inj,
}
use ai_memory_hub.TokenStore.Rows.{Store, User, AuthToken, is_null, unexpired}
use ai_memory_hub.TokenStore.Validate.{
  Secrets, hash_bearer_token, validate_token_lookup, parse_token_scopes,
}
use ai_memory_hub.TokenStore.Access.{
  auth_context_for_token, context_of, grants, revoke_auth_token, revoke_found, revoke_tokens,
}

update_where-revoked :
    (now k : Text) (xs : List AuthToken)
    → All
        (λ a. (a.token_hash == k) ≡ true → is_null a.revoked_at ≡ false)
        (update_where (λ a. a.token_hash == k) (λ a. record a { revoked_at = some now }) xs)
unfolding update_where
update_where-revoked now k [] = tt
update_where-revoked now k (a ∷ xs) = elim (Bool-cases (a.token_hash == k)) [
  | inl hit ↦ (rw hit (λ _. refl), update_where-revoked now k xs)
  | inr miss ↦
      (rw miss (λ hit. absurd (false≢true (sym miss ∙ hit))), update_where-revoked now k xs)
]

find_same :
    (k : Text) (xs : List AuthToken) (row : AuthToken)
    → find (λ a. a.token_hash == k) xs ≡ some row
    → row.token_hash ≡ k
unfolding find
find_same k [] row h = absurd (cc h)
find_same k (a ∷ xs) row h = elim (Bool-cases (a.token_hash == k)) [
  | inl hit ↦ rw (← some_inj (rw hit at h)) ((text_beq_iff a.token_hash k).0 hit)
  | inr miss ↦ find_same k xs row (rw miss at h)
]

revoked_none :
    (now hash : Text) (s : Store)
    → All (λ a. (a.token_hash == hash) ≡ true → is_null a.revoked_at ≡ false) s.auth_tokens
    → find (grants now hash s.users) s.auth_tokens ≡ none
unfolding grants
revoked_none now hash s h =
    find-none _ s.auth_tokens
      (All-mono _ _ s.auth_tokens (λ a shut. go a (Bool-cases (a.token_hash == hash)) shut) h)
  where
    go :
        (a : AuthToken)
        → ((a.token_hash == hash) ≡ true) ⊎ ((a.token_hash == hash) ≡ false)
        → ((a.token_hash == hash) ≡ true → is_null a.revoked_at ≡ false)
        → grants now hash s.users a ≡ false
    go a (inl hit) shut = rw (hit, shut hit) refl
    go a (inr miss) shut = rw miss refl

revoke_found-shut :
    (now : Text) (s t : Store) (o : Option AuthToken) (row : AuthToken)
    → revoke_found now s o ≡ ok (some row, t)
    → All
        (λ a. (a.token_hash == row.token_hash) ≡ true → is_null a.revoked_at ≡ false)
        t.auth_tokens
unfolding revoke_found revoke_tokens
revoke_found-shut now s t none row h = absurd (cc (ap (λ q. q.0) (ok-injective h)))
revoke_found-shut now s t (some a) row h =
    let same = find_same a.token_hash _ row (ap (λ q. q.0) (ok-injective h)) in
    rw same
      (rw (← ap (λ q. q.1) (ok-injective h)) (update_where-revoked now a.token_hash s.auth_tokens))

-- After `revoke_auth_token` returns a row, no token with the hash of that row authenticates in the
-- state it leaves, at any time, and the attempt changes nothing.
pub revoke_auth_token_ends :
    (c : Secrets) (s t : Store) (now token_id : Text) (row : AuthToken) (now' token : Text)
    → revoke_auth_token now token_id s ≡ ok (some row, t)
    → hash_bearer_token c token ≡ ok row.token_hash
    → auth_context_for_token c now' token t ≡ ok (none, t)
unfolding revoke_auth_token auth_context_for_token context_of
revoke_auth_token_ends c s t now token_id row now' token h e =
    bind_elim (validate_token_lookup token_id) _ h λ handle _ h₁.
      rw e (rw (revoked_none now' row.token_hash t (revoke_found-shut now s t _ row h₁)) refl)

text_ltb-prefix : (p s t : Text) → text_ltb (p ++ s) (p ++ t) ≡ text_ltb s t
unfolding text_ltb
text_ltb-prefix [] s t = refl
text_ltb-prefix (a ∷ p) s t = ground (arith, text_ltb-prefix p s t)

-- The text of CURRENT_TIMESTAMP: the day, a blank and the clock.
abbrev pub sql_time : Text → Text → Text
sql_time day clock = day ++ (codes " " ++ clock)

-- The text of `datetime.isoformat()`: the day, a `T` and the clock.
abbrev pub iso_time : Text → Text → Text
iso_time day clock = day ++ (codes "T" ++ clock)

same_day : (day clock clock' : Text) → unexpired (sql_time day clock') (iso_time day clock) ≡ true
unfolding text_ltb
same_day day clock clock' = text_ltb-prefix day (codes " " ++ clock') (codes "T" ++ clock)

same_day-grants :
    (day clock clock' hash : Text) (users : List User) (row : AuthToken)
    → row.token_hash ≡ hash
    → is_null row.revoked_at ≡ true
    → any (λ u. u.id == row.owner_id && is_null u.disabled_at) users ≡ true
    → row.expires_at ≡ some (iso_time day clock)
    → grants (sql_time day clock') hash users row ≡ true
unfolding grants
same_day-grants day clock clock' hash users row named live enabled ends =
    rw ((text_beq_iff row.token_hash hash).1 named, live, enabled, ends) (same_day day clock clock')

-- A bearer token whose `expires_at` is an ISO text authenticates during the whole day on which it
-- expires, whatever the two clock times are: if its row is the first of the table, is not revoked
-- and has the hash of the token, its owner is enabled and its scopes parse, then its owner, handle
-- and scopes are returned.
pub same_day_authenticates :
    (c : Secrets) (s : Store) (row : AuthToken) (rest : List AuthToken) (scopes : List Text)
    (day clock clock' token : Text)
    → s.auth_tokens ≡ row ∷ rest
    → hash_bearer_token c token ≡ ok row.token_hash
    → is_null row.revoked_at ≡ true
    → any (λ u. u.id == row.owner_id && is_null u.disabled_at) s.users ≡ true
    → row.expires_at ≡ some (iso_time day clock)
    → parse_token_scopes row.scopes ≡ ok scopes
    → (t : Store) × (auth_context_for_token c (sql_time day clock') token s
        ≡ ok (
          some (record { owner_id = row.owner_id; token_id = row.token_id; scopes = scopes }),
          t,
        ))
unfolding auth_context_for_token context_of find
same_day_authenticates c s row rest scopes day clock clock' token first hashed live enabled ends
      parsed =
    let hit = same_day-grants day clock clock' row.token_hash s.users row refl live enabled ends in
    (
      record s {
        auth_tokens =
            update_where (λ u. u.token_hash == row.token_hash)
              (λ u. record u { last_used_at = some (sql_time day clock') }) s.auth_tokens;
      },
      rw (hashed, first, hit, parsed) refl,
    )
