-- ===== src/OauthEndpoint/Answers.antt =====
-- How often the token endpoint of memory/api/oauth_authorization.py answers a refresh token or an
-- authorization code with tokens.
use Prim.Native.String.{String}
use ai_memory_hub.Base.{
  Text, codes, ◌≡◌, ◌≢◌, refl, ap, sym, ◌∙◌, subst, Bool, true, false, ◌||◌, not, Option, none,
  some, if◌then◌else◌, Result, ok, raise, ok-injective, ◌==◌, text_eq, text_beq, is_empty,
  Bool-cases, inl, inr,
}
use ai_memory_hub.TokenStore.Rows.{Store, RefreshToken, AuthorizationCode, is_null}
use ai_memory_hub.TokenStore.Validate.{Secrets}
use ai_memory_hub.TokenStore.Codes.{consume_oauth_authorization_code}
use ai_memory_hub.TokenStore.Refresh.{oauth_refresh_token, consume_oauth_refresh_token}
use ai_memory_hub.TokenStore.SingleUse.{HasKeys, consume_code_once, consume_refresh_once}
use ai_memory_hub.TokenStore.Steps.{Reach}
use ai_memory_hub.OauthEndpoint.Handler.{
  Outcome, done, oauth_error, failed, Handler, after, ◌>>=◌, raise_oauth, settle, settle_read, call,
  look,
}
use ai_memory_hub.OauthEndpoint.Grants.{
  Draw, Form, TokenResponse, refuse_reuse, rotate, refresh_with, refresh_token_response, redeem,
  oauth_token, is_verifier, scopes_from_scope_value,
}
use ai_memory_hub.OauthEndpoint.Runs.{issue-Runs, Reach-trans}

module _ {ℓ κ} {A : Type ℓ} {B : Type κ} where
  after-done :
      (o : Outcome A) (t₁ : Store) (next : A → Handler B) {b : B} {t : Store}
      → after o t₁ next ≡ (done b, t)
      → (a : A) × (o ≡ done a) × (next a t₁ ≡ (done b, t))
  after-done (done a) t₁ next h = (a, refl, h)
  after-done (oauth_error e d) t₁ next h = absurd (cc (ap (λ q. q.0) h))
  after-done (failed e) t₁ next h = absurd (cc (ap (λ q. q.0) h))

  -- A handler that returns: what its first statement returned, and the run of the rest.
  bind-done :
      (m : Handler A) (next : A → Handler B) (s : Store) {b : B} {t : Store}
      → (m >>= next) s ≡ (done b, t)
      → (a : A) × ((m s).0 ≡ done a) × (next a (m s).1 ≡ (done b, t))
  unfolding ◌>>=◌
  bind-done m next s h = after-done (m s).0 (m s).1 next h

module _ {ℓ} {A : Type ℓ} where
  settle-done :
      (r : Result (A × Store)) (s : Store) {a : A}
      → (settle r s).0 ≡ done a
      → r ≡ ok (a, (settle r s).1)
  settle-done (ok (a, t)) s h = cc h
  settle-done (raise e) s h = absurd (cc h)

  call-done :
      (operation : Store → Result (A × Store)) (s : Store) {a : A}
      → (call operation s).0 ≡ done a
      → operation s ≡ ok (a, (call operation s).1)
  unfolding call
  call-done operation s h = settle-done (operation s) s h

  raise-not_done :
      (error description : String) (s t : Store) {a : A}
      → raise_oauth error description s ≢ (done a, t)
  unfolding raise_oauth
  raise-not_done error description s t h = cc (ap (λ q. q.0) h)

  settle_read-done :
      (r : Result A) (s : Store) {a : A}
      → (settle_read r s).0 ≡ done a
      → (r ≡ ok a) × ((settle_read r s).1 ≡ s)
  settle_read-done (ok a) s h = (cc h, refl)
  settle_read-done (raise e) s h = absurd (cc h)

  look-done :
      (query : Store → Result A) (s : Store) {a : A}
      → (look query s).0 ≡ done a
      → (query s ≡ ok a) × ((look query s).1 ≡ s)
  unfolding look
  look-done query s h = settle_read-done (query s) s h

  if-done :
      (b : Bool) (error description : String) (m : Handler A) (s : Store) {a : A} {t : Store}
      → (if b then raise_oauth error description else m) s ≡ (done a, t)
      → (b ≡ false) × (m s ≡ (done a, t))
  if-done true error description m s h = absurd (raise-not_done error description s _ h)
  if-done false error description m s h = (refl, h)

refuse_reuse-not_done :
    (d : Draw) (row : RefreshToken) (s t : Store) {a : TokenResponse}
    → refuse_reuse d row s ≢ (done a, t)
unfolding refuse_reuse
refuse_reuse-not_done d row s t h =
    let (_, _, rest) = bind-done _ _ s h in raise-not_done _ _ _ t rest

rotate-done :
    (c : Secrets) (d : Draw) (form : Form) (row : RefreshToken) (taken : Option RefreshToken)
    (s t : Store) {a : TokenResponse}
    → rotate c d form row taken s ≡ (done a, t)
    → (r : RefreshToken) × (taken ≡ some r) × Reach c s t
unfolding rotate
rotate-done c d form row none s t h = absurd (refuse_reuse-not_done d row s t h)
rotate-done c d form row (some r) s t h = elim (Bool-cases (is_null r.consumed_at)) [
  | inl idle ↦ absurd (refuse_reuse-not_done d row s t (rw idle at h))
  | inr spent ↦ (
    r,
    refl,
    subst (Reach c s) (ap (λ q. q.1) (rw spent at h)) (
        issue-Runs c d form.client_id row.owner_id row.resource row.scopes
          (some row.token_family_id) s),
  )
]

-- What a handler that answers with tokens did: it took the refresh token, then other steps.
record Took (c : Secrets) (d : Draw) (token : Text) (s t : Store) : Type 0 where
  row : RefreshToken
  mid : Store
  taken : consume_oauth_refresh_token c d.now token s ≡ ok (some row, mid)
  then_on : Reach c mid t

refresh_with-done :
    (c : Secrets) (d : Draw) (form : Form) (found : Option RefreshToken) (s t : Store)
    {a : TokenResponse}
    → refresh_with c d form found s ≡ (done a, t)
    → Took c d form.refresh_token s t
unfolding refresh_with
refresh_with-done c d form none s t h = absurd (raise-not_done _ _ s t h)
refresh_with-done c d form (some row) s t h =
    let (_, h₁) = if-done (not (row.client_id == form.client_id)) _ _ _ s h in
    elim (Bool-cases (not (is_null row.revoked_at) || not (is_null row.consumed_at))) [
      | inl reused ↦ absurd (refuse_reuse-not_done d row s t (rw reused at h₁))
      | inr fresh ↦
          let (_, h₂) = if-done (d.is_expired row.expires_at) _ _ _ s (rw fresh at h₁) in
          let (taken, e, h₃) = bind-done _ _ s h₂ in
          let (r, is_row, reach) = rotate-done c d form row taken _ t h₃ in
          record {
            row = r;
            mid = (call (consume_oauth_refresh_token c d.now form.refresh_token) s).1;
            taken =
                call-done (consume_oauth_refresh_token c d.now form.refresh_token) s e
                ∙ ap
                    (λ o.
                      ok (o, (call (consume_oauth_refresh_token c d.now form.refresh_token) s).1))
                    is_row;
            then_on = reach;
          }
    ]

refresh_token_response-done :
    (c : Secrets) (d : Draw) (form : Form) (s t : Store) {a : TokenResponse}
    → refresh_token_response c d form s ≡ (done a, t)
    → Took c d form.refresh_token s t
unfolding refresh_token_response
refresh_token_response-done c d form s t h =
    let (_, h₁) = if-done (is_empty form.refresh_token) _ _ _ s h in
    let (found, e, h₂) = bind-done _ _ s h₁ in
    let (_, still) = look-done (oauth_refresh_token c form.refresh_token) s e in
    refresh_with-done c d form found s t (ap (refresh_with c d form found) (sym still) ∙ h₂)

none-not_some :
    {A : Type 0} {r : Result (Option A × Store)} {a : A} {u v : Store}
    → r ≡ ok (none, u)
    → r ≢ ok (some a, v)
none-not_some h k = cc (ap (λ q. q.0) (ok-injective (sym h ∙ k)))

-- From a store whose hashes are distinct, the endpoint answers a refresh token with new tokens at
-- most once: after it did, and after any further operations on the store, no request with that
-- token is answered with tokens.
pub refresh_answers_once :
    (c : Secrets) (s t u v : Store) (d d' : Draw) (form form' : Form)
    (answer answer' : TokenResponse)
    → HasKeys s
    → refresh_token_response c d form s ≡ (done answer, t)
    → Reach c t u
    → form'.refresh_token ≡ form.refresh_token
    → refresh_token_response c d' form' u ≢ (done answer', v)
refresh_answers_once c s t u v d d' form form' answer answer' keys first reach same again =
    let took = refresh_token_response-done c d form s t first in
    let took' = refresh_token_response-done c d' form' u v again in
    none-not_some
      (consume_refresh_once c s took.mid u d.now form.refresh_token took.row keys took.taken
        (Reach-trans took.then_on reach) d'.now)
      (ap (λ x. consume_oauth_refresh_token c d'.now x u) (sym same) ∙ took'.taken)

redeem-done :
    (c : Secrets) (d : Draw) (found : Option AuthorizationCode) (s t : Store) {a : TokenResponse}
    → redeem c d found s ≡ (done a, t)
    → (row : AuthorizationCode) × (found ≡ some row) × Reach c s t
unfolding redeem
redeem-done c d none s t h = absurd (raise-not_done _ _ s t h)
redeem-done c d (some row) s t h = (
  row,
  refl,
  subst (Reach c s) (ap (λ q. q.1) h) (
      issue-Runs c d row.client_id row.owner_id row.resource (scopes_from_scope_value row.scope)
        none s),
)

-- An authorization code that was redeemed, at the endpoint.
code_answers_done :
    (c : Secrets) (d : Draw) (form : Form) (s t : Store) {a : TokenResponse}
    → form.grant_type ≡ codes "authorization_code"
    → oauth_token c d form s ≡ (done a, t)
    → (row : AuthorizationCode) × (mid : Store) × (consume_oauth_authorization_code c d.now
          form.code form.client_id form.redirect_uri
          (d.pkce_digest form.code_verifier)
          s
        ≡ ok (some row, mid))
      × Reach c mid t
unfolding oauth_token text_beq
code_answers_done c d form s t grant h =
    let (_, h₁) = if-done (not (is_verifier form.code_verifier)) _ _ _ s (rw grant at h) in
    let (found, e, h₂) = bind-done _ _ s h₁ in
    let consume =
      consume_oauth_authorization_code c d.now form.code form.client_id form.redirect_uri
        (d.pkce_digest form.code_verifier) in
    let (row, is_row, then_on) = redeem-done c d found (call consume s).1 t h₂ in
    (
      row,
      (call consume s).1,
      call-done consume s e ∙ ap (λ o. ok (o, (call consume s).1)) is_row,
      then_on,
    )

-- From a store whose hashes are distinct, the endpoint answers an authorization code with tokens at
-- most once: after it did, and after any further operations on the store, no request of this grant
-- with that code is answered with tokens, whatever client, redirect URI and verifier it names.
pub code_answers_once :
    (c : Secrets) (s t u v : Store) (d d' : Draw) (form form' : Form)
    (answer answer' : TokenResponse)
    → HasKeys s
    → form.grant_type ≡ codes "authorization_code"
    → form'.grant_type ≡ codes "authorization_code"
    → oauth_token c d form s ≡ (done answer, t)
    → Reach c t u
    → form'.code ≡ form.code
    → oauth_token c d' form' u ≢ (done answer', v)
code_answers_once c s t u v d d' form form' answer answer' keys grant grant' first reach same
      again =
    let (row, mid, taken, then_on) = code_answers_done c d form s t grant first in
    let (row', mid', taken', _) = code_answers_done c d' form' u v grant' again in
    none-not_some
      (consume_code_once c s mid u d.now form.code form.client_id form.redirect_uri
        (d.pkce_digest form.code_verifier) row keys taken (Reach-trans then_on reach) d'.now
        form'.client_id form'.redirect_uri (d'.pkce_digest form'.code_verifier))
      (ap
          (λ x.
            consume_oauth_authorization_code c d'.now x form'.client_id form'.redirect_uri
              (d'.pkce_digest form'.code_verifier) u)
          (sym same)
        ∙ taken')
