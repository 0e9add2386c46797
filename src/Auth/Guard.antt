-- ===== src/Auth/Guard.antt =====
-- What memory/auth.py lets through: the rows and claims a context rests
-- on, and the end of a revoked token.
use Prim.Native.String.{String}
use ai_memory_hub.Base.{
  Text, ◌≡◌, refl, ap, sym, ◌∙◌, inl, inr, Bool, true, false, Option, none, some, List, [], ◌∷◌,
  All, All-mono, All-keep, All-keep_mono, All-both, if◌then◌else◌, ◌==◌, text_eq, text_beq_refl,
  text_beq_iff, Result, ok, ok-injective, bind_elim, Bool-cases, arith, some_inj,
}
use ai_memory_hub.TokenStore.Rows.{Store, AuthToken}
use ai_memory_hub.TokenStore.Validate.{Secrets, hash_bearer_token}
use ai_memory_hub.TokenStore.Access.{AuthContextRow, auth_context_for_token, revoke_auth_token}
use ai_memory_hub.TokenStore.Expiry.{revoke_auth_token_ends}
use ai_memory_hub.Auth.Claims.{
  AuthMode, bearer_token, oauth_resource_server, Config, AccessTokenClaims,
  validate_oauth_access_token, is_hub_issued_claim,
}
use ai_memory_hub.Auth.Requests.{
  has_query_access_token, Request, AuthContext, Verdict, public_path, unauthorized, allowed,
  contains, is_public_path, required_scopes_for_request, has_required_scopes, extract_bearer_token,
}
use ai_memory_hub.Auth.Middleware.{
  context_scopes, hub_context, authenticate_claims, authenticate_by, authenticate, judge,
  dispatch_token, dispatch,
}

judge-allowed :
    (error : String) (path : Text) (o : Option AuthContext) (auth : AuthContext)
    → judge error path o ≡ allowed auth
    → (o ≡ some auth) × (has_required_scopes auth.scopes (required_scopes_for_request path) ≡ true)
unfolding judge
judge-allowed error path none auth h = absurd (cc h)
judge-allowed error path (some a) auth h =
    elim (Bool-cases (has_required_scopes a.scopes (required_scopes_for_request path))) [
      | inl enough ↦
          let same : a ≡ auth = cc (rw enough at h) in
          (
            ap some same,
            ap (λ x. has_required_scopes x.scopes (required_scopes_for_request path)) (sym same)
                ∙ enough,
          )
      | inr short ↦ absurd (cc (rw short at h))
    ]

early_return :
    (b : Bool) (v : Verdict) (m : Result (Verdict × Store)) (s t : Store) (auth : AuthContext)
    → ¬ (v ≡ allowed auth)
    → (if b then ok (v, s) else m) ≡ ok (allowed auth, t)
    → (b ≡ false) × (m ≡ ok (allowed auth, t))
early_return true v m s t auth n h = absurd (n (ap (λ q. q.0) (ok-injective h)))
early_return false v m s t auth n h = (refl, h)

-- The part of `dispatch` after its two early returns.
dispatch-runs :
    (c : Secrets) (config : Config) (request : Request) (s t : Store) (auth : AuthContext)
    → dispatch c config request s ≡ ok (allowed auth, t)
    → (is_public_path request.path ≡ false)
      × (has_query_access_token request ≡ false)
      × (dispatch_token c config request (extract_bearer_token request.authorization) s
          ≡ ok (allowed auth, t))
unfolding dispatch
dispatch-runs c config request s t auth h =
    let (shut, h₁) =
      early_return (is_public_path request.path) public_path _ s t auth (λ e. cc e) h in
    let (plain, h₂) =
      early_return (has_query_access_token request) (unauthorized "invalid_request") _ s t auth
        (λ e. cc e) h₁ in
    (shut, plain, h₂)

contains_self : (xs : List Text) → All (λ x. contains xs x ≡ true) xs
contains_self [] = tt
contains_self (x ∷ xs) =
    (rw (text_beq_refl x) refl, All-mono _ _ xs (λ y h. rw h (ground arith)) (contains_self xs))

-- A scope that both the row and the claims have.
abbrev pub InBoth : AuthContextRow → AccessTokenClaims → Text → Type 0
InBoth row claims x = (contains claims.scopes x ≡ true) × (contains row.scopes x ≡ true)

hub_context_lem :
    (claims : AccessTokenClaims) (o : Option AuthContextRow) (auth : AuthContext)
    → hub_context claims o ≡ some auth
    → (row : AuthContextRow) × (o ≡ some row)
      × (row.owner_id ≡ auth.owner_id)
      × All (InBoth row claims) auth.scopes
unfolding hub_context context_scopes
hub_context_lem claims none auth h = absurd (cc h)
hub_context_lem claims (some row) auth h = elim (Bool-cases (row.owner_id == claims.owner_id)) [
  | inl mine ↦
      let e = some_inj (rw mine at h) in
      (
        row,
        refl,
        (text_beq_iff row.owner_id claims.owner_id).0 mine ∙ ap (λ a. a.owner_id) e,
        rw (← e) (
            All-both _ _ _ (All-keep (contains claims.scopes) (context_scopes row)) (
              All-keep_mono _ _ (context_scopes row) (
                All-keep_mono (λ x. contains row.scopes x ≡ true) _ row.scopes
                  (contains_self row.scopes)))),
      )
  | inr other ↦ absurd (cc (rw other at h))
]

-- If a request with a token that the hub issued is let through by the resource server, then the
-- token authenticated by its row in the store, the row has the owner of the context, and each scope
-- of the context is both in the row and in the claims of the token.
pub dispatch-hub_issued :
    (c : Secrets) (config : Config) (request : Request) (token : Text) (claims : AccessTokenClaims)
    (s t : Store) (auth : AuthContext)
    → config.auth ≡ oauth_resource_server
    → extract_bearer_token request.authorization ≡ some token
    → validate_oauth_access_token config request.seconds token ≡ some claims
    → is_hub_issued_claim claims config ≡ true
    → dispatch c config request s ≡ ok (allowed auth, t)
    → (row : AuthContextRow) × (auth_context_for_token c request.now token s ≡ ok (some row, t))
      × (row.owner_id ≡ auth.owner_id)
      × All (InBoth row claims) auth.scopes
unfolding dispatch_token authenticate authenticate_claims
dispatch-hub_issued c config request token claims s t auth mode header valid hub h =
    let (_, _, run) = dispatch-runs c config request s t auth h in
    bind_elim (authenticate_claims c config request.now token (some claims) s) _
      (rw (header, mode, valid) at run)
      λ o e h₁. bind_elim (auth_context_for_token c request.now token s) _ e λ stored got h₂.
        let (is_auth, _) =
          judge-allowed _ request.path o.0 auth (ap (λ q. q.0) (ok-injective h₁)) in
        let pair = ok-injective (rw hub at h₂) in
        let (row, is_row, owner, scopes) =
          hub_context_lem claims stored.0 auth (ap (λ q. q.0) pair ∙ is_auth) in
        let left : stored.1 ≡ t = ap (λ q. q.1) pair ∙ ap (λ q. q.1) (ok-injective h₁) in
        (
          row,
          got ∙ ap ok (ap (λ x. (x, stored.1)) is_row ∙ ap (λ x. (some row, x)) left),
          owner,
          scopes,
        )

-- Whether a token must have its row in the store: always with `bearer_token`, and with
-- `oauth_resource_server` unless another issuer's claims are valid.
unfoldable pub needs_row : AuthMode → Config → Option AccessTokenClaims → Bool
needs_row bearer_token config claims = true
needs_row oauth_resource_server config none = true
needs_row oauth_resource_server config (some claims) = is_hub_issued_claim claims config

claims_revoked :
    (c : Secrets) (config : Config) (now token : Text) (claims : AccessTokenClaims) (t : Store)
    → is_hub_issued_claim claims config ≡ true
    → auth_context_for_token c now token t ≡ ok (none, t)
    → authenticate_claims c config now token (some claims) t ≡ ok (none, t)
unfolding authenticate_claims hub_context
claims_revoked c config now token claims t hub gone = rw (gone, hub) refl

authenticate_revoked :
    (mode : AuthMode) (c : Secrets) (config : Config) (request : Request) (token : Text)
    (claims : Option AccessTokenClaims) (t : Store)
    → validate_oauth_access_token config request.seconds token ≡ claims
    → needs_row mode config claims ≡ true
    → auth_context_for_token c request.now token t ≡ ok (none, t)
    → authenticate_by mode c config request token t ≡ ok (none, t)
unfolding authenticate_by needs_row
authenticate_revoked bearer_token c config request token claims t e needs gone = rw gone refl
authenticate_revoked oauth_resource_server c config request token none t e needs gone = rw e refl
authenticate_revoked oauth_resource_server c config request token (some claims) t e needs gone =
    rw e (claims_revoked c config request.now token claims t needs gone)

-- After `revoke_auth_token` returns a row, a request outside the public paths, with no token in its
-- query, that presents the token of that row is refused as `invalid_token` and changes nothing, if
-- the token needs a row.
pub dispatch-revoked :
    (c : Secrets) (config : Config) (request : Request) (token now handle : Text) (row : AuthToken)
    (s t : Store)
    → revoke_auth_token now handle s ≡ ok (some row, t)
    → hash_bearer_token c token ≡ ok row.token_hash
    → extract_bearer_token request.authorization ≡ some token
    → needs_row config.auth config (validate_oauth_access_token config request.seconds token) ≡ true
    → is_public_path request.path ≡ false
    → has_query_access_token request ≡ false
    → dispatch c config request t ≡ ok (unauthorized "invalid_token", t)
unfolding dispatch dispatch_token judge authenticate
dispatch-revoked c config request token now handle row s t revoked hash header needs shut plain =
    let gone = revoke_auth_token_ends c s t now handle row request.now token revoked hash in
    simp (
      shut,
      plain,
      header,
      authenticate_revoked config.auth c config request token _ t refl needs gone,
    )
