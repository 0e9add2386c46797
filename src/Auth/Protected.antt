-- ===== src/Auth/Protected.antt =====
-- The paths that memory/auth.py protects, with the scope that each needs.
use Prim.Native.String.{String}
use ai_memory_hub.Base.{
  arith, In-any, text_beq_refl, false≢true, sym, ◌∙◌, Text, codes, ◌≡◌, refl, ap, subst, inl, inr,
  Bool, true, false, Option, none, some, List, [], ◌∷◌, ◌++◌, In, any-In, ◌==◌, text_eq, text_beq,
  text_beq_iff, starts_with, Result, ok, ok-injective, bind_elim, Bool-cases, if◌then◌else◌,
}
use ai_memory_hub.TokenStore.Rows.{Store}
use ai_memory_hub.TokenStore.Validate.{Secrets}
use ai_memory_hub.Auth.Claims.{Config}
use ai_memory_hub.Auth.Requests.{
  has_query_access_token, Request, AuthContext, Verdict, public_path, unauthorized, forbidden,
  allowed, contains, is_public_path, write_paths, required_scopes_for_request, has_required_scopes,
}
use ai_memory_hub.Auth.Middleware.{
  authenticate, authenticate_connect_session, judge, dispatch_token, dispatch,
}

-- The paths that change the memory.
pub data WritePath : Text → Type 0 where
  import_path : WritePath (codes "/memory/import")
  insert_path : WritePath (codes "/memory/insert")
  supersede_path : WritePath (codes "/memory/facts/supersede")
  approve_path : WritePath (codes "/memory/pending/approve")
  reject_path : WritePath (codes "/memory/pending/reject")

-- A protected path and the scope it needs.
pub data Protected : Text → Text → Type 0 where
  mcp : Protected (codes "/mcp") (codes "memory:read")
  mcp_below : (rest : Text) → Protected (codes "/mcp/" ++ rest) (codes "memory:read")
  changes : {path : Text} → WritePath path → Protected path (codes "memory:write")
  memory_below :
      (rest : Text)
      → (WritePath (codes "/memory/" ++ rest) → ⊥)
      → Protected (codes "/memory/" ++ rest) (codes "memory:read")

-- Not let through as public; a refusal with 403 names the scope; and who is let through has the
-- scope, and no token in the query.
abbrev pub Guarded : Text → Request → Verdict → Type 0
Guarded scope request public_path = ⊥
Guarded scope request (unauthorized error) = Unit
Guarded scope request (forbidden required) = In scope required
Guarded scope request (allowed auth) =
    In scope auth.scopes
    × (In (codes "access_token") request.query_names → ⊥)
    × (In (codes "token") request.query_names → ⊥)

pub WritePath-listed : {path : Text} → WritePath path → contains write_paths path ≡ true
unfolding text_beq
WritePath-listed import_path = refl
WritePath-listed insert_path = refl
WritePath-listed supersede_path = refl
WritePath-listed approve_path = refl
WritePath-listed reject_path = refl

listed-WritePath : (path : Text) → In path write_paths → WritePath path
listed-WritePath path (inl e) = subst WritePath e import_path
listed-WritePath path (inr (inl e)) = subst WritePath e insert_path
listed-WritePath path (inr (inr (inl e))) = subst WritePath e supersede_path
listed-WritePath path (inr (inr (inr (inl e)))) = subst WritePath e approve_path
listed-WritePath path (inr (inr (inr (inr (inl e))))) = subst WritePath e reject_path
listed-WritePath path (inr (inr (inr (inr (inr none_left))))) = elim none_left [ ]

contains-In : (xs : List Text) (t : Text) → contains xs t ≡ true → In t xs
contains-In xs t h =
    let (x, there, same) = any-In (λ x. x == t) xs h in
    subst (λ y. In y xs) ((text_beq_iff x t).0 same) there

Protected-shut : {path scope : Text} → Protected path scope → is_public_path path ≡ false
unfolding is_public_path text_beq starts_with
Protected-shut mcp = refl
Protected-shut (mcp_below rest) = refl
Protected-shut (changes import_path) = refl
Protected-shut (changes insert_path) = refl
Protected-shut (changes supersede_path) = refl
Protected-shut (changes approve_path) = refl
Protected-shut (changes reject_path) = refl
Protected-shut (memory_below rest other) = refl

Protected-required :
    {path scope : Text} → Protected path scope → required_scopes_for_request path ≡ scope ∷ []
unfolding required_scopes_for_request text_beq starts_with
Protected-required mcp = refl
Protected-required (mcp_below rest) = refl
Protected-required (changes import_path) = refl
Protected-required (changes insert_path) = refl
Protected-required (changes supersede_path) = refl
Protected-required (changes approve_path) = refl
Protected-required (changes reject_path) = refl
Protected-required (memory_below rest other) =
    elim (Bool-cases (contains write_paths (codes "/memory/" ++ rest))) [
      | inl e ↦ absurd (other (listed-WritePath _ (contains-In write_paths _ e)))
      | inr e ↦ rw e refl
    ]

no_query_token :
    (request : Request)
    → has_query_access_token request ≡ false
    → (In (codes "access_token") request.query_names → ⊥)
      × (In (codes "token") request.query_names → ⊥)
unfolding has_query_access_token
no_query_token request plain = (
  absent (codes "access_token") (ground (arith, plain)),
  absent (codes "token") (ground (arith, plain)),
)
  where
    absent :
        (name : Text) → contains request.query_names name ≡ false → In name request.query_names → ⊥
    absent name none_there there = false≢true (
        sym none_there
        ∙ In-any (λ x. x == name) request.query_names name there (text_beq_refl name))

judge-Guarded :
    (error : String) (request : Request) (scope : Text) (o : Option AuthContext)
    → has_query_access_token request ≡ false
    → Protected request.path scope
    → Guarded scope request (judge error request.path o)
unfolding judge has_required_scopes
judge-Guarded error request scope none plain p = tt
judge-Guarded error request scope (some auth) plain p =
    rw (Protected-required p) (elim (Bool-cases (contains auth.scopes scope)) [
      | inl e ↦
          let (a, b) = no_query_token request plain in rw e (contains-In auth.scopes scope e, a, b)
      | inr e ↦ rw e (inl refl)
    ])

dispatch_token-Guarded :
    (c : Secrets) (config : Config) (request : Request) (token : Option Text) (s t : Store)
    (scope : Text) (v : Verdict)
    → has_query_access_token request ≡ false
    → Protected request.path scope
    → dispatch_token c config request token s ≡ ok (v, t)
    → Guarded scope request v
unfolding dispatch_token
dispatch_token-Guarded c config request none s t scope v plain p h =
    bind_elim (authenticate_connect_session config request s) _ h λ o _ h₁.
      subst (Guarded scope request) (ap (λ q. q.0) (ok-injective h₁))
        (judge-Guarded _ request scope o plain p)
dispatch_token-Guarded c config request (some token) s t scope v plain p h =
    bind_elim (authenticate c config request token s) _ h λ o _ h₁.
      subst (Guarded scope request) (ap (λ q. q.0) (ok-injective h₁))
        (judge-Guarded _ request scope o.0 plain p)

-- On a protected path the middleware, if it does not raise, never lets a request through as public:
-- it answers 401, or 403 with the scope that the path needs, or it lets the request through with a
-- context that has this scope and with no token in the query. `/mcp` and the paths below it and
-- below `/memory/` need `memory:read`, except the five write paths, which need `memory:write`.
pub dispatch-Protected :
    (c : Secrets) (config : Config) (request : Request) (s t : Store) (scope : Text) (v : Verdict)
    → Protected request.path scope
    → dispatch c config request s ≡ ok (v, t)
    → Guarded scope request v
unfolding dispatch
dispatch-Protected c config request s t scope v p h =
    after_query (has_query_access_token request) _
      (λ plain. dispatch_token-Guarded c config request _ s t scope v plain p)
      (rw (Protected-shut p) at h)
  where
    after_query :
        (query : Bool) (rest : Result (Verdict × Store))
        → (query ≡ false → rest ≡ ok (v, t) → Guarded scope request v)
        → (if query then ok (unauthorized "invalid_request", s) else rest) ≡ ok (v, t)
        → Guarded scope request v
    after_query true rest next e = subst (Guarded scope request) (ap (λ q. q.0) (ok-injective e)) tt
    after_query false rest next e = next refl e
