-- ===== src/Auth/Requests.antt =====
-- What `AuthMiddleware` of memory/auth.py reads of a request and answers, with the scopes that a path
-- requires and `_extract_bearer_token`.
use Prim.Native.String.{String}
use ai_memory_hub.Base.{
  ℕ, Text, codes, Bool, ◌&&◌, ◌||◌, not, Option, none, some, List, [], ◌∷◌, all, any, eqb, leb, ◌+◌,
  map, is_empty, if◌then◌else◌, ◌==◌, text_eq, strip, starts_with,
}

-- What the middleware reads of a request, with the clock as the store's text and in seconds, and of
-- the query the names of its parameters. The
-- session cookie and the CSRF header are kept with their `hash_secret` digests.
pub record Request : Type 0 where
  pub method : Text
  pub path : Text
  pub query_names : List Text
  pub authorization : Option Text
  pub session_id : Text
  pub session_hash : Text
  pub csrf_token : Text
  pub csrf_hash : Text
  pub now : Text
  pub seconds : ℕ

pub data ContextMode : Type 0 where
  by_session by_bearer_token by_oauth : ContextMode

pub record AuthContext : Type 0 where
  pub owner_id : Text
  pub token_id : Option Text
  pub scopes : List Text
  pub auth_mode : ContextMode

-- What becomes of the request: let through on a public path, refused with 401 or 403, or let
-- through with a context.
pub data Verdict : Type 0 where
  public_path : Verdict
  unauthorized : String → Verdict
  forbidden : List Text → Verdict
  allowed : AuthContext → Verdict

abbrev pub contains : List Text → Text → Bool
contains xs t = any (λ x. x == t) xs

-- `_has_query_access_token`
unfoldable pub has_query_access_token : Request → Bool
has_query_access_token request =
    contains request.query_names (codes "access_token")
    || contains request.query_names (codes "token")

abbrev pub public_paths : List Text
public_paths =
    codes "/"
    ∷ codes "/connect"
    ∷ codes "/connect/import"
    ∷ codes "/auth/google"
    ∷ codes "/auth/google/callback"
    ∷ codes "/auth/logout"
    ∷ codes "/health"
    ∷ codes "/authorize"
    ∷ codes "/oauth/authorize"
    ∷ codes "/oauth/authorize/approve"
    ∷ codes "/oauth/authorize/deny"
    ∷ codes "/oauth/register"
    ∷ codes "/oauth/token"
    ∷ codes "/oauth/revoke"
    ∷ codes "/ready"
    ∷ codes "/register"
    ∷ codes "/token"
    ∷ codes "/.well-known/oauth-authorization-server"
    ∷ codes "/.well-known/oauth-protected-resource"
    ∷ []

unfoldable pub is_public_path : Text → Bool
is_public_path path =
    contains public_paths path
    || starts_with path (codes "/connect/static/")
    || starts_with path (codes "/.well-known/oauth-authorization-server/")
    || starts_with path (codes "/auth/")
    || starts_with path (codes "/.well-known/oauth-protected-resource/")

abbrev pub read_scope : Text
read_scope = codes "memory:read"

abbrev pub write_scope : Text
write_scope = codes "memory:write"

abbrev pub write_paths : List Text
write_paths =
    codes "/memory/import"
    ∷ codes "/memory/insert"
    ∷ codes "/memory/facts/supersede"
    ∷ codes "/memory/pending/approve"
    ∷ codes "/memory/pending/reject"
    ∷ []

unfoldable pub required_scopes_for_request : Text → List Text
required_scopes_for_request path =
    if path == codes "/mcp" || starts_with path (codes "/mcp/")
    then read_scope ∷ []
    else if contains write_paths path
    then write_scope ∷ []
    else if starts_with path (codes "/memory/")
    then read_scope ∷ []
    else []

unfoldable pub has_required_scopes : List Text → List Text → Bool
has_required_scopes actual required = is_empty required || all (contains actual) required

-- `value.partition(" ")`
unfoldable pub before_space : Text → Text
before_space [] = []
before_space (c ∷ s) = let rest = before_space s in if eqb c b' ' then [] else c ∷ rest

unfoldable pub after_space : Text → Text
after_space [] = []
after_space (c ∷ s) = let rest = after_space s in if eqb c b' ' then s else rest

-- `str.lower` on ASCII, which decides whether the scheme is `bearer`.
abbrev pub lower : ℕ → ℕ
lower c = if leb 65 c && leb c 90 then c + 32 else c

unfoldable pub extract_bearer_token : Option Text → Option Text
unfolding before_space after_space
extract_bearer_token none = none
extract_bearer_token (some value) =
    let token = strip (after_space value) in
    if not (map lower (before_space value) == codes "bearer") || is_empty token
    then none
    else some token
