-- ===== src/TokenStore/Sessions.antt =====
-- Web sessions: `create_web_session`, `web_session_for_hash` and `revoke_web_session` of
-- memory/backend/metadata_store.py.
use ai_memory_hub.Base.{
  Text, codes, Bool, ◌&&◌, ◌||◌, not, Option, none, some, List, [], ◌∷◌, ◌++◌, all, any, drop, leb,
  eqb, length, is_empty, if◌then◌else◌, ◌==◌, text_eq, Result, ok, raise, value_error, ◌>>=◌, strip,
  starts_with, find, update_where,
}
use ai_memory_hub.TokenStore.Rows.{WebSession, Store, is_null, unexpired}
use ai_memory_hub.TokenStore.Validate.{validate_owner_id}

-- `[a-f0-9]{64}`
unfoldable pub is_digest : Text → Bool
is_digest s = eqb (length s) 64 && all (λ x. leb 97 x && leb x 102 || leb 48 x && leb x 57) s

unfoldable pub has_prefix : Text → Text → Bool
unfolding is_digest starts_with
has_prefix prefix s = starts_with s prefix && is_digest (drop (length prefix) s)

-- The pattern of `_validate_secret_hash`.
unfoldable pub is_secret_hash : Text → Bool
unfolding has_prefix
is_secret_hash s =
    has_prefix (codes "pbkdf2-sha256:") s
    || has_prefix (codes "hmac-sha256:") s
    || has_prefix (codes "sha256:") s

-- `_validate_secret_hash`; the name of the field in the message is left out.
unfoldable pub validate_secret_hash : Text → Result Text
unfolding is_secret_hash strip
validate_secret_hash value =
    let normalized = strip value in
    if is_empty normalized
    then raise (value_error "must be non-empty")
    else if leb 256 (length normalized)
    then raise (value_error "exceeds max length 255")
    else if not (is_secret_hash normalized)
    then raise (value_error "must be a supported secret hash")
    else ok normalized

unfoldable pub write_session : WebSession → List WebSession → List WebSession
write_session row sessions =
    if any (λ w. w.session_id_hash == row.session_id_hash) sessions
    then update_where (λ w. w.session_id_hash == row.session_id_hash) (λ _. row) sessions
    else sessions ++ row ∷ []

unfoldable pub create_web_session : Text → Text → Text → Text → Store → Result (WebSession × Store)
unfolding write_session
create_web_session session_id_hash user_id csrf_token_hash expires_at s = do
  session_hash ← validate_secret_hash session_id_hash
  csrf_hash ← validate_secret_hash csrf_token_hash
  owner ← validate_owner_id user_id
  let row : WebSession = record {
    session_id_hash = session_hash;
    user_id = owner;
    csrf_token_hash = csrf_hash;
    expires_at = expires_at;
    revoked_at = none;
  }
  ok (row, record s { sessions = write_session row s.sessions })

-- The write of `last_seen_at` is left out with that column.
unfoldable pub web_session_for_hash : Text → Text → Store → Result (Option WebSession)
web_session_for_hash now session_id_hash s = do
  session_hash ← validate_secret_hash session_id_hash
  ok (
      find
        (λ w.
          w.session_id_hash == session_hash && is_null w.revoked_at && unexpired now w.expires_at)
        s.sessions)

unfoldable pub revoke_web_session : Text → Text → Store → Result (Bool × Store)
revoke_web_session now session_id_hash s = do
  session_hash ← validate_secret_hash session_id_hash
  ok (
    any (λ w. w.session_id_hash == session_hash && is_null w.revoked_at) s.sessions,
    record s {
      sessions =
          update_where (λ w. w.session_id_hash == session_hash && is_null w.revoked_at)
            (λ w. record w { revoked_at = some now }) s.sessions;
    },
  )
