-- ===== src/TokenStore/Projects.antt =====
-- Users, their default projects and memberships: `_ensure_default_project`, `_default_project_id` and
-- `_upsert_project_membership` of memory/backend/metadata_store.py.
use ai_memory_hub.Base.{
  Text, codes, Bool, true, ◌&&◌, not, Option, none, some, List, [], ◌∷◌, ◌++◌, ◌==◌, text_eq,
  option_eq, if◌then◌else◌, any, Result, ok, raise, integrity_error, ◌>>=◌, find, update_where,
}
use ai_memory_hub.TokenStore.Rows.{Project, Store, is_null}
use ai_memory_hub.TokenStore.Validate.{Secrets}

abbrev pub coalesce : Option Text → Option Text → Option Text
coalesce none b = b
coalesce (some a) b = some a

-- INSERT INTO users … ON CONFLICT(id) DO UPDATE SET display_name = COALESCE(excluded, users)
unfoldable pub upsert_user : Text → Option Text → Store → Store
upsert_user id display_name s =
    if any (λ u. u.id == id) s.users
    then record s {
      users =
          update_where (λ u. u.id == id)
            (λ u. record u { display_name = coalesce display_name u.display_name }) s.users;
    }
    else record s {
      users = s.users ++ record { id = id; display_name = display_name; disabled_at = none } ∷ [];
    }

-- INSERT INTO users … ON CONFLICT(id) DO NOTHING
unfoldable pub add_user : Text → Store → Store
add_user id s = if any (λ u. u.id == id) s.users then s else record s {
  users = s.users ++ record { id = id; display_name = some id; disabled_at = none } ∷ [];
}

abbrev pub local_default_project_id : Text
local_default_project_id = codes "local-default"

-- `_default_project_id`
abbrev pub default_project_id : Secrets → Text → Text
default_project_id c owner = codes "private-" ++ c.project_digest owner

-- `_upsert_project_membership`
unfoldable pub upsert_project_membership : Text → Text → Text → Store → Store
upsert_project_membership project user role s =
    if any (λ m. m.project_id == project && m.user_id == user) s.memberships
    then record s {
      memberships =
          update_where (λ m. m.project_id == project && m.user_id == user)
            (λ m. record m { role = role }) s.memberships;
    }
    else record s {
      memberships =
          s.memberships ++ record { project_id = project; user_id = user; role = role } ∷ [];
    }

-- The unique indexes on the default project of an owner, and of no owner.
unfoldable pub default_taken : Text → Option Text → List Project → Bool
default_taken id owner = any (λ p. not (p.id == id) && p.owner_id == owner && p.is_default)

unfoldable pub insert_or_mark : Text → Option Text → Text → Store → Option Project → Result Store
unfolding default_taken
insert_or_mark id owner name s none =
    if default_taken id owner s.projects
    then raise integrity_error
    else ok (record s {
      projects =
          s.projects
          ++ record {
            id = id;
            owner_id = owner;
            name = name;
            description = none;
            is_default = true;
            archived_at = none;
          }
            ∷ [];
    })
insert_or_mark id owner name s (some old) =
    if default_taken id old.owner_id s.projects
    then raise integrity_error
    else ok (record s {
      projects = update_where (λ p. p.id == id) (λ p. record p { is_default = true }) s.projects;
    })

-- INSERT INTO projects … ON CONFLICT(id) DO UPDATE SET is_default = 1
unfoldable pub upsert_default_project : Text → Option Text → Text → Store → Result Store
unfolding insert_or_mark
upsert_default_project id owner name s =
    insert_or_mark id owner name s (find (λ p. p.id == id) s.projects)

abbrev pub admin : Text
admin = codes "admin"

unfoldable pub owned_default : Secrets → Text → Store → Option Project → Result Store
unfolding upsert_default_project upsert_project_membership
owned_default c owner s (some p) = ok (upsert_project_membership p.id owner admin s)
owned_default c owner s none = do
  s' ← upsert_default_project (default_project_id c owner) (some owner) (codes "Private Default") s
  ok (upsert_project_membership (default_project_id c owner) owner admin s')

-- `_ensure_default_project`
unfoldable pub ensure_default_project : Secrets → Option Text → Store → Result Store
unfolding upsert_default_project owned_default add_user
ensure_default_project c none s =
    upsert_default_project local_default_project_id none (codes "Local Default") s
ensure_default_project c (some owner) s =
    let s' = add_user owner s in
    owned_default c owner s'
      (find (λ p. p.owner_id == some owner && p.is_default && is_null p.archived_at) s'.projects)
