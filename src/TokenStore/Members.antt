-- ===== src/TokenStore/Members.antt =====
-- Projects and their members: `create_user`, `ensure_default_project`, `create_project`,
-- `add_project_member` and `project_has_role` of memory/backend/metadata_store.py.
-- `lower` is `str.lower`.
use ai_memory_hub.Base.{
  String, Text, text_eq, option_eq, codes, ℕ, Bool, false, ◌&&◌, Option, none, some, [], ◌∷◌, ◌++◌,
  any, leb, ◌==◌, if◌then◌else◌, strip, is_empty, Result, ok, raise, value_error, runtime_error,
  integrity_error, ◌>>=◌, find, update_where,
}
use ai_memory_hub.TokenStore.Rows.{Project, Membership, User, Store, is_null}
use ai_memory_hub.TokenStore.Validate.{Secrets, validate_owner_id, validate_project_id}
use ai_memory_hub.TokenStore.Projects.{
  coalesce, add_user, admin, default_project_id, ensure_default_project, local_default_project_id,
  upsert_project_membership, default_taken,
}

abbrev pub active_project : Text → Project → Bool
active_project project p = p.id == project && is_null p.archived_at

-- `_get_project_row`
unfoldable pub get_project_row : Text → Store → Option Project
get_project_row project s = find (active_project project) s.projects

-- `PROJECT_ROLE_ORDER`, none where the role is no key of it.
unfoldable pub role_order : Text → Option ℕ
role_order role =
    if role == codes "reader"
    then some 1
    else if role == codes "writer"
    then some 2
    else if role == codes "admin"
    then some 3
    else none

unfoldable pub validate_project_role : (Text → Text) → Text → Result Text
unfolding role_order strip
validate_project_role lower role =
    if is_null (role_order (lower (strip role)))
    then raise (value_error "project role must be one of: admin, writer, reader")
    else ok (lower (strip role))

-- The id of the project that `_ensure_default_project` returns.
abbrev found_default : Secrets → Text → Option Project → Text
found_default c owner none = default_project_id c owner
found_default c owner (some p) = p.id

unfoldable pub default_id : Secrets → Option Text → Store → Text
default_id c none s = local_default_project_id
default_id c (some owner) s =
    found_default c owner
      (find (λ p. p.owner_id == some owner && p.is_default && is_null p.archived_at) s.projects)

abbrev row_or_error {ℓ} : {A : Type ℓ} → String → Option A → Result A
row_or_error message none = raise (runtime_error message)
row_or_error message (some row) = ok row

-- A transaction and what is read of it, then the rest of the method, which raises after the commit
-- where the row is missing. What the transaction wrote stays.
abbrev after_commit {ℓ} :
    {A : Type ℓ} → String → Store → Result (Option A × Store) → Result A × Store
after_commit message s (raise exc) = (raise exc, s)
after_commit message s (ok (row, t)) = (row_or_error message row, t)

abbrev pub validate_owner : Option Text → Result (Option Text)
validate_owner none = ok none
validate_owner (some owner) = validate_owner_id owner >>= λ id. ok (some id)

unfoldable pub ensure_default_project_row : Secrets → Option Text → Store → Result Project × Store
unfolding ensure_default_project default_id get_project_row
ensure_default_project_row c owner_id s = after_commit "default project could not be resolved" s (do
  owner ← validate_owner owner_id
  s' ← ensure_default_project c owner s
  ok (get_project_row (default_id c owner s) s', s'))

-- INSERT INTO users … ON CONFLICT(id) DO UPDATE SET display_name = …, disabled_at = NULL
unfoldable pub enable_user : Text → Option Text → Store → Store
enable_user id display_name s =
    if any (λ u. u.id == id) s.users
    then record s {
      users =
          update_where (λ u. u.id == id)
            (λ u. record u {
              display_name = coalesce display_name u.display_name;
              disabled_at = none;
            })
            s.users;
    }
    else record s {
      users = s.users ++ record { id = id; display_name = display_name; disabled_at = none } ∷ [];
    }

unfoldable pub create_user : Secrets → Text → Option Text → Store → Result User × Store
unfolding enable_user ensure_default_project
create_user c user_id display_name s = after_commit "user could not be created" s (do
  owner ← validate_owner_id user_id
  s' ← ensure_default_project c (some owner) (enable_user owner display_name s)
  ok (find (λ u. u.id == owner) s'.users, s'))

-- INSERT INTO projects … ON CONFLICT(id) DO UPDATE, with one default project for each owner.
unfoldable pub upsert_project : Text → Text → Text → Option Text → Bool → Store → Result Store
unfolding default_taken
upsert_project project owner name description is_default s =
    if is_default && default_taken project (some owner) s.projects
    then raise integrity_error
    else if any (λ p. p.id == project) s.projects
    then ok (record s {
      projects =
          update_where (λ p. p.id == project)
            (λ p. record p {
              owner_id = some owner;
              name = name;
              description = description;
              is_default = is_default;
            })
            s.projects;
    })
    else ok (record s {
      projects =
          s.projects
          ++ record {
            id = project;
            owner_id = some owner;
            name = name;
            description = description;
            is_default = is_default;
            archived_at = none;
          }
            ∷ [];
    })

-- `name or project`
abbrev named : Option Text → Text → Text
named none project = project
named (some name) project = if is_empty name then project else name

unfoldable pub create_project :
    Text → Text → Option Text → Option Text → Bool → Store → Result Project × Store
unfolding add_user upsert_project upsert_project_membership get_project_row
create_project project_id owner_id name description is_default s =
    after_commit "project could not be created" s (do
      project ← validate_project_id project_id
      owner ← validate_owner_id owner_id
      s' ←
          upsert_project project owner (named name project) description is_default
            (add_user owner s)
      let done = upsert_project_membership project owner admin s' in
          ok (get_project_row project done, done))

unfoldable pub add_project_member : (Text → Text) → Text → Text → Text → Store → Result Store
unfolding validate_project_role add_user upsert_project_membership
add_project_member lower project_id user_id role s = do
  project ← validate_project_id project_id
  user ← validate_owner_id user_id
  normalized ← validate_project_role lower role
  ok (upsert_project_membership project user normalized (add_user user s))

abbrev pub is_member : Text → Text → Membership → Bool
is_member project user m = m.project_id == project && m.user_id == user

-- The comparison of ranks. A stored role that is no key, for which the code raises a KeyError,
-- gives false here.
abbrev pub at_least_role : Option ℕ → Option ℕ → Bool
at_least_role (some have) (some need) = leb need have
at_least_role _ _ = false

abbrev pub held_role : Option Membership → Text → Bool
held_role none required = false
held_role (some m) required = at_least_role (role_order m.role) (role_order required)

-- A membership that joins with a project that is not archived.
unfoldable pub joined_membership : Text → Text → Store → Option Membership
unfolding get_project_row
joined_membership project user s =
    if is_null (get_project_row project s)
    then none
    else find (is_member project user) s.memberships

unfoldable pub project_has_role : (Text → Text) → Text → Option Text → Text → Store → Result Bool
unfolding validate_project_role joined_membership
project_has_role lower project_id user_id role s = do
  project ← validate_project_id project_id
  required ← validate_project_role lower role
  elim user_id [
    | none ↦ ok (project == local_default_project_id)
    | some id ↦
        validate_owner_id id >>= λ user. ok (held_role (joined_membership project user s) required)
  ]
