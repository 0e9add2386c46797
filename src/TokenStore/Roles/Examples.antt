-- ===== src/TokenStore/Roles/Examples.antt =====
-- Runs of the memberships, and the properties at a concrete store.
use ai_memory_hub.Base.{
  Text, text_beq, codes, ◌≡◌, ◌↔◌, refl, Bool, false, true, none, some, [], ◌∷◌, ok, is_space, find,
  update_where,
}
use ai_memory_hub.TokenStore.Rows.{Store}
use ai_memory_hub.TokenStore.Validate.{validate_project_id, validate_owner_id}
use ai_memory_hub.TokenStore.Projects.{add_user}
use ai_memory_hub.TokenStore.Members.{add_project_member, project_has_role, validate_project_role}
use ai_memory_hub.TokenStore.Roles.{roles, assign, add_project_member-assign}
use ai_memory_hub.TokenStore.Grading.{IsActive, Holds, project_has_role-granted}

abbrev lower : Text → Text
lower t = t

abbrev shared : Store
shared = record {
  users = record { id = codes "ann"; display_name = none; disabled_at = none } ∷ [];
  projects =
      record {
        id = codes "p";
        owner_id = some (codes "ann");
        name = codes "p";
        description = none;
        is_default = false;
        archived_at = none;
      }
      ∷ [];
  memberships =
      record { project_id = codes "p"; user_id = codes "ann"; role = codes "admin" }
      ∷ record { project_id = codes "p"; user_id = codes "bob"; role = codes "reader" }
      ∷ [];
  auth_tokens = [];
  sessions = [];
  clients = [];
  codes = [];
  refresh_tokens = [];
  families = [];
}

abbrev promoted : Store
promoted = record shared {
  users =
      record { id = codes "ann"; display_name = none; disabled_at = none }
      ∷ record { id = codes "bob"; display_name = some (codes "bob"); disabled_at = none }
      ∷ [];
  memberships =
      record { project_id = codes "p"; user_id = codes "ann"; role = codes "admin" }
      ∷ record { project_id = codes "p"; user_id = codes "bob"; role = codes "writer" }
      ∷ [];
}

added : add_project_member lower (codes "p") (codes "bob") (codes "writer") shared ≡ ok promoted
unfolding add_project_member validate_project_id validate_owner_id validate_project_role add_user
    update_where text_beq is_space
added = refl

add_project_member-assign_example :
    (project : Text) × (user : Text) × (normalized : Text) × (validate_project_id (codes "p")
      ≡ ok project)
    × (validate_owner_id (codes "bob") ≡ ok user)
    × (validate_project_role lower (codes "writer") ≡ ok normalized)
    × (roles promoted ≡ assign project user normalized (roles shared))
add_project_member-assign_example =
    add_project_member-assign lower (codes "p") (codes "bob") (codes "writer") shared added

may_read :
    project_has_role lower (codes "p") (some (codes "bob")) (codes "writer") shared ≡ ok false
unfolding project_has_role validate_project_id validate_owner_id validate_project_role find text_beq
    is_space
may_read = refl

bob_may_read :
    project_has_role lower (codes "p") (some (codes "bob")) (codes "reader") shared ≡ ok true
unfolding project_has_role validate_project_id validate_owner_id validate_project_role find text_beq
    is_space
bob_may_read = refl

project_has_role-granted_example :
    (answer : Bool) × (project_has_role lower
        (codes "p")
        (some (codes "bob"))
        (codes "reader")
        shared
      ≡ ok answer)
    × (answer ≡ true
        ↔ (IsActive (codes "p") shared × Holds (codes "p") (codes "bob") (codes "reader") shared))
unfolding validate_project_id validate_owner_id validate_project_role text_beq is_space
project_has_role-granted_example =
    project_has_role-granted lower (codes "p") (codes "bob") (codes "reader") (codes "p")
      (codes "bob") (codes "reader") shared (refl, (refl, tt)) refl refl refl
