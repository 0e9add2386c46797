-- ===== src/TokenStore/Frames.antt =====
-- What the operations of memory/backend/metadata_store.py on users and projects leave alone.
use ai_memory_hub.Base.{
  Text, ◌≡◌, refl, ◌∙◌, Option, none, some, arith, ok, ok-injective, bind-eq-ok, text_eq, option_eq,
  codes,
}
use ai_memory_hub.TokenStore.Rows.{Store, Project}
use ai_memory_hub.TokenStore.Validate.{Secrets}
use ai_memory_hub.TokenStore.Projects.{
  upsert_user, add_user, upsert_project_membership, insert_or_mark, upsert_default_project,
  owned_default, ensure_default_project, default_project_id, admin,
}

-- The tables of tokens, clients and codes are the same.
pub record SameTokens (s t : Store) : Type 0 where
  pub auth_tokens : t.auth_tokens ≡ s.auth_tokens
  pub clients : t.clients ≡ s.clients
  pub codes : t.codes ≡ s.codes
  pub refresh_tokens : t.refresh_tokens ≡ s.refresh_tokens
  pub families : t.families ≡ s.families

pub SameTokens-refl : (s : Store) → SameTokens s s
SameTokens-refl s = record {
  auth_tokens = refl;
  clients = refl;
  codes = refl;
  refresh_tokens = refl;
  families = refl;
}

pub SameTokens-trans : {s t u : Store} → SameTokens s t → SameTokens t u → SameTokens s u
SameTokens-trans a b = record {
  auth_tokens = b.auth_tokens ∙ a.auth_tokens;
  clients = b.clients ∙ a.clients;
  codes = b.codes ∙ a.codes;
  refresh_tokens = b.refresh_tokens ∙ a.refresh_tokens;
  families = b.families ∙ a.families;
}

pub upsert_user-SameTokens :
    (id : Text) (d : Option Text) (s : Store) → SameTokens s (upsert_user id d s)
unfolding upsert_user
upsert_user-SameTokens id d s = ground arith

pub add_user-SameTokens : (id : Text) (s : Store) → SameTokens s (add_user id s)
unfolding add_user
add_user-SameTokens id s = ground arith

upsert_project_membership-SameTokens :
    (p u r : Text) (s : Store) → SameTokens s (upsert_project_membership p u r s)
unfolding upsert_project_membership
upsert_project_membership-SameTokens p u r s = ground arith

insert_or_mark-SameTokens :
    (id : Text) (owner : Option Text) (name : Text) (s s' : Store) (o : Option Project)
    → insert_or_mark id owner name s o ≡ ok s'
    → SameTokens s s'
unfolding insert_or_mark
insert_or_mark-SameTokens id owner name s s' none h = ground arith
insert_or_mark-SameTokens id owner name s s' (some p) h = ground arith

owned_default-SameTokens :
    (c : Secrets) (owner : Text) (s s' : Store) (o : Option Project)
    → owned_default c owner s o ≡ ok s'
    → SameTokens s s'
unfolding owned_default upsert_default_project
owned_default-SameTokens c owner s s' (some p) h =
    rw (← ok-injective h) (upsert_project_membership-SameTokens p.id owner admin s)
owned_default-SameTokens c owner s s' none h =
    let (t, made, e) =
      bind-eq-ok
        (upsert_default_project (default_project_id c owner) (some owner) (codes "Private Default")
          s)
        _ h in
    rw (← ok-injective e) (
      SameTokens-trans (insert_or_mark-SameTokens _ _ _ s t _ made)
        (upsert_project_membership-SameTokens _ owner admin t))

pub ensure_default_project-SameTokens :
    (c : Secrets) (owner : Option Text) (s s' : Store)
    → ensure_default_project c owner s ≡ ok s'
    → SameTokens s s'
unfolding ensure_default_project upsert_default_project
ensure_default_project-SameTokens c none s s' h = insert_or_mark-SameTokens _ _ _ s s' _ h
ensure_default_project-SameTokens c (some owner) s s' h =
    SameTokens-trans (add_user-SameTokens owner s)
      (owned_default-SameTokens c owner (add_user owner s) s' _ h)
