-- ===== src/TokenStore/Roles.antt =====
-- The memberships of memory/backend/metadata_store.py against a map from projects and users to
-- roles.
mod Examples
use ai_memory_hub.Base.{
  Text, text_eq, text_beq, text_beq_iff, text_beq_refl, text_beq_comm, ◌≢◌, not, ◌≡◌, refl, sym, ap,
  ◌∙◌, fun_ext, Bool, true, false, false≢true, ◌&&◌, Option, none, some, List, [], ◌∷◌, ◌++◌, any,
  ◌==◌, if◌then◌else◌, find, update_where, map_option, find-update_where, any-find, find-snoc,
  find-passes, find-snoc_other, Bool-cases, Option-cases, inl, inr, arith, Result, ok, ok-injective,
  bind_elim,
}
use ai_memory_hub.TokenStore.Rows.{Membership, Store, is_null}
use ai_memory_hub.TokenStore.Projects.{upsert_project_membership, add_user}
use ai_memory_hub.TokenStore.Validate.{validate_project_id, validate_owner_id}
use ai_memory_hub.TokenStore.Members.{
  is_member, add_project_member, validate_project_role, project_has_role, joined_membership,
  held_role, get_project_row, at_least_role, role_order,
}

-- What the memberships say of a project and a user.
unfoldable pub roles : Store → Text → Text → Option Text
unfolding find
roles s project user = map_option (λ m. m.role) (find (is_member project user) s.memberships)

-- One entry of a map changed.
abbrev pub assign : Text → Text → Text → (Text → Text → Option Text) → Text → Text → Option Text
assign project user role f p u = if p == project && u == user then some role else f p u

pub both_equal : (a b c d : Text) → (text_beq a b && text_beq c d) ≡ true → (a ≡ b) × (c ≡ d)
both_equal a b c d h = ground (arith, h, text_beq_iff a b, text_beq_iff c d)

text_and_comm : (a b c d : Text) → (text_beq a b && text_beq c d) ≡ (text_beq b a && text_beq d c)
text_and_comm a b c d = rw (text_beq_comm a b, text_beq_comm c d) refl

both_same : (a c : Text) → (text_beq a a && text_beq c c) ≡ true
both_same a c = rw (text_beq_refl a, text_beq_refl c) refl

-- Two pairs that differ share no row.
other_pair :
    (project user p u : Text) (m : Membership)
    → (text_beq p project && text_beq u user) ≡ false
    → is_member p u m ≡ true
    → is_member project user m ≡ false
other_pair project user p u m apart hit = elim (Bool-cases (is_member project user m)) [
  | inl both ↦
      let (a, b) = both_equal m.project_id p m.user_id u hit in
      let (c, d) = both_equal m.project_id project m.user_id user both in
      absurd (
        false≢true (
          sym apart
          ∙ ap (λ x. text_beq x project && text_beq u user) (sym a ∙ c)
          ∙ ap (λ x. text_beq project project && text_beq x user) (sym b ∙ d)
          ∙ both_same project user))
  | inr none_other ↦ none_other
]

module _ (project user role : Text) (p u : Text) where
  abbrev set_role : Membership → Membership
  set_role m = if is_member project user m then record m { role = role } else m

  abbrev role_in : List Membership → Option Text
  role_in ms = map_option (λ m. m.role) (find (is_member p u) ms)

  abbrev assigned : Option Text → Option Text
  assigned held = if p == project && u == user then some role else held

  role_in-found :
      (held : Option Membership)
      → ((m : Membership) → held ≡ some m → is_member p u m ≡ true)
      → ((text_beq p project && text_beq u user) ≡ true → held ≢ none)
      → map_option (λ m. m.role) (map_option set_role held)
        ≡ assigned (map_option (λ m. m.role) held)
  role_in-found none fits known = elim (Bool-cases (text_beq p project && text_beq u user)) [
    | inl same ↦ absurd (known same refl)
    | inr apart ↦ rw apart refl
  ]
  role_in-found (some m) fits known = elim (Bool-cases (text_beq p project && text_beq u user)) [
    | inl same ↦
        let (a, b) = both_equal p project u user same in
        let hit : is_member project user m ≡ true =
          ap (λ x. text_beq m.project_id x && text_beq m.user_id user) (sym a)
          ∙ ap (λ x. text_beq m.project_id p && text_beq m.user_id x) (sym b)
          ∙ fits m refl in
        rw (same, hit) refl
    | inr apart ↦ rw (apart, other_pair project user p u m apart (fits m refl)) refl
  ]

  role_in-updated :
      (ms : List Membership)
      → any (is_member project user) ms ≡ true
      → role_in (update_where (is_member project user) (λ m. record m { role = role }) ms)
        ≡ assigned (role_in ms)
  role_in-updated ms known =
      let (m, found) = any-find (is_member project user) ms known in
      ap (map_option (λ m. m.role)) (
        find-update_where (is_member p u) (is_member project user) (λ m. record m { role = role })
          ms (λ _. refl))
      ∙ role_in-found (find (is_member p u) ms) (λ m e. find-passes (is_member p u) ms e)
          λ same missing.
            let (a, b) = both_equal p project u user same in
            some-ne-none m (
              sym found
              ∙ ap (λ x. find (is_member x user) ms) (sym a)
              ∙ ap (λ x. find (is_member p x) ms) (sym b)
              ∙ missing)
    where
      some-ne-none : (m : Membership) → some m ≡ none → ⊥
      some-ne-none m e = cc

  role_in-added :
      (ms : List Membership)
      → any (is_member project user) ms ≡ false
      → role_in (ms ++ record { project_id = project; user_id = user; role = role } ∷ [])
        ≡ assigned (role_in ms)
  role_in-added ms fresh = elim (Bool-cases (text_beq p project && text_beq u user)) [
    | inl same ↦
        let (a, b) = both_equal p project u user same in
        rw (same, a, b)
          (ap (map_option (λ m. m.role)) (
            find-snoc (is_member project user) ms
              (record { project_id = project; user_id = user; role = role }) fresh
              (both_same project user)))
    | inr apart ↦ rw apart (
        ap (map_option (λ m. m.role)) (
          find-snoc_other (is_member p u) ms
            (record { project_id = project; user_id = user; role = role })
            (text_and_comm project p user u ∙ apart)))
  ]

upsert-assign_at :
    (project user role : Text) (s : Store) (p u : Text)
    → roles (upsert_project_membership project user role s) p u
      ≡ assign project user role (roles s) p u
unfolding roles upsert_project_membership
upsert-assign_at project user role s p u =
    elim (Bool-cases (any (is_member project user) s.memberships)) [
      | inl known ↦ rw known (role_in-updated project user role p u s.memberships known)
      | inr new ↦ rw new (role_in-added project user role p u s.memberships new)
    ]

add_user-roles : (user : Text) (s : Store) → roles (add_user user s) ≡ roles s
unfolding add_user roles
add_user-roles user s = elim (Bool-cases (any (λ u. u.id == user) s.users)) [
  | inl e ↦ rw e refl
  | inr e ↦ rw e refl
]

-- Adding a member that does not raise changes the map of roles at the normalized project and user,
-- to the normalized role, and nowhere else.
pub add_project_member-assign :
    (lower : Text → Text) (project_id user_id role : Text) (s : Store) {t : Store}
    → add_project_member lower project_id user_id role s ≡ ok t
    → (project : Text) × (user : Text) × (normalized : Text) × (validate_project_id project_id
        ≡ ok project)
      × (validate_owner_id user_id ≡ ok user)
      × (validate_project_role lower role ≡ ok normalized)
      × (roles t ≡ assign project user normalized (roles s))
unfolding add_project_member
add_project_member-assign lower project_id user_id role s h =
    bind_elim (validate_project_id project_id) _ h λ project a h₁.
      bind_elim (validate_owner_id user_id) _ h₁ λ user b h₂.
        bind_elim (validate_project_role lower role) _ h₂ λ normalized c h₃. (
          project,
          user,
          normalized,
          a,
          b,
          c,
          ap roles (sym (ok-injective h₃))
              ∙ fun_ext (λ p.
                fun_ext (λ u. upsert-assign_at project user normalized (add_user user s) p u))
              ∙ ap (assign project user normalized) (add_user-roles user s),
        )
