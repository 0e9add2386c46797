-- ===== src/TokenStore/Grading.antt =====
-- Who has a role in a project, by the rows of the tables: `project_has_role` of
-- memory/backend/metadata_store.py.
use ai_memory_hub.Base.{
  Text, text_eq, text_beq, text_beq_iff, text_beq_refl, codes, ℕ, ◌≡◌, ◌↔◌, refl, sym, subst, ◌∙◌,
  Bool, true, false, false≢true, ◌&&◌, Option, none, some, List, [], ◌∷◌, any, leb, ◌==◌, find,
  any-find, find-passes, find-In, In, In-any, Bool-cases, Option-cases, inl, inr, arith, ok,
  some_inj,
}
use ai_memory_hub.TokenStore.Rows.{Project, Membership, Store, is_null}
use ai_memory_hub.TokenStore.Roles.{both_equal}
use ai_memory_hub.TokenStore.Validate.{validate_project_id, validate_owner_id}
use ai_memory_hub.TokenStore.Members.{
  active_project, is_member, validate_project_role, project_has_role, joined_membership, held_role,
  get_project_row, at_least_role, role_order,
}

-- What a role that is held allows.
pub data Grants : Text → Text → Type 0 where
  reader_reads : Grants (codes "reader") (codes "reader")
  writer_reads : Grants (codes "writer") (codes "reader")
  writer_writes : Grants (codes "writer") (codes "writer")
  admin_reads : Grants (codes "admin") (codes "reader")
  admin_writes : Grants (codes "admin") (codes "writer")
  admin_rules : Grants (codes "admin") (codes "admin")

-- A project with the id that is not archived.
abbrev pub IsActive : Text → Store → Type 0
IsActive project s = (p : Project) × In p s.projects × (p.id ≡ project) × (p.archived_at ≡ none)

-- A membership of the user whose role allows the required one.
abbrev pub Holds : Text → Text → Text → Store → Type 0
Holds project user required s =
    (m : Membership) × In m s.memberships
    × (m.project_id ≡ project)
    × (m.user_id ≡ user)
    × Grants m.role required

-- PRIMARY KEY (project_id, user_id)
abbrev pub DistinctMembers : List Membership → Type 0
DistinctMembers [] = Unit
DistinctMembers (m ∷ ms) =
    (any (λ n. n.project_id == m.project_id && n.user_id == m.user_id) ms ≡ false)
    × DistinctMembers ms

-- The ranks of the roles.
data Ranked : Text → ℕ → Type 0 where
  reader_rank : Ranked (codes "reader") 1
  writer_rank : Ranked (codes "writer") 2
  admin_rank : Ranked (codes "admin") 3

role_order-Ranked : (role : Text) {n : ℕ} → role_order role ≡ some n → Ranked role n
unfolding role_order
role_order-Ranked role {n} h = elim (Bool-cases (role == codes "reader")) [
  | inl e ↦ at_rank (codes "reader") ((text_beq_iff _ _).0 e) (some_inj (rw e at h)) reader_rank
  | inr e ↦ elim (Bool-cases (role == codes "writer")) [
    | inl f ↦
        at_rank (codes "writer") ((text_beq_iff _ _).0 f) (some_inj (rw (e, f) at h)) writer_rank
    | inr f ↦ elim (Bool-cases (role == codes "admin")) [
      | inl g ↦
          at_rank (codes "admin") ((text_beq_iff _ _).0 g) (some_inj (rw (e, f, g) at h)) admin_rank
      | inr g ↦ absurd (cc (rw (e, f, g) at h))
    ]
  ]
]
  where
    at_rank : (name : Text) {m : ℕ} → role ≡ name → m ≡ n → Ranked name m → Ranked role n
    at_rank name e f r = subst (λ x. Ranked x n) (sym e) (subst (Ranked name) f r)

Ranked-Grants :
    {held required : Text} {m n : ℕ}
    → Ranked held m
    → Ranked required n
    → leb n m ≡ true
    → Grants held required
Ranked-Grants reader_rank reader_rank h = reader_reads
Ranked-Grants reader_rank writer_rank h = absurd (false≢true h)
Ranked-Grants reader_rank admin_rank h = absurd (false≢true h)
Ranked-Grants writer_rank reader_rank h = writer_reads
Ranked-Grants writer_rank writer_rank h = writer_writes
Ranked-Grants writer_rank admin_rank h = absurd (false≢true h)
Ranked-Grants admin_rank reader_rank h = admin_reads
Ranked-Grants admin_rank writer_rank h = admin_writes
Ranked-Grants admin_rank admin_rank h = admin_rules

at_least-Grants :
    (held required : Text)
    → at_least_role (role_order held) (role_order required) ≡ true
    → Grants held required
at_least-Grants held required h = elim (Option-cases (role_order held)) [
  | inl e ↦ absurd (false≢true (rw e at h))
  | inr (m, e) ↦ elim (Option-cases (role_order required)) [
    | inl f ↦ absurd (false≢true (rw (e, f) at h))
    | inr (n, f) ↦
        Ranked-Grants (role_order-Ranked held e) (role_order-Ranked required f) (rw (e, f) at h)
  ]
]

Grants-at_least :
    {held required : Text}
    → Grants held required
    → at_least_role (role_order held) (role_order required) ≡ true
unfolding role_order text_beq
Grants-at_least reader_reads = refl
Grants-at_least writer_reads = refl
Grants-at_least writer_writes = refl
Grants-at_least admin_reads = refl
Grants-at_least admin_writes = refl
Grants-at_least admin_rules = refl

-- The one row of a pair is the row that the query finds.
find-distinct :
    (project user : Text) (ms : List Membership) (m : Membership)
    → DistinctMembers ms
    → In m ms
    → m.project_id ≡ project
    → m.user_id ≡ user
    → find (is_member project user) ms ≡ some m
unfolding find
find-distinct project user [] m keys there a b = absurd there
find-distinct project user (n ∷ ms) m keys (inl e) a b =
    rw (e, a, b, text_beq_refl project, text_beq_refl user) refl
find-distinct project user (n ∷ ms) m keys (inr there) a b =
    elim (Bool-cases (is_member project user n)) [
      | inl hit ↦
          let (c, d) = both_equal n.project_id project n.user_id user hit in
          absurd (
            false≢true (
              sym keys.0
              ∙ In-any _ ms m there
                  (rw (a, b, c, d, text_beq_refl project, text_beq_refl user) refl)))
      | inr miss ↦ rw miss (find-distinct project user ms m keys.1 there a b)
    ]

IsActive-row :
    (project : Text) (s : Store) {p : Project}
    → get_project_row project s ≡ some p
    → IsActive project s
unfolding get_project_row
IsActive-row project s {p} found =
    let hit = find-passes (active_project project) s.projects found in
    (
      p,
      find-In (active_project project) s.projects found,
      (text_beq_iff p.id project).0 (ground (arith, hit)),
      null_none p.archived_at (ground (arith, hit)),
    )
  where
    null_none : (o : Option Text) → is_null o ≡ true → o ≡ none
    null_none none h = refl
    null_none (some t) h = absurd (false≢true h)

row-IsActive :
    (project : Text) (s : Store) → IsActive project s → is_null (get_project_row project s) ≡ false
unfolding get_project_row
row-IsActive project s (p, there, named, live) =
    let hit : active_project project p ≡ true = rw (named, live, text_beq_refl project) refl in
    let (q, found) =
      any-find (active_project project) s.projects
        (In-any (active_project project) s.projects p there hit) in
    rw found refl

held-granted :
    (project user required : Text) (s : Store)
    → held_role (joined_membership project user s) required ≡ true
    → IsActive project s × Holds project user required s
unfolding joined_membership
held-granted project user required s h = elim (Option-cases (get_project_row project s)) [
  | inl gone ↦ absurd (false≢true (rw gone at h))
  | inr (p, row) ↦ elim (Option-cases (find (is_member project user) s.memberships)) [
    | inl outside ↦ absurd (false≢true (rw (row, outside) at h))
    | inr (m, found) ↦
        let (a, b) =
          both_equal m.project_id project m.user_id user
            (find-passes (is_member project user) s.memberships found) in
        (
          IsActive-row project s row,
          (
            m,
            find-In (is_member project user) s.memberships found,
            a,
            b,
            at_least-Grants m.role required (rw (row, found) at h),
          ),
        )
  ]
]

granted-held :
    (project user required : Text) (s : Store)
    → DistinctMembers s.memberships
    → IsActive project s
    → Holds project user required s
    → held_role (joined_membership project user s) required ≡ true
unfolding joined_membership
granted-held project user required s keys active (m, there, a, b, grants) =
    rw (row-IsActive project s active, find-distinct project user s.memberships m keys there a b)
      (Grants-at_least grants)

-- The check of a role, for a user and with arguments that pass their validations, raises nothing, in
-- a store with one membership at most for each project and user. Its answer is yes exactly if the
-- project is there and not archived, and the user is a member of it whose role grants the required
-- one: an admin has every role, a writer those of writer and reader, a reader that of reader.
pub project_has_role-granted :
    (lower : Text → Text) (project_id user_id role project user required : Text) (s : Store)
    → DistinctMembers s.memberships
    → validate_project_id project_id ≡ ok project
    → validate_owner_id user_id ≡ ok user
    → validate_project_role lower role ≡ ok required
    → (answer : Bool) × (project_has_role lower project_id (some user_id) role s ≡ ok answer)
      × (answer ≡ true ↔ (IsActive project s × Holds project user required s))
unfolding project_has_role
project_has_role-granted lower project_id user_id role project user required s keys a b c = (
  held_role (joined_membership project user s) required,
  rw (a, c, b) refl,
  (
    held-granted project user required s,
    λ (active, holds). granted-held project user required s keys active holds,
  ),
)
