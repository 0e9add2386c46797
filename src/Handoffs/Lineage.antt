-- ===== src/Handoffs/Lineage.antt =====
-- What replaces what among the handoffs of memory/backend/metadata_store.py, in any order of calls.
use ai_memory_hub.Base.{
  Text, text_eq, ◌≡◌, sym, ap, subst, ◌∙◌, Bool, false, ◌||◌, Option, some, option_eq, List, [],
  ◌∷◌, ◌++◌, any, ◌==◌, Result, ok, raise, ok-injective, raise-ne-ok, value_error, permission_error,
  runtime_error, client_quota_exceeded, state_quota_exceeded, unicode_encode_error, integrity_error,
  bind_elim, find, All, UniqueBy, Bool-cases, inl, inr, arith,
}
use ai_memory_hub.TokenStore.Validate.{validate_project_id}
use ai_memory_hub.Handoffs.Records.{Outside, Draft, Packet, prepare_handoff_record}
use ai_memory_hub.Handoffs.Prepared.{Prepared, prepare-Prepared}
use ai_memory_hub.Handoffs.Tables.{
  Handoff, Supersession, HandoffStore, has_handoff, row_of, insert_handoff, insert_supersession,
  create_handoff, write_replacement, rename_error, validate_owner,
}

module _ {Content : Type 0} (o : Outside Content) where
  -- A call that does not raise. The read of `supersede_handoff` may be any time before its write.
  pub data Step (s t : HandoffStore Content) : Type 0 where
    create :
        (d : Draft Content) (owner : Option Text) (project : Text) (supersedes : Option Text)
        (p : Packet Content)
        → create_handoff o d owner project supersedes s ≡ ok (p, t)
        → Step s t
    replace :
        (d : Draft Content) (owner : Option Text) (project previous : Text) (p : Packet Content)
        → prepare_handoff_record o d owner project (some previous) ≡ ok p
        → write_replacement o previous p s ≡ ok t
        → Step s t

  pub data Reach (s : HandoffStore Content) : HandoffStore Content → Type 0 where
    here : Reach s s
    next : {t u : HandoffStore Content} → Reach s t → Step t u → Reach s u

  -- A replacement is stored and says what it replaces.
  abbrev pub IsLinked : List (Handoff Content) → Supersession → Type 0
  IsLinked rows r =
      (h : Handoff Content) × (find (λ h. h.id == r.replacement_handoff_id) rows ≡ some h)
      × (h.payload.supersedes_handoff_id ≡ some r.previous_handoff_id)

  pub record Lineage (s : HandoffStore Content) : Type 0 where
    pub ids : UniqueBy (λ h. h.id) s.handoffs
    pub replaced_once : UniqueBy (λ r. r.previous_handoff_id) s.supersessions
    pub replaces_once : UniqueBy (λ r. r.replacement_handoff_id) s.supersessions
    pub linked : All (IsLinked s.handoffs) s.supersessions

  insert-eq-ok :
      (p : Packet Content) (s : HandoffStore Content) {t : HandoffStore Content}
      → insert_handoff o p s ≡ ok t
      → (has_handoff o p.handoff_id s ≡ false)
        × (t ≡ record s { handoffs = s.handoffs ++ row_of o p ∷ [] })
  unfolding insert_handoff
  insert-eq-ok p s h = elim (Bool-cases (has_handoff o p.handoff_id s)) [
    | inl e ↦ absurd (raise-ne-ok (rw e at h))
    | inr e ↦ (e, sym (ok-injective (rw e at h)))
  ]

  insert_supersession-eq-ok :
      (previous replacement : Text) (s : HandoffStore Content) {t : HandoffStore Content}
      → insert_supersession o previous replacement s ≡ ok t
      → (any (λ r. r.previous_handoff_id == previous) s.supersessions ≡ false)
        × (any (λ r. r.replacement_handoff_id == replacement) s.supersessions ≡ false)
        × (t ≡ record s {
          supersessions =
              s.supersessions
              ++ record { previous_handoff_id = previous; replacement_handoff_id = replacement }
                ∷ [];
        })
  unfolding insert_supersession
  insert_supersession-eq-ok previous replacement s h =
      let taken = any (λ r. r.previous_handoff_id == previous) s.supersessions in
      let used = any (λ r. r.replacement_handoff_id == replacement) s.supersessions in
      elim (Bool-cases (taken || used)) [
        | inl e ↦ absurd (raise-ne-ok (rw e at h))
        | inr e ↦
            (left_false taken used e, right_false taken used e, sym (ok-injective (rw e at h)))
      ]
    where
      left_false : (a b : Bool) → (a || b) ≡ false → a ≡ false
      left_false a b h = ground arith

      right_false : (a b : Bool) → (a || b) ≡ false → b ≡ false
      right_false a b h = ground arith

  -- What a step adds.
  pub data Added (s t : HandoffStore Content) : Type 0 where
    one :
        (p : Packet Content)
        → has_handoff o p.handoff_id s ≡ false
        → t ≡ record s { handoffs = s.handoffs ++ row_of o p ∷ [] }
        → Added s t
    replacement :
        (previous : Text) (p : Packet Content)
        → has_handoff o p.handoff_id s ≡ false
        → p.supersedes_handoff_id ≡ some previous
        → any (λ r. r.previous_handoff_id == previous) s.supersessions ≡ false
        → any (λ r. r.replacement_handoff_id == p.handoff_id) s.supersessions ≡ false
        → t ≡ record {
          handoffs = s.handoffs ++ row_of o p ∷ [];
          supersessions =
              s.supersessions
              ++ record { previous_handoff_id = previous; replacement_handoff_id = p.handoff_id }
                ∷ [];
        }
        → Added s t

  rename_error-ok :
      (r : Result (HandoffStore Content)) {t : HandoffStore Content}
      → rename_error o r ≡ ok t
      → r ≡ ok t
  rename_error-ok (ok s) h = h
  rename_error-ok (raise integrity_error) h = absurd (raise-ne-ok h)
  rename_error-ok (raise (value_error m)) h = absurd (raise-ne-ok h)
  rename_error-ok (raise (permission_error m)) h = absurd (raise-ne-ok h)
  rename_error-ok (raise (runtime_error m)) h = absurd (raise-ne-ok h)
  rename_error-ok (raise client_quota_exceeded) h = absurd (raise-ne-ok h)
  rename_error-ok (raise state_quota_exceeded) h = absurd (raise-ne-ok h)
  rename_error-ok (raise unicode_encode_error) h = absurd (raise-ne-ok h)

  -- What `create_handoff` did where it returns.
  pub record Created (owner : Option Text) (project : Text) (supersedes : Option Text)
      (s : HandoffStore Content) (p : Packet Content) (t : HandoffStore Content) : Type 0 where
    pub owner_checked : (id : Option Text) × (validate_owner owner ≡ ok id)
    pub project_checked : (id : Text) × (validate_project_id project ≡ ok id) × (p.project_id ≡ id)
    pub prepared : (owner : Option Text) × (project : Text) × Prepared o owner project supersedes p
    pub fresh : has_handoff o p.handoff_id s ≡ false
    pub added : t ≡ record s { handoffs = s.handoffs ++ row_of o p ∷ [] }

  pub create-Created :
      (d : Draft Content) (owner : Option Text) (project : Text) (supersedes : Option Text)
      (s : HandoffStore Content) {p : Packet Content} {t : HandoffStore Content}
      → create_handoff o d owner project supersedes s ≡ ok (p, t)
      → Created owner project supersedes s p t
  unfolding create_handoff
  create-Created d owner project supersedes s {p} {t} h =
      bind_elim (validate_project_id project) _ h λ project' checked h₁.
        bind_elim (validate_owner owner) _ h₁ λ owner' owned h₂.
          bind_elim (prepare_handoff_record o d owner' project' supersedes) _ h₂ λ q made h₃.
            bind_elim (rename_error o (insert_handoff o q s)) _ h₃ λ u inserted last.
              let prepared = prepare-Prepared o d owner' project' supersedes made in
              let (fresh, same) = insert-eq-ok q s (rename_error-ok _ inserted) in
              subst
                (λ (w : Packet Content × HandoffStore Content).
                  Created owner project supersedes s w.0 w.1)
                (ok-injective last)
                (record {
                  owner_checked = (owner', owned);
                  project_checked = (project', checked, prepared.of_project);
                  prepared = (owner', project', prepared);
                  fresh = fresh;
                  added = same;
                })

  pub write_replacement-Added :
      (previous : Text) (p : Packet Content) (s : HandoffStore Content) {t : HandoffStore Content}
      → p.supersedes_handoff_id ≡ some previous
      → write_replacement o previous p s ≡ ok t
      → Added s t
  unfolding write_replacement
  write_replacement-Added previous p s link h =
      bind_elim (insert_handoff o p s) _ h λ u inserted rest.
        let (fresh, same) = insert-eq-ok p s inserted in
        let (once, single, last) = insert_supersession-eq-ok previous p.handoff_id u rest in
        replacement previous p fresh link
          (ap (λ w. any (λ r. r.previous_handoff_id == previous) w.supersessions) (sym same) ∙ once)
          (ap (λ w. any (λ r. r.replacement_handoff_id == p.handoff_id) w.supersessions) (sym same)
            ∙ single)
          (last
            ∙ ap
                (λ (w : HandoffStore Content). record w {
                  supersessions =
                      w.supersessions
                      ++ record {
                        previous_handoff_id = previous;
                        replacement_handoff_id = p.handoff_id;
                      }
                        ∷ [];
                })
                same)

  pub Step-Added : (s t : HandoffStore Content) → Step s t → Added s t
  Step-Added s t (create d owner project supersedes p h) =
      let created = create-Created d owner project supersedes s h in
      one p created.fresh created.added
  Step-Added s t (replace d owner project previous p prepared h) =
      write_replacement-Added previous p s
        (prepare-Prepared o d owner project (some previous) prepared).replaces h
