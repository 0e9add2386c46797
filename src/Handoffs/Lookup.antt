-- ===== src/Handoffs/Lookup.antt =====
-- What the readers of handoffs in memory/backend/metadata_store.py return.
use ai_memory_hub.Base.{
  Text, text_eq, text_beq_refl, ◌≡◌, refl, sym, ap, subst, ◌∙◌, Bool, true, false, ◌&&◌, Option,
  none, some, option_eq, List, [], ◌∷◌, ◌++◌, any-and, ◌==◌, find, find-snoc, find-passes,
  text_beq_iff, ok, ok-injective, bind_elim, bind-ok, arith, strip, ◌>>=◌,
}
use ai_memory_hub.TokenStore.Validate.{validate_project_id}
use ai_memory_hub.Handoffs.Records.{
  Outside, Packet, Draft, public_handoff_record, validate_handoff_id,
}
use ai_memory_hub.Handoffs.Tables.{
  Handoff, HandoffStore, row_of, replacement_of, create_handoff, get_handoff, supersede_handoff,
  is_current, shown,
}
use ai_memory_hub.Handoffs.Prepared.{public-Prepared, public-replaced, validate_handoff_id-strip}
use ai_memory_hub.Handoffs.Lineage.{Reach, create-Created}
use ai_memory_hub.Handoffs.History.{Reach-replaced}

-- The row that a query for an id finds has it.
find-id :
    {Content : Type 0} (id project : Text) (rows : List (Handoff Content)) {h : Handoff Content}
    → find (λ h. h.id == id && h.project_id == project) rows ≡ some h
    → h.id ≡ id
find-id id project rows {h} e = (text_beq_iff h.id id).0 (left _ _ (find-passes _ rows e))
  where
    left : (a b : Bool) → (a && b) ≡ true → a ≡ true
    left a b h = ground arith

module _ {Content : Type 0} (o : Outside Content) where
  shown-replaced :
      (id r : Text) (s : HandoffStore Content) (row : Option (Handoff Content))
      {p : Option (Packet Content)}
      → ((h : Handoff Content) → row ≡ some h → h.id ≡ id)
      → replacement_of o id s ≡ some r
      → shown o row s ≡ ok p
      → is_current o p ≡ false
  shown-replaced id r s none named h e = subst (λ p. is_current o p ≡ false) (ok-injective e) refl
  shown-replaced id r s (some row) named h e =
      let here : replacement_of o row.id s ≡ some r =
        ap (λ i. replacement_of o i s) (named row refl) ∙ h in
      bind_elim (public_handoff_record o row.payload (replacement_of o row.id s)) _ e
        λ p public last.
          let marked = public-replaced o row.payload r (rw here at public) in
          subst (λ p. is_current o p ≡ false) (ok-injective last) (ap (λ m. m == none) marked)

  get-replaced :
      (raw project id r : Text) (s : HandoffStore Content) {p : Option (Packet Content)}
      → strip raw ≡ id
      → replacement_of o id s ≡ some r
      → get_handoff o raw project s ≡ ok p
      → is_current o p ≡ false
  unfolding get_handoff
  get-replaced raw project id r s same h e =
      bind_elim (validate_handoff_id raw) _ e λ id' checked e₁.
        bind_elim (validate_project_id project) _ e₁ λ project' _ e₂.
          let named = validate_handoff_id-strip raw checked ∙ same in
          shown-replaced id r s (find (λ h. h.id == id' && h.project_id == project') s.handoffs)
            (λ row found. find-id id' project' s.handoffs found ∙ named) h e₂

-- Once a handoff is replaced, then after any further calls it is replaced by the same one, and every
-- call to replace it again that does not raise returns None and changes nothing. Its id is one
-- without white space around it.
pub superseded_final :
    {Content : Type 0} (o : Outside Content) (id r : Text) {s t u : HandoffStore Content}
    (d : Draft Content) (owner : Option Text) (project : Text) {answer : Option (Packet Content)}
    → strip id ≡ id
    → replacement_of o id s ≡ some r
    → Reach o s t
    → supersede_handoff o id d owner project t ≡ ok (answer, u)
    → (replacement_of o id t ≡ some r) × (answer ≡ none) × (u ≡ t)
unfolding supersede_handoff
superseded_final o id r {s} {t} {u} d owner project clean h run e =
    let later = Reach-replaced o id r run h in
    bind_elim (validate_handoff_id id) _ e λ previous checked e₁.
      bind_elim (get_handoff o previous project t) _ e₁ λ existing got e₂.
        let same : strip previous ≡ id =
          ap strip (validate_handoff_id-strip id checked ∙ clean) ∙ clean in
        let gone = get-replaced o previous project id r t same later got in
        let both = ok-injective (rw gone at e₂) in
        (later, sym (ap (λ w. w.0) both), sym (ap (λ w. w.1) both))

-- A handoff that was created under an id without white space around it, and that no stored
-- supersession names, is read back as it was returned, in the project in which it was created, where
-- Pydantic dumps the other fields of the packet as they are.
pub create_then_get :
    {Content : Type 0} (o : Outside Content) (d : Draft Content) (owner : Option Text)
    (project : Text) (supersedes : Option Text) (s : HandoffStore Content)
    {t : HandoffStore Content} {p : Packet Content}
    → ((c e : Content) → o.dump c ≡ some e → o.dump e ≡ some e)
    → create_handoff o d owner project supersedes s ≡ ok (p, t)
    → strip p.handoff_id ≡ p.handoff_id
    → replacement_of o p.handoff_id s ≡ none
    → get_handoff o p.handoff_id project t ≡ ok (some p)
unfolding get_handoff
create_then_get o d owner project supersedes s {t} {p} stable e clean current =
    let created = create-Created o d owner project supersedes s e in
    let (owner', project', prepared) = created.prepared in
    let (id, checked) = prepared.id_checked in
    let (project_id, of_project, same) = created.project_checked in
    let (content, dumped) = prepared.dumped in
    let by_id = checked ∙ ap ok (validate_handoff_id-strip p.handoff_id checked ∙ clean) in
    subst (λ t. get_handoff o p.handoff_id project t ≡ ok (some p)) (sym created.added)
      (bind-ok _ by_id
        ∙ bind-ok _ (of_project ∙ ap ok (sym same))
        ∙ ap (λ row. shown o row (record s { handoffs = s.handoffs ++ row_of o p ∷ [] }))
            (find-snoc (λ h. h.id == p.handoff_id && h.project_id == p.project_id) s.handoffs
              (row_of o p)
              (any-and (λ h. h.id == p.handoff_id) (λ h. h.project_id == p.project_id) s.handoffs
                created.fresh)
              (rw (text_beq_refl p.handoff_id, text_beq_refl p.project_id) refl))
        ∙ ap (λ r. public_handoff_record o p r >>= λ q. ok (some q)) current
        ∙ bind-ok _ (
            public-Prepared o owner' project' supersedes p prepared
              (stable content p.content dumped)))
