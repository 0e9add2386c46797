-- ===== src/Handoffs/Prepared.antt =====
-- What a packet is that memory/backend/handoff_records.py has prepared or shown.
use ai_memory_hub.Base.{
  Text, text_eq, ◌≡◌, refl, sym, subst, ap, ◌∙◌, Bool, false, ◌||◌, not, Option, none, some,
  option_eq, is_empty, any, ltb, length, strip, ◌==◌, ok, ok-injective, raise-ne-ok, bind_elim,
  Bool-cases, inl, inr, Option-cases,
}
use ai_memory_hub.Handoffs.Records.{
  Outside, Draft, Packet, handoff_statuses, prepare_handoff_record, public_handoff_record, marked,
  check_supersedes, validated, draft_packet, validate_handoff_id,
}

pub validate_handoff_id-strip :
    (raw : Text) {id : Text} → validate_handoff_id raw ≡ ok id → id ≡ strip raw
unfolding validate_handoff_id
validate_handoff_id-strip raw h =
    elim (Bool-cases (is_empty (strip raw) || ltb 128 (length (strip raw)))) [
      | inl e ↦ absurd (raise-ne-ok (rw e at h))
      | inr e ↦ sym (ok-injective (rw e at h))
    ]

module _ {Content : Type 0} (o : Outside Content) where
  -- The checks on the fields that the model has.
  abbrev refused : Packet Content → Bool
  refused p = is_empty p.handoff_id || not (any (λ s. s == p.status) handoff_statuses)

  validated-eq-ok :
      (p : Packet Content) {q : Packet Content}
      → validated o p ≡ ok q
      → (content : Content) × (refused p ≡ false)
        × (o.dump p.content ≡ some content)
        × (q ≡ record p { content = content })
  unfolding validated
  validated-eq-ok p h = elim (Bool-cases (refused p)) [
    | inl e ↦ absurd (raise-ne-ok (rw e at h))
    | inr e ↦ elim (Option-cases (o.dump p.content)) [
      | inl k ↦ absurd (raise-ne-ok (rw k at (rw e at h)))
      | inr (content, k) ↦ (content, e, k, sym (ok-injective (rw k at (rw e at h))))
    ]
  ]

  check_supersedes-same :
      (supersedes : Option Text) (p : Packet Content) {q : Packet Content}
      → check_supersedes o supersedes p ≡ ok q
      → q ≡ p
  unfolding check_supersedes
  check_supersedes-same none p h = sym (ok-injective h)
  check_supersedes-same (some previous) p h = bind_elim (validate_handoff_id previous) _ h λ id _ k.
      elim (Bool-cases (previous == p.handoff_id)) [
        | inl e ↦ absurd (raise-ne-ok (rw e at k))
        | inr e ↦ sym (ok-injective (rw e at k))
      ]

  -- What `prepare_handoff_record` returns.
  pub record Prepared (owner : Option Text) (project : Text) (supersedes : Option Text)
      (p : Packet Content) : Type 0 where
    pub owned : p.owner_id ≡ owner
    pub of_project : p.project_id ≡ project
    pub replaces : p.supersedes_handoff_id ≡ supersedes
    pub current : p.superseded_by_handoff_id ≡ none
    pub accepted : refused p ≡ false
    pub dumped : (content : Content) × (o.dump content ≡ some p.content)
    pub id_checked : (id : Text) × (validate_handoff_id p.handoff_id ≡ ok id)

  pub prepare-Prepared :
      (d : Draft Content) (owner : Option Text) (project : Text) (supersedes : Option Text)
      {p : Packet Content}
      → prepare_handoff_record o d owner project supersedes ≡ ok p
      → Prepared owner project supersedes p
  unfolding prepare_handoff_record
  prepare-Prepared d owner project supersedes h =
      bind_elim (validated o (draft_packet o d owner project supersedes)) _ h λ q valid rest.
        bind_elim (validate_handoff_id q.handoff_id) _ rest λ id checked last.
          let (content, fine, dump, same) =
            validated-eq-ok (draft_packet o d owner project supersedes) valid in
          let final = check_supersedes-same supersedes q last in
          subst (Prepared owner project supersedes) (sym (final ∙ same)) (record {
            owned = refl;
            of_project = refl;
            replaces = refl;
            current = refl;
            accepted = fine;
            dumped = (o.redact_content d.draft_content, dump);
            id_checked = (id, ap (λ r. validate_handoff_id r.handoff_id) (sym same) ∙ checked);
          })

  -- What is shown of a prepared packet that nothing replaces is the packet itself.
  pub public-Prepared :
      (owner : Option Text) (project : Text) (supersedes : Option Text) (p : Packet Content)
      → Prepared owner project supersedes p
      → o.dump p.content ≡ some p.content
      → public_handoff_record o p none ≡ ok p
  unfolding public_handoff_record validated
  public-Prepared owner project supersedes p prepared stable =
      let same : record p { superseded_by_handoff_id = none } ≡ p =
        ap (λ (r : Option Text). record p { superseded_by_handoff_id = r })
          (sym prepared.current) in
      let shown : validated o (record p { superseded_by_handoff_id = none })
          ≡ ok (record p { superseded_by_handoff_id = none }) =
        rw (prepared.accepted, stable) refl in
      shown ∙ ap ok same

  -- What is shown of a replaced handoff says by which one it is replaced.
  pub public-replaced :
      (p : Packet Content) (replacement : Text) {q : Packet Content}
      → public_handoff_record o p (some replacement) ≡ ok q
      → q.superseded_by_handoff_id ≡ some replacement
  unfolding public_handoff_record
  public-replaced p replacement h =
      let (content, _, _, same) = validated-eq-ok (marked o p (some replacement)) h in
      ap (λ q. q.superseded_by_handoff_id) same

  -- What is shown of a handoff that nothing replaces says so.
  pub public-same :
      (p : Packet Content) {q : Packet Content}
      → public_handoff_record o p none ≡ ok q
      → q.superseded_by_handoff_id ≡ none
  unfolding public_handoff_record
  public-same p h =
      let (content, _, _, same) = validated-eq-ok (marked o p none) h in
      ap (λ q. q.superseded_by_handoff_id) same
