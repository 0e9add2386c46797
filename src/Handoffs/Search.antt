-- ===== src/Handoffs/Search.antt =====
-- What `search_handoffs` of memory/backend/metadata_store.py returns.
use ai_memory_hub.Base.{
  Text, text_eq, ℕ, ◌≤◌, ℤ, pos, negsuc, zero, suc, ◌≡◌, ap, subst, Bool, true, false, ◌&&◌, Option,
  none, option_eq, List, [], ◌∷◌, length, take, ◌==◌, All, All-keep, All-mono, All-take,
  All-sort_by, length-take, ok, ok-injective, raise-ne-ok, bind_elim, arith, leb, Bool-cases, inl,
  inr, refl, sort_by,
}
use ai_memory_hub.TokenStore.Validate.{validate_project_id}
use ai_memory_hub.Handoffs.Records.{Outside, Packet, public_handoff_record, validate_handoff_limit}
use ai_memory_hub.Handoffs.Tables.{
  Handoff, HandoffStore, replacement_of, search_handoffs, matching_handoffs, all_shown, newer_first,
  says,
}
use ai_memory_hub.Handoffs.Prepared.{public-same}

limit-le : (limit : ℤ) {most : ℕ} → validate_handoff_limit limit ≡ ok most → most ≤ 100
unfolding validate_handoff_limit
limit-le (pos zero) h = absurd (raise-ne-ok h)
limit-le (negsuc n) h = absurd (raise-ne-ok h)
limit-le (pos (suc n)) h = elim (Bool-cases (leb (suc n) 100)) [
  | inl e ↦ let same = ok-injective (rw e at h) in ground (arith, e, same)
  | inr e ↦ absurd (raise-ne-ok (rw e at h))
]

module _ {Content : Type 0} (o : Outside Content) where
  -- A row that nothing replaces.
  IsCurrent : HandoffStore Content → Handoff Content → Type 0
  IsCurrent s h = replacement_of o h.id s ≡ none

  all_shown-current :
      (s : HandoffStore Content) (hs : List (Handoff Content)) {ps : List (Packet Content)}
      → All (IsCurrent s) hs
      → all_shown o s hs ≡ ok ps
      → All (λ p. p.superseded_by_handoff_id ≡ none) ps × (length ps ≡ length hs)
  unfolding IsCurrent
  all_shown-current s [] h e =
      subst (λ ps. All (λ p. p.superseded_by_handoff_id ≡ none) ps × (length ps ≡ 0))
        (ok-injective e) (tt, refl)
  all_shown-current s (row ∷ hs) h e =
      bind_elim (public_handoff_record o row.payload (replacement_of o row.id s)) _ e λ p public e₁.
        bind_elim (all_shown o s hs) _ e₁ λ ps rest last.
          let (later, size) = all_shown-current s hs h.1 rest in
          let current = public-same o row.payload (rw h.0 at public) in
          subst
            (λ ps. All (λ p. p.superseded_by_handoff_id ≡ none) ps × (length ps ≡ suc (length hs)))
            (ok-injective last) ((current, later), ap suc size)

  matching-IsCurrent :
      (contains : Packet Content → Text → Bool) (project : Text) (query : Option Text)
      (s : HandoffStore Content)
      → All (IsCurrent s) (matching_handoffs o contains project query none false s)
  unfolding matching_handoffs IsCurrent
  matching-IsCurrent contains project query s =
      All-mono _ (IsCurrent s) _
        (λ h passed.
          ((option_eq ⦃e = text_eq⦄).eq_means (replacement_of o h.id s) none).0
            (third (h.project_id == project) (says o contains query h.payload) _ passed))
        (All-keep _ s.handoffs)
    where
      third : (a b c : Bool) → (a && b && c) ≡ true → c ≡ true
      third a b c h = ground arith

-- A search that asks for no status and not for superseded handoffs returns at most 100 handoffs,
-- none of which is superseded.
pub search_handoffs-current :
    {Content : Type 0} (o : Outside Content) (contains : Packet Content → Text → Bool)
    (project : Text) (query : Option Text) (limit : ℤ) (s : HandoffStore Content)
    {found : List (Packet Content)}
    → search_handoffs o contains project query none false limit s ≡ ok found
    → (length found ≤ 100) × All (λ p. p.superseded_by_handoff_id ≡ none) found
unfolding search_handoffs
search_handoffs-current o contains project query limit s e =
    bind_elim (validate_project_id project) _ e λ project' _ e₁.
      bind_elim (validate_handoff_limit limit) _ e₁ λ most bounded e₂.
        let rows = matching_handoffs o contains project' query none false s in
        let ordered = sort_by (newer_first o) rows in
        let (current, size) =
          all_shown-current o s (take most ordered)
            (All-take (IsCurrent o s) most ordered (
              All-sort_by (newer_first o) (IsCurrent o s) rows
                (matching-IsCurrent o contains project' query s)))
            e₂ in
        (omega (arith, size, length-take most ordered, limit-le limit bounded), current)
