-- ===== src/IndexStates/Targets.antt =====
-- The chunks that a list of ids names, and the ids that they get: `IndexChunkIdentitySet` and
-- `index_chunk_ids_by_chunk_index` of memory/backend/metadata_store.py.
use ai_memory_hub.Base.{
  Field, missing, null, text_value, str_or_empty, Text, text_eq, text_beq_iff, text_beq_refl,
  option_eq, option_beq_iff, int_eq, ℤ, ◌≡◌, ◌↔◌, refl, sym, subst, ◌∙◌, Bool, true, false,
  false≢true, not, Option, none, some, List, [], ◌∷◌, is_empty, find, find-passes, find-In,
  find-none-All, All-In, In, any-In, In-any, if◌then◌else◌, arith, Bool-cases, Option-cases, inl,
  inr, some_inj,
}
use ai_memory_hub.IndexStates.Ids.{chunk_index_from_chunk_id}
use ai_memory_hub.IndexStates.Payload.{
  from_chunk_ids, index_is, index_matches, id_by_index, or_id, is_gap,
  index_chunk_ids_by_chunk_index,
}

-- An id that counts as none.
pub data IsGap : Field → Type 0 where
  missing_gap : IsGap missing
  null_gap : IsGap null
  empty_gap : IsGap (text_value [])

-- The first of the ids with the index.
pub data FirstAt (i : ℤ) : List Text → Text → Type 0 where
  first :
      (id : Text) (ids : List Text)
      → chunk_index_from_chunk_id id ≡ some i
      → FirstAt i (id ∷ ids) id
  later :
      (other id : Text) (ids : List Text)
      → (chunk_index_from_chunk_id other ≡ some i → ⊥)
      → FirstAt i ids id
      → FirstAt i (other ∷ ids) id

-- A chunk that the ids name: by its id, as `str` prints it, or, without one, by its index.
pub data Targeted (ids : List Text) (id : Field) (index : Option ℤ) : Type 0 where
  named : (str_or_empty id ≡ [] → ⊥) → In (str_or_empty id) ids → Targeted ids id index
  indexed :
      (i : ℤ) (other : Text)
      → str_or_empty id ≡ []
      → index ≡ some i
      → In other ids
      → chunk_index_from_chunk_id other ≡ some i
      → Targeted ids id index

-- The id that such a chunk has afterwards: its own, or the first one with its index, if any.
pub data Filled (ids : List Text) (id : Field) (index : Option ℤ) : Field → Type 0 where
  own : (IsGap id → ⊥) → Filled ids id index id
  given :
      (i : ℤ) (other : Text)
      → IsGap id
      → index ≡ some i
      → FirstAt i ids other
      → Filled ids id index (text_value other)
  left :
      IsGap id
      → ((i : ℤ) (other : Text) → index ≡ some i → FirstAt i ids other → ⊥)
      → Filled ids id index id

index_is_iff : (i : ℤ) (id : Text) → index_is i id ≡ true ↔ (chunk_index_from_chunk_id id ≡ some i)
index_is_iff i id = option_beq_iff int_eq (chunk_index_from_chunk_id id) (some i)

no_index : (i : ℤ) (id : Text) → index_is i id ≡ true → is_empty id ≡ false
unfolding chunk_index_from_chunk_id
no_index i [] h = absurd (false≢true h)
no_index i (c ∷ s) h = refl

not_empty : (t : Text) → is_empty t ≡ false → t ≡ [] → ⊥
not_empty [] h e = false≢true (sym h)
not_empty (c ∷ t) h e = cc e

empty_nil : (t : Text) → is_empty t ≡ true → t ≡ []
empty_nil [] h = refl
empty_nil (c ∷ t) h = absurd (false≢true h)

full : (t : Text) → (t ≡ [] → ⊥) → is_empty t ≡ false
full [] h = absurd (h refl)
full (c ∷ t) h = refl

find-FirstAt :
    (i : ℤ) (ids : List Text) {id : Text} → find (index_is i) ids ≡ some id → FirstAt i ids id
unfolding find
find-FirstAt i [] h = absurd (cc h)
find-FirstAt i (x ∷ ids) {id} h = elim (Bool-cases (index_is i x)) [
  | inl e ↦
      subst (FirstAt i (x ∷ ids)) (some_inj (rw e at h)) (first x ids ((index_is_iff i x).0 e))
  | inr e ↦
      later x id ids (λ same. false≢true (sym e ∙ (index_is_iff i x).1 same))
        (find-FirstAt i ids (rw e at h))
]

FirstAt-In : {i : ℤ} {ids : List Text} {id : Text} → FirstAt i ids id → In id ids
FirstAt-In (first id ids e) = inl refl
FirstAt-In (later other id ids e rest) = inr (FirstAt-In rest)

FirstAt-index :
    {i : ℤ} {ids : List Text} {id : Text} → FirstAt i ids id → chunk_index_from_chunk_id id ≡ some i
FirstAt-index (first id ids e) = e
FirstAt-index (later other id ids e rest) = FirstAt-index rest

module _ (ids : List Text) where
  abbrev pub matches : Field → Option ℤ → Bool
  matches id index =
      if not (is_empty (str_or_empty id))
      then (from_chunk_ids ids).has_id (str_or_empty id)
      else index_matches (from_chunk_ids ids) index

  abbrev pub fill : Field → Option ℤ → Field
  fill id index = if is_gap id then or_id id (id_by_index ids index) else id

  known_id : (t : Text) → is_empty t ≡ false → In t ids → (from_chunk_ids ids).has_id t ≡ true
  unfolding from_chunk_ids
  known_id t e m = In-any _ ids t m (rw (e, text_beq_refl t) refl)

  has_id-In : (t : Text) → (from_chunk_ids ids).has_id t ≡ true → In t ids
  unfolding from_chunk_ids
  has_id-In t h =
      let (x, there, hit) = any-In _ ids h in
      subst (λ y. In y ids) ((text_beq_iff x t).0 (ground (arith, hit))) there

  pub matches-Targeted :
      (id : Field) (index : Option ℤ) → matches id index ≡ true → Targeted ids id index
  unfolding from_chunk_ids
  matches-Targeted id index h = elim (Bool-cases (is_empty (str_or_empty id))) [
    | inl e ↦ elim (Option-cases index) [
      | inl unknown ↦ absurd (false≢true (rw (e, unknown) at h))
      | inr (i, at) ↦
          let (x, there, hit) = any-In _ ids (rw (e, at) at h) in
          indexed i x (empty_nil _ e) at there ((index_is_iff i x).0 (ground (arith, hit)))
    ]
    | inr e ↦ named (not_empty _ e) (has_id-In (str_or_empty id) (rw e at h))
  ]

  pub Targeted-matches :
      (id : Field) (index : Option ℤ) → Targeted ids id index → matches id index ≡ true
  unfolding from_chunk_ids
  Targeted-matches id index (named some_id there) =
      let e = full (str_or_empty id) some_id in rw e (known_id (str_or_empty id) e there)
  Targeted-matches id index (indexed i x gap at there has) =
      let hit = (index_is_iff i x).1 has in
      rw (gap, at) (In-any _ ids x there (rw (no_index i x hit, hit) refl))

  gap-Filled :
      (id : Field) (index : Option ℤ)
      → IsGap id
      → Filled ids id index (or_id id (id_by_index ids index))
  unfolding index_chunk_ids_by_chunk_index
  gap-Filled id none gap = left gap (λ i other e _. cc e)
  gap-Filled id (some i) gap = elim (Option-cases (find (index_is i) ids)) [
    | inl e ↦ rw e (
        left gap (λ j other same there. false≢true (
          sym (All-In _ ids other (find-none-All (index_is i) ids e) (FirstAt-In there))
          ∙ (index_is_iff i other).1 (FirstAt-index there ∙ sym same))))
    | inr (x, e) ↦ rw e (given i x gap refl (find-FirstAt i ids e))
  ]

  pub fill-Filled : (id : Field) (index : Option ℤ) → Filled ids id index (fill id index)
  fill-Filled missing index = gap-Filled missing index missing_gap
  fill-Filled null index = gap-Filled null index null_gap
  fill-Filled (text_value []) index = gap-Filled (text_value []) index empty_gap
  fill-Filled (text_value (c ∷ t)) index = own no_gap
    where
      no_gap : IsGap (text_value (c ∷ t)) → ⊥
      no_gap g = elim g [ ]

  -- The id that fills a gap is one of the ids.
  by_index-known :
      (index : Option ℤ) {x : Text}
      → id_by_index ids index ≡ some x
      → (is_empty x ≡ false) × ((from_chunk_ids ids).has_id x ≡ true)
  unfolding index_chunk_ids_by_chunk_index
  by_index-known none e = absurd (cc e)
  by_index-known (some i) {x} e =
      let e' = no_index i x (find-passes (index_is i) ids e) in
      (e', known_id x e' (find-In (index_is i) ids e))

  pub fill-twice :
      (id : Field) (index : Option ℤ)
      → matches id index ≡ true
      → (matches (fill id index) index ≡ true) × (fill (fill id index) index ≡ fill id index)
  fill-twice id index h = elim (Bool-cases (is_gap id)) [
    | inr there ↦ rw there (h, rw there refl)
    | inl gap ↦ elim (Option-cases (id_by_index ids index)) [
      | inl e ↦ rw (gap, e) (h, rw gap refl)
      | inr (x, e) ↦
          let (some_id, known) = by_index-known index e in
          rw (gap, e) (rw some_id known, rw some_id refl)
    ]
  ]
