-- ===== src/IndexStates/Updates.antt =====
-- The update of index states in memory/backend/metadata_store.py: which chunks change, how, and that
-- a second update changes nothing more.
use ai_memory_hub.Base.{
  Field, Text, text_eq, option_eq, int_eq, ◌≡◌, refl, sym, ap, subst, ◌∙◌, false≢true, Option, none,
  some, List, [], ◌∷◌, any, ◌==◌, Bool-cases, inl, inr, ok, ok-injective, raise-ne-ok, ◌>>=◌,
  bind_elim, bind-ok, some_inj,
}
use ai_memory_hub.IndexStates.Payload.{
  index_states, ManifestItem, target_matches, filled_id, update_item, update_items,
  update_index_chunks_payload, normalize_index_state,
}
use ai_memory_hub.IndexStates.Targets.{
  Targeted, Filled, matches, matches-Targeted, Targeted-matches, fill-Filled, fill-twice,
}

-- What becomes of an item of the manifest.
pub data Updated {Rest : Type 0} (ids : List Text) (state : Text)
    : Option (ManifestItem Rest) → Option (ManifestItem Rest) → Type 0 where
  no_mapping : Updated ids state none none
  passed :
      (chunk : ManifestItem Rest)
      → (Targeted ids chunk.chunk_id chunk.chunk_index → ⊥)
      → Updated ids state (some chunk) (some chunk)
  changed :
      (chunk : ManifestItem Rest) (id : Field)
      → Targeted ids chunk.chunk_id chunk.chunk_index
      → Filled ids chunk.chunk_id chunk.chunk_index id
      → Updated ids state (some chunk) (some (record chunk { chunk_id = id; index_state = state }))

-- Related item by item.
abbrev pub Pointwise : {A : Type 0} → (A → A → Type 0) → List A → List A → Type 0
Pointwise R [] [] = Unit
Pointwise R (x ∷ xs) (y ∷ ys) = R x y × Pointwise R xs ys
Pointwise R _ _ = ⊥

module _ {Rest : Type 0} (ids : List Text) (state : Text) where
  update_item-Updated :
      (item : Option (ManifestItem Rest)) → Updated ids state item (update_item ids state item)
  unfolding update_item target_matches filled_id
  update_item-Updated none = no_mapping
  update_item-Updated (some chunk) =
      elim (Bool-cases (matches ids chunk.chunk_id chunk.chunk_index)) [
        | inl hit ↦ rw hit (
            changed chunk _ (matches-Targeted ids _ _ hit)
              (fill-Filled ids chunk.chunk_id chunk.chunk_index))
        | inr miss ↦
            rw miss (passed chunk (λ t. false≢true (sym miss ∙ Targeted-matches ids _ _ t)))
      ]

  update_item-twice :
      (item : Option (ManifestItem Rest))
      → update_item ids state (update_item ids state item) ≡ update_item ids state item
  unfolding update_item target_matches filled_id
  update_item-twice none = refl
  update_item-twice (some chunk) =
      elim (Bool-cases (matches ids chunk.chunk_id chunk.chunk_index)) [
        | inl hit ↦
            let (again, same) = fill-twice ids chunk.chunk_id chunk.chunk_index hit in
            rw hit (
              rw again (ap (λ id. some (record chunk { chunk_id = id; index_state = state })) same))
        | inr miss ↦ rw (miss, update_item, miss) refl
      ]

  update_items-Updated :
      (items : List (Option (ManifestItem Rest)))
      → Pointwise (Updated ids state) items (update_items ids state items)
  update_items-Updated [] = tt
  update_items-Updated (item ∷ items) = (update_item-Updated item, update_items-Updated items)

  update_items-twice :
      (items : List (Option (ManifestItem Rest)))
      → update_items ids state (update_items ids state items) ≡ update_items ids state items
  update_items-twice [] = refl
  update_items-twice (item ∷ items) =
      ap (λ i. i ∷ update_items ids state (update_items ids state items)) (update_item-twice item)
      ∙ ap (λ is. update_item ids state item ∷ is) (update_items-twice items)

normalized-same :
    (state : Text) {normalized : Text}
    → normalize_index_state state ≡ ok normalized
    → state ≡ normalized
unfolding normalize_index_state
normalized-same state h = elim (Bool-cases (any (λ s. s == state) index_states)) [
  | inl e ↦ ok-injective (rw e at h)
  | inr e ↦ absurd (raise-ne-ok (rw e at h))
]

-- If an update of the manifest does not raise, an item that is no mapping and a chunk that the ids
-- do not name stay as they are; a chunk that they name, by its id or, where it has none, by its
-- index, gets the state, keeps its id, and where it had none gets the first of the ids with its
-- index, if there is one. The same update done again changes nothing more.
pub update_index_chunks_payload-Updated :
    {Rest : Type 0} (ids : List Text) (state : Text)
    (items updated : List (Option (ManifestItem Rest)))
    → update_index_chunks_payload ids state (some items) ≡ ok (some updated)
    → Pointwise (Updated ids state) items updated
      × (update_index_chunks_payload ids state (some updated) ≡ ok (some updated))
unfolding update_index_chunks_payload
update_index_chunks_payload-Updated ids state items updated h =
    bind_elim (normalize_index_state state) _ h λ normalized checked last.
      let result : update_items ids normalized items ≡ updated = some_inj (ok-injective last) in
      (
        subst (λ s. Pointwise (Updated ids s) items updated) (sym (normalized-same state checked))
            (subst (Pointwise (Updated ids normalized) items) result
              (update_items-Updated ids normalized items)),
        subst
            (λ u.
              (normalize_index_state state >>= λ s. ok (some (update_items ids s u))) ≡ ok (some u))
            result
            (bind-ok _ checked ∙ ap (λ is. ok (some is)) (update_items-twice ids normalized items)),
      )
