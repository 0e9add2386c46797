-- ===== src/IndexStates/Payload.antt =====
-- memory/backend/metadata_store.py: `IndexChunkIdentitySet`, `index_chunk_ids_by_chunk_index`,
-- `normalize_index_state` and `update_index_chunks_payload`.
use ai_memory_hub.Base.{
  Field, missing, null, text_value, str_or_empty, true, Text, text_eq, option_eq, int_eq, codes, ℤ,
  Bool, false, ◌&&◌, not, Option, none, some, List, [], ◌∷◌, map, any, is_empty, ◌==◌,
  if◌then◌else◌, find, Result, ok, raise, value_error, ◌>>=◌,
}
use ai_memory_hub.IndexStates.Ids.{chunk_index_from_chunk_id}

-- A chunk of the manifest; `chunk_index` is none where it is missing or no integer.
pub record ManifestItem (Rest : Type 0) : Type 0 where
  pub chunk_id : Field
  pub chunk_index : Option ℤ
  pub index_state : Text
  pub rest : Rest

-- `IndexChunkIdentitySet`, each set as its membership test.
pub record ChunkTargets : Type 0 where
  pub has_id : Text → Bool
  pub has_index : ℤ → Bool

abbrev pub index_is : ℤ → Text → Bool
index_is index chunk_id = chunk_index_from_chunk_id chunk_id == some index

unfoldable pub from_chunk_ids : List Text → ChunkTargets
from_chunk_ids chunk_ids = record {
  has_id = λ id. any (λ chunk_id. not (is_empty chunk_id) && chunk_id == id) chunk_ids;
  has_index =
      λ index. any (λ chunk_id. not (is_empty chunk_id) && index_is index chunk_id) chunk_ids;
}

abbrev pub index_matches : ChunkTargets → Option ℤ → Bool
index_matches targets none = false
index_matches targets (some index) = targets.has_index index

unfoldable pub target_matches : {Rest : Type 0} → ChunkTargets → ManifestItem Rest → Bool
target_matches targets chunk =
    if not (is_empty (str_or_empty chunk.chunk_id))
    then targets.has_id (str_or_empty chunk.chunk_id)
    else index_matches targets chunk.chunk_index

-- The dictionary as the function of its keys: the first id with the index.
unfoldable pub index_chunk_ids_by_chunk_index : List Text → ℤ → Option Text
index_chunk_ids_by_chunk_index chunk_ids index = find (index_is index) chunk_ids

abbrev pub index_states : List Text
index_states = codes "pending_index" ∷ codes "indexed" ∷ codes "indexing_failed" ∷ []

unfoldable pub normalize_index_state : Text → Result Text
normalize_index_state state =
    if any (λ s. s == state) index_states
    then ok state
    else raise (value_error "not a valid IndexState")

abbrev pub id_by_index : List Text → Option ℤ → Option Text
id_by_index chunk_ids none = none
id_by_index chunk_ids (some index) = index_chunk_ids_by_chunk_index chunk_ids index

abbrev pub or_id : Field → Option Text → Field
or_id chunk_id none = chunk_id
or_id chunk_id (some id) = text_value id

-- `not chunk.get("chunk_id")`
abbrev pub is_gap : Field → Bool
is_gap missing = true
is_gap null = true
is_gap (text_value t) = is_empty t

-- The id that the chunk has after the loop body.
unfoldable pub filled_id : {Rest : Type 0} → List Text → ManifestItem Rest → Field
unfolding index_chunk_ids_by_chunk_index
filled_id chunk_ids chunk =
    if is_gap chunk.chunk_id
    then or_id chunk.chunk_id (id_by_index chunk_ids chunk.chunk_index)
    else chunk.chunk_id

-- The loop body; an item that is no mapping is none.
unfoldable pub update_item :
    {Rest : Type 0} → List Text → Text → Option (ManifestItem Rest) → Option (ManifestItem Rest)
unfolding target_matches from_chunk_ids filled_id
update_item chunk_ids state none = none
update_item chunk_ids state (some chunk) =
    if target_matches (from_chunk_ids chunk_ids) chunk
    then some (record chunk { chunk_id = filled_id chunk_ids chunk; index_state = state })
    else some chunk

abbrev pub update_items :
    {Rest : Type 0}
    → List Text
    → Text
    → List (Option (ManifestItem Rest))
    → List (Option (ManifestItem Rest))
update_items chunk_ids state chunks = map (update_item chunk_ids state) chunks

-- The manifest is none where the metadata has none.
unfoldable pub update_index_chunks_payload :
    {Rest : Type 0}
    → List Text
    → Text
    → Option (List (Option (ManifestItem Rest)))
    → Result (Option (List (Option (ManifestItem Rest))))
unfolding update_item normalize_index_state
update_index_chunks_payload chunk_ids state none = ok none
update_index_chunks_payload chunk_ids state (some chunks) = do
  normalized ← normalize_index_state state
  ok (some (update_items chunk_ids normalized chunks))
