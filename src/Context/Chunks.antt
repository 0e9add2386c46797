-- ===== src/Context/Chunks.antt =====
-- memory/ingestion/mvp_ingestion.py: the identities of retrieved chunks, and the text of a chunk
-- without the overlap with its neighbours.
use ai_memory_hub.Base.{
  Text, text_eq, option_eq, int_eq, ℕ, ◌-◌, Bool, false, ◌&&◌, ◌||◌, not, Option, none, some, List,
  [], ◌∷◌, length, take, drop, is_empty, eqb, ◌==◌, if◌then◌else◌, lstrip, rstrip, ℤ, at_least,
  adjacent,
}
use ai_memory_hub.Context.Overlap.{longest_exact_edge_overlap}

-- A chunk of the manifest under `conversation.metadata`; its index is -1 where it has none.
pub record ManifestChunk : Type 0 where
  pub manifest_index : ℤ
  pub message_hash : Text
  pub token_window_index : Option ℤ

-- A match of the retrieval: `id` is none where the row has none, and `index_chunks` where the
-- conversation, its metadata or the list is missing; a chunk that is no mapping is none.
pub record Row (Score : Type 0) : Type 0 where
  pub id : Option Text
  pub chunk_index : ℤ
  pub score : Score
  pub text : Text
  pub index_chunks : Option (List (Option ManifestChunk))

-- `(memory_id, chunk_index, message_hash, token_window_index)`
pub record Identity : Type 0 where
  pub memory_id : Text
  pub index : ℤ
  pub hash : Text
  pub window : Option ℤ

-- An entry of the cache: the key and what is kept under it.
pub record Cached : Type 0 where
  pub key_id : Text
  pub key_index : ℤ
  pub kept : Option Identity

-- `cache[(memory_id, chunk_index)]`, none where there is no such key; the last write stands first.
unfoldable pub cached : Text → ℤ → List Cached → Option (Option Identity)
cached memory_id index [] = none
cached memory_id index (entry ∷ cache) =
    if entry.key_id == memory_id && entry.key_index == index
    then some entry.kept
    else cached memory_id index cache

-- The loop over the manifest.
unfoldable pub cache_manifest : Text → List (Option ManifestChunk) → List Cached → List Cached
cache_manifest memory_id [] cache = cache
cache_manifest memory_id (none ∷ chunks) cache = cache_manifest memory_id chunks cache
cache_manifest memory_id (some chunk ∷ chunks) cache = cache_manifest memory_id chunks (
    if is_empty chunk.message_hash
    then cache
    else record {
      key_id = memory_id;
      key_index = chunk.manifest_index;
      kept = some (record {
        memory_id = memory_id;
        index = chunk.manifest_index;
        hash = chunk.message_hash;
        window = chunk.token_window_index;
      });
    }
      ∷ cache)

abbrev id_text : Option Text → Text
id_text none = []
id_text (some id) = id

abbrev found : Option (Option Identity) → Option Identity
found none = none
found (some identity) = identity

abbrev manifest : Option (List (Option ManifestChunk)) → List (Option ManifestChunk)
manifest none = []
manifest (some chunks) = chunks

-- The identity with the cache after the call.
unfoldable pub context_chunk_identity :
    {Score : Type 0} → Row Score → List Cached → Option Identity × List Cached
unfolding cached cache_manifest
context_chunk_identity row cache =
    let memory_id = id_text row.id in
    if is_empty memory_id then (none, cache) else elim (cached memory_id row.chunk_index cache) [
      | some identity ↦ (identity, cache)
      | none ↦
          let miss : Cached = record {
            key_id = memory_id;
            key_index = row.chunk_index;
            kept = none;
          } in
          let filled = cache_manifest memory_id (manifest row.index_chunks) (miss ∷ cache) in
          (found (cached memory_id row.chunk_index filled), filled)
    ]

module _ (is_alnum is_word : ℕ → Bool) where
  unfoldable pub trim_exact_prefix_overlap : Text → Text → Text
  unfolding longest_exact_edge_overlap lstrip
  trim_exact_prefix_overlap text prior_text =
      let overlap = longest_exact_edge_overlap is_alnum is_word prior_text text in
      if eqb overlap 0 || eqb overlap (length text) || eqb overlap (length prior_text)
      then text
      else lstrip (drop overlap text)

  unfoldable pub trim_exact_suffix_overlap : Text → Text → Text
  unfolding longest_exact_edge_overlap rstrip
  trim_exact_suffix_overlap text prior_text =
      let overlap = longest_exact_edge_overlap is_alnum is_word text prior_text in
      if eqb overlap 0 || eqb overlap (length text) || eqb overlap (length prior_text)
      then text
      else rstrip (take (length text - overlap) text)

  -- Two windows of one message that are not next to each other.
  abbrev pub distant_windows : Option ℤ → Option ℤ → Bool
  distant_windows (some window) (some prior) = not (adjacent window prior)
  distant_windows _ _ = false

  -- The body of the loop for a prior row that has an identity.
  unfoldable pub trim_against : Identity → Identity → Text → Text → Text
  unfolding trim_exact_prefix_overlap trim_exact_suffix_overlap
  trim_against own prior prior_text text =
      if not (own.memory_id == prior.memory_id)
        || not (own.hash == prior.hash)
        || not (adjacent own.index prior.index)
        || distant_windows own.window prior.window
      then text
      else if not (at_least prior.index own.index)
      then trim_exact_prefix_overlap text prior_text
      else trim_exact_suffix_overlap text prior_text

  unfoldable pub trim_all :
      {Score : Type 0} → Identity → List (Row Score) → Text → List Cached → Text × List Cached
  unfolding context_chunk_identity trim_against
  trim_all own [] text cache = (text, cache)
  trim_all own (prior ∷ rows) text cache =
      let (identity, seen) = context_chunk_identity prior cache in
      trim_all own rows
        (elim identity [ none ↦ text | some other ↦ trim_against own other prior.text text ]) seen

  unfoldable pub context_text_without_prior_overlap :
      {Score : Type 0} → Row Score → List (Row Score) → List Cached → Text × List Cached
  unfolding trim_all
  context_text_without_prior_overlap row selected cache =
      let (identity, seen) = context_chunk_identity row cache in
      elim identity [ none ↦ (row.text, seen) | some own ↦ trim_all own selected row.text seen ]
