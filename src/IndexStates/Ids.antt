-- ===== src/IndexStates/Ids.antt =====
-- Chunk ids: `_legacy_manifest_chunk_id` of memory/ingestion/mvp_ingestion.py and
-- `_chunk_index_from_chunk_id` of memory/backend/metadata_store.py. The digits are those of ASCII.
use ai_memory_hub.Base.{
  Text, ℕ, ◌+◌, ◌-◌, ◌*◌, ℤ, pos, Bool, ◌&&◌, not, Option, none, some, List, [], ◌∷◌, ◌++◌,
  get_elem?, all, is_empty, leb, eqb, if◌then◌else◌, int_text, strip,
}

-- `value.isdigit()`
unfoldable pub is_digits : Text → Bool
is_digits value = not (is_empty value) && all (λ c. leb 48 c && leb c 57) value

-- `int(value)` of digits, with what the digits before make up.
unfoldable pub int_from : ℕ → Text → ℕ
int_from n [] = n
int_from n (c ∷ s) = int_from (n * 10 + (c - 48)) s

abbrev prepend : ℕ → List Text → List Text
prepend c [] = (c ∷ []) ∷ []
prepend c (part ∷ parts) = (c ∷ part) ∷ parts

-- `chunk_id.split(":")`
unfoldable pub split_colon : Text → List Text
split_colon [] = [] ∷ []
split_colon (c ∷ s) =
    let parts = split_colon s in if eqb c b':' then [] ∷ parts else prepend c parts

abbrev pub index_of_part : Option Text → Option ℤ
index_of_part none = none
index_of_part (some part) = if is_digits part then some (pos (int_from 0 part)) else none

-- The second test of the code, for two parts, asks of the same part what the first did.
unfoldable pub chunk_index_from_chunk_id : Text → Option ℤ
unfolding split_colon is_digits int_from
chunk_index_from_chunk_id chunk_id = index_of_part (get_elem? (split_colon chunk_id) 1)

-- The id of a chunk that the manifest has without one.
unfoldable pub legacy_manifest_chunk_id : Text → ℤ → Text → Text
unfolding int_text strip
legacy_manifest_chunk_id memory_id chunk_index message_hash =
    let hash = strip message_hash in
    if is_empty hash
    then memory_id ++ (b':' ∷ int_text chunk_index)
    else memory_id ++ (b':' ∷ int_text chunk_index ++ b':' ∷ hash)
