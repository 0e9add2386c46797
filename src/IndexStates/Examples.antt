-- ===== src/IndexStates/Examples.antt =====
-- Runs of the index states, and the properties at concrete chunks.
use ai_memory_hub.Base.{
  Field, missing, text_value, Text, text_beq, codes, ℕ, ℤ, pos, ◌≡◌, refl, Option, none, some, List,
  [], ◌∷◌, ok, is_space, find,
}
use ai_memory_hub.IndexStates.Ids.{chunk_index_from_chunk_id, legacy_manifest_chunk_id}
use ai_memory_hub.IndexStates.Parsing.{legacy_manifest_chunk_id-read}
use ai_memory_hub.IndexStates.Payload.{ManifestItem, update_index_chunks_payload}
use ai_memory_hub.IndexStates.Updates.{Pointwise, Updated, update_index_chunks_payload-Updated}

legacy_manifest_chunk_id-read_example :
    chunk_index_from_chunk_id (legacy_manifest_chunk_id (codes "a-1") (pos 12) (codes " h:2"))
    ≡ some (pos 12)
legacy_manifest_chunk_id-read_example =
    legacy_manifest_chunk_id-read (codes "a-1") (codes " h:2") 12 refl

id_text : legacy_manifest_chunk_id (codes "a-1") (pos 12) (codes " h:2") ≡ codes "a-1:12:h:2"
unfolding legacy_manifest_chunk_id is_space
id_text = refl

abbrev item : Field → Option ℤ → Text → ManifestItem ℕ
item id index state = record { chunk_id = id; chunk_index = index; index_state = state; rest = 0 }

abbrev before : List (Option (ManifestItem ℕ))
before =
    some (item missing (some (pos 0)) (codes "pending_index"))
    ∷ none
    ∷ some (item (text_value (codes "m:1:h")) (some (pos 1)) (codes "pending_index"))
    ∷ []

abbrev after : List (Option (ManifestItem ℕ))
after =
    some (item (text_value (codes "m:0:h")) (some (pos 0)) (codes "indexed"))
    ∷ none
    ∷ some (item (text_value (codes "m:1:h")) (some (pos 1)) (codes "pending_index"))
    ∷ []

updated :
    update_index_chunks_payload (codes "m:0:h" ∷ []) (codes "indexed") (some before)
    ≡ ok (some after)
unfolding update_index_chunks_payload chunk_index_from_chunk_id text_beq find
updated = refl

update_index_chunks_payload-Updated_example :
    Pointwise (Updated (codes "m:0:h" ∷ []) (codes "indexed")) before after
    × (update_index_chunks_payload (codes "m:0:h" ∷ []) (codes "indexed") (some after)
        ≡ ok (some after))
update_index_chunks_payload-Updated_example =
    update_index_chunks_payload-Updated (codes "m:0:h" ∷ []) (codes "indexed") before after updated
