-- ===== src/Ingestion/Append.antt =====
-- `_detect_append_delta` and `_next_chunk_index` of memory/ingestion/mvp_ingestion.py.
use ai_memory_hub.Base.{
  ℤ, pos, negsuc, zero, at_least, Option, none, some, if◌then◌else◌, suc, Text, Bool, true, false,
  List, [], ◌∷◌, map, take, drop, length, if◌then◌else◌, ◌==◌, ◌&&◌, text_eq, Result, ok, raise,
  value_error,
}

-- The fields of a normalized message that ingestion reads.
pub record Message : Type 0 where
  pub hash : Text
  pub role : Text
  pub text : Text

pub data SnapshotRelation : Type 0 where
  equal append stale : SnapshotRelation

pub record AppendDelta : Type 0 where
  pub relation : SnapshotRelation
  pub messages : List Message
  pub incoming_covers_updated_history : Bool

abbrev pub hashes : List Message → List Text
hashes = map (λ m. m.hash)

-- `==` on lists of hashes.
unfoldable pub same_hashes : List Text → List Text → Bool
same_hashes [] [] = true
same_hashes (a ∷ xs) (b ∷ ys) = a == b && same_hashes xs ys
same_hashes _ _ = false

unfoldable pub detect_append_delta : List Message → List Message → Result AppendDelta
unfolding same_hashes
detect_append_delta existing incoming =
    let old = hashes existing in
    let new = hashes incoming in
    if same_hashes old new
    then ok (record { relation = equal; messages = []; incoming_covers_updated_history = true })
    else if same_hashes (take (length old) new) old
    then ok (record {
      relation = append;
      messages = drop (length old) incoming;
      incoming_covers_updated_history = true;
    })
    else if same_hashes (take (length new) old) new
    then ok (record { relation = stale; messages = []; incoming_covers_updated_history = false })
    else raise (value_error "duplicate_conflict: same thread has divergent message history")

abbrev plus_one : ℤ → ℤ
plus_one (pos n) = pos (suc n)
plus_one (negsuc zero) = pos 0
plus_one (negsuc (suc n)) = negsuc n

-- A missing `chunk_index` counts as -1.
abbrev index_or_default : Option ℤ → ℤ
index_or_default none = negsuc 0
index_or_default (some i) = i

-- `max` of the indexes so far.
unfoldable pub max_index : ℤ → List (Option ℤ) → ℤ
max_index m [] = m
max_index m (index ∷ indexes) =
    let i = index_or_default index in max_index (if at_least m i then m else i) indexes

-- `_next_chunk_index`, on the `chunk_index` values of the stored chunks, each an integer or missing.
unfoldable pub next_chunk_index : List (Option ℤ) → ℤ → ℤ
unfolding max_index
next_chunk_index [] fallback = fallback
next_chunk_index (index ∷ indexes) fallback = plus_one (max_index (index_or_default index) indexes)
