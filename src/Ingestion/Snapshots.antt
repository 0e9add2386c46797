-- ===== src/Ingestion/Snapshots.antt =====
-- What `_detect_append_delta` of memory/ingestion/mvp_ingestion.py finds, by the two histories.
use ai_memory_hub.Base.{
  Text, ◌≡◌, ◌≢◌, ◌↔◌, ◌⊎◌, refl, ap, sym, ◌∙◌, true, List, [], ◌∷◌, ◌++◌, take, length,
  take-append, text_eq, text_beq_iff, ok, Bool-cases, inl, inr, arith,
}
use ai_memory_hub.Ingestion.Append.{
  Message, SnapshotRelation, equal, append, stale, AppendDelta, hashes, same_hashes,
  detect_append_delta,
}

same_hashes_iff : (xs ys : List Text) → (same_hashes xs ys ≡ true) ↔ (xs ≡ ys)
unfolding same_hashes
same_hashes_iff [] [] = ground arith
same_hashes_iff (a ∷ xs) (b ∷ ys) = ground (arith, same_hashes_iff xs ys, text_beq_iff a b)
same_hashes_iff [] (b ∷ ys) = ground arith
same_hashes_iff (a ∷ xs) [] = ground arith

-- What each relation says of the stored and the incoming history.
unfoldable pub Tells : List Message → List Message → AppendDelta → SnapshotRelation → Type 0
Tells existing incoming d equal = (hashes existing ≡ hashes incoming) × (d.messages ≡ [])
Tells existing incoming d append =
    (hashes incoming ≡ hashes existing ++ hashes d.messages) × (hashes d.messages ≢ [])
Tells existing incoming d stale =
    (rest : List Text) × (hashes existing ≡ hashes incoming ++ rest)
    × (rest ≢ [])
    × (d.messages ≡ [])

begins_with :
    (xs ys rest : List Text) → ys ≡ xs ++ rest → same_hashes (take (length xs) ys) xs ≡ true
begins_with xs ys rest h =
    (same_hashes_iff (take (length xs) ys) xs).1 (ap (take (length xs)) h ∙ take-append xs rest)

-- The detection succeeds whenever one of the two histories begins with the other.
pub detect_append_delta-total :
    (existing incoming : List Message)
    → ((rest : List Text) × (hashes incoming ≡ hashes existing ++ rest))
      ⊎ ((rest : List Text) × (hashes existing ≡ hashes incoming ++ rest))
    → (d : AppendDelta) × (detect_append_delta existing incoming ≡ ok d)
unfolding detect_append_delta
detect_append_delta-total existing incoming h =
    let old = hashes existing in
    let new = hashes incoming in
    elim (Bool-cases (same_hashes old new)) [
      | inl same ↦ rw same (_, refl)
      | inr differ ↦ elim (Bool-cases (same_hashes (take (length old) new) old)) [
        | inl begins ↦ rw (differ, begins) (_, refl)
        | inr not_begun ↦ elim h [
          | inl longer ↦ absurd (cc (sym not_begun ∙ begins_with old new longer.0 longer.1))
          | inr shorter ↦ rw (differ, not_begun, begins_with new old shorter.0 shorter.1) (_, refl)
        ]
      ]
    ]
