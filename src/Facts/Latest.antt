-- ===== src/Facts/Latest.antt =====
-- The values of the latest entries of a timeline in memory/ingestion/fact_timeline.py.
use ai_memory_hub.Base.{
  Text, text_eq, text_beq, text_beq_iff, text_beq_refl, ℕ, suc, ◌≡◌, refl, sym, ap, ◌∙◌, true,
  false, false≢true, not, List, [], ◌∷◌, keep, length, any, ltb, leb, ◌==◌, arith, Bool-cases, inl,
  inr, UniqueBy,
}
use ai_memory_hub.Facts.Entries.{Clock, FactTimelineEntry}
use ai_memory_hub.Facts.Timeline.{
  latest_group_key, latest_entries, unique_from, unique_latest_entries, has_latest_conflict,
}

unique_from-fresh :
    (seen : List Text) (v : Text) (entries : List FactTimelineEntry)
    → any (λ w. w == v) seen ≡ true
    → any (λ e. e.value == v) (unique_from seen entries) ≡ false
unfolding unique_from
unique_from-fresh seen v [] h = refl
unique_from-fresh seen v (entry ∷ entries) h =
    elim (Bool-cases (any (λ w. w == entry.value) seen)) [
      | inl old ↦ rw (old, unique_from) (unique_from-fresh seen v entries h)
      | inr new ↦
          let apart : text_beq entry.value v ≡ false = elim (Bool-cases (text_beq entry.value v)) [
            | inl t ↦ absurd (
                false≢true (
                  sym new
                  ∙ ap (λ x. any (λ w. w == x) seen) ((text_beq_iff entry.value v).0 t)
                  ∙ h))
            | inr f ↦ f
          ] in
          let rest = unique_from-fresh (entry.value ∷ seen) v entries (ground (arith, h)) in
          rw (new, unique_from, apart) rest
    ]

unique_from-UniqueBy :
    (seen : List Text) (entries : List FactTimelineEntry)
    → UniqueBy (λ e. e.value) (unique_from seen entries)
unfolding unique_from
unique_from-UniqueBy seen [] = tt
unique_from-UniqueBy seen (entry ∷ entries) = elim (Bool-cases (any (λ w. w == entry.value) seen)) [
  | inl old ↦ rw (old, unique_from) (unique_from-UniqueBy seen entries)
  | inr new ↦
      rw (new, unique_from)
        (
          unique_from-fresh (entry.value ∷ seen) entry.value entries
              (rw (text_beq_refl entry.value) refl),
          unique_from-UniqueBy (entry.value ∷ seen) entries,
        )
]

-- A second value among the entries.
unique_from-single :
    (v : Text) (entries : List FactTimelineEntry)
    → leb 1 (length (unique_from (v ∷ []) entries)) ≡ any (λ e. not (v == e.value)) entries
unfolding unique_from
unique_from-single v [] = refl
unique_from-single v (entry ∷ entries) = elim (Bool-cases (v == entry.value)) [
  | inl same ↦ rw (same, unique_from) (unique_from-single v entries)
  | inr other ↦ rw (other, unique_from) (ground arith)
]

unique_from-conflict :
    (first : FactTimelineEntry) (others : List FactTimelineEntry)
    → ltb 1 (length (unique_from [] (first ∷ others)))
      ≡ any (λ e. not (first.value == e.value)) (first ∷ others)
unfolding unique_from
unique_from-conflict first others =
    let rest = unique_from-single first.value others in
    rw (text_beq_refl first.value) (more (length (unique_from (first.value ∷ []) others)) ∙ rest)
  where
    more : (n : ℕ) → ltb 1 (suc n) ≡ leb 1 n
    more n = ground arith

-- The unique latest entries have distinct values, and there is a conflict just where some latest
-- entry has another value than the first entry of the timeline.
pub has_latest_conflict-differs :
    (clock : Clock) (first : FactTimelineEntry) (rest : List FactTimelineEntry)
    → UniqueBy (λ e. e.value) (unique_latest_entries clock (first ∷ rest))
      × (has_latest_conflict clock (first ∷ rest)
          ≡ any (λ e. not (first.value == e.value)) (latest_entries clock (first ∷ rest)))
unfolding has_latest_conflict unique_latest_entries latest_entries
has_latest_conflict-differs clock first rest =
    let same = text_beq_refl (latest_group_key clock first) in
    (
      unique_from-UniqueBy [] (latest_entries clock (first ∷ rest)),
      rw (same, keep) (unique_from-conflict first _),
    )
