-- ===== src/Facts/Timeline.antt =====
-- memory/ingestion/fact_timeline.py: the order of the entries, and the projection.
use ai_memory_hub.Base.{
  Field, missing, null, text_value, str_or_empty, get_text, Text, text_eq, ℕ, suc, Bool, true,
  false, ◌&&◌, ◌||◌, not, Option, none, some, List, [], ◌∷◌, map, length, any, keep, ltb, eqb, ◌==◌,
  text_ltb, sort_by,
}
use ai_memory_hub.TokenStore.Validate.{sorted_set}
use ai_memory_hub.Facts.Entries.{Clock, Fact, Memory, FactTimelineEntry, timeline_entry, or_text}

unfoldable pub latest_group_key : Clock → FactTimelineEntry → Text
latest_group_key clock entry = elim entry.parsed_stored_at [
  | none ↦ or_text entry.stored_at []
  | some time ↦ clock.isoformat time
]

-- The first two components of `sort_key`: an entry without a time stands below every time.
abbrev pub time_rank : Option ℕ → ℕ
time_rank none = 0
time_rank (some time) = suc time

-- `a.sort_key < b.sort_key`
unfoldable pub key_below : FactTimelineEntry → FactTimelineEntry → Bool
key_below a b =
    ltb (time_rank a.parsed_stored_at) (time_rank b.parsed_stored_at)
    || eqb (time_rank a.parsed_stored_at) (time_rank b.parsed_stored_at)
      && (text_ltb (or_text a.stored_at []) (or_text b.stored_at [])
          || or_text a.stored_at [] == or_text b.stored_at []
            && text_ltb (str_or_empty a.fact.id) (str_or_empty b.fact.id))

-- With `reverse=True` equal keys keep their order.
unfoldable pub newest_first : FactTimelineEntry → FactTimelineEntry → Bool
unfolding key_below
newest_first a b = not (key_below a b)

abbrev pub is_deleted : Fact → Bool
is_deleted fact = elim fact.deleted_at [ none ↦ false | some _ ↦ true ]

-- `project`
unfoldable pub project : Clock → Option (Text → Option Memory) → List Fact → List FactTimelineEntry
unfolding timeline_entry newest_first sort_by
project clock lookup facts =
    sort_by newest_first
      (map (timeline_entry clock lookup) (keep (λ fact. not (is_deleted fact)) facts))

unfoldable pub latest_entries : Clock → List FactTimelineEntry → List FactTimelineEntry
unfolding latest_group_key
latest_entries clock [] = []
latest_entries clock (first ∷ rest) =
    keep (λ entry. latest_group_key clock entry == latest_group_key clock first) (first ∷ rest)

-- The entries with their places, which tell the objects apart as `id` does.
unfoldable pub numbered : ℕ → List FactTimelineEntry → List (ℕ × FactTimelineEntry)
numbered n [] = []
numbered n (entry ∷ entries) = (n, entry) ∷ numbered (suc n) entries

-- `latest_entry_ids`
unfoldable pub latest_entry_ids : Clock → List FactTimelineEntry → List ℕ
unfolding latest_group_key numbered
latest_entry_ids clock [] = []
latest_entry_ids clock (first ∷ rest) =
    map (λ q. q.0)
      (keep (λ q. latest_group_key clock q.1 == latest_group_key clock first)
        (numbered 0 (first ∷ rest)))

unfoldable pub historical_entries : Clock → List FactTimelineEntry → List FactTimelineEntry
unfolding latest_entry_ids
historical_entries clock entries =
    map (λ q. q.1)
      (keep (λ q. not (any (eqb q.0) (latest_entry_ids clock entries))) (numbered 0 entries))

-- The loop of `unique_latest_entries`.
unfoldable pub unique_from : List Text → List FactTimelineEntry → List FactTimelineEntry
unique_from seen [] = []
unique_from seen (entry ∷ entries) = elim (any (λ v. v == entry.value) seen) [
  | true ↦ unique_from seen entries
  | false ↦ entry ∷ unique_from (entry.value ∷ seen) entries
]

unfoldable pub unique_latest_entries : Clock → List FactTimelineEntry → List FactTimelineEntry
unfolding latest_entries unique_from
unique_latest_entries clock entries = unique_from [] (latest_entries clock entries)

unfoldable pub has_latest_conflict : Clock → List FactTimelineEntry → Bool
unfolding unique_latest_entries
has_latest_conflict clock entries = ltb 1 (length (unique_latest_entries clock entries))

-- `latest_payload` of an entry; a key that `_drop_empty` leaves out is none or missing.
pub record EntryPayload : Type 0 where
  pub value : Text
  pub stored_at : Option Text
  pub author : Text
  pub fact_id : Field
  pub subject : Option Text
  pub predicate : Option Text
  pub source_conversation_id : Option Text

-- A value of None is left out.
abbrev kept : Field → Field
kept missing = missing
kept null = missing
kept (text_value t) = text_value t

-- A missing value becomes None.
abbrev or_null : Field → Field
or_null missing = null
or_null null = null
or_null (text_value t) = text_value t

abbrev pub entry_payload : FactTimelineEntry → EntryPayload
entry_payload entry = record {
  value = entry.value;
  stored_at = entry.stored_at;
  author = entry.author;
  fact_id = kept entry.fact.id;
  subject = entry.fact.subject;
  predicate = entry.fact.predicate;
  source_conversation_id = entry.source_conversation_id;
}

pub data LatestPayload : Type 0 where
  agreed : EntryPayload → LatestPayload
  conflicting :
      (values : List Text) (stored_at : Option Text) (authors : List Text)
      (fact_ids : List (Option Text)) (subject predicate : Option Text)
      → LatestPayload

abbrev payload_of : List FactTimelineEntry → Option LatestPayload
payload_of [] = none
payload_of (entry ∷ []) = some (agreed (entry_payload entry))
payload_of (first ∷ second ∷ rest) =
    let latest = first ∷ second ∷ rest in
    some (
      conflicting (map (λ e. e.value) latest) first.stored_at
        (sorted_set (map (λ e. e.author) latest)) (map (λ e. get_text e.fact.id) latest)
        first.fact.subject first.fact.predicate)

-- `latest_payload` of a projection.
unfoldable pub latest_payload : Clock → List FactTimelineEntry → Option LatestPayload
unfolding unique_latest_entries sorted_set
latest_payload clock entries = payload_of (unique_latest_entries clock entries)

unfoldable pub timeline_payload : List FactTimelineEntry → List EntryPayload
timeline_payload entries =
    map (λ entry. record (entry_payload entry) { fact_id = or_null entry.fact.id }) entries
