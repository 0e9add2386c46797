-- ===== src/Facts/Examples.antt =====
-- Runs of the fact timeline, and the properties at concrete facts.
use ai_memory_hub.Base.{
  text_value, In, arith, Text, text_eq, text_beq, text_ltb, codes, ℕ, ◌+◌, ◌*◌, ◌≡◌, refl, Bool,
  true, ◌∷◌, [], List, Option, none, some, not, any, All, UniqueBy, count_where, map, keep, ◌==◌,
  is_space, ends_with,
}
use ai_memory_hub.Facts.Entries.{Clock, Fact, FactTimelineEntry, timeline_entry}
use ai_memory_hub.Facts.Timeline.{
  project, is_deleted, latest_entries, historical_entries, unique_latest_entries,
  has_latest_conflict, latest_payload, agreed, entry_payload,
}
use ai_memory_hub.Facts.Order.{Descending, by_id, later, SameKey, project-Descending}
use ai_memory_hub.Facts.Historical.{Simultaneous, Older, latest_entries-historical}
use ai_memory_hub.Facts.Latest.{has_latest_conflict-differs}

-- A clock on texts of two digits.
abbrev digits_clock : Text → Option ℕ
digits_clock (c ∷ d ∷ []) = some (10 * c + d)
digits_clock _ = none

abbrev clock : Clock
clock = record { from_isoformat = digits_clock; isoformat = λ n. n ∷ [] }

abbrev fact_at : Text → Text → Text → Option Text → Fact
fact_at id object time deleted = record {
  id = text_value id;
  subject = some (codes "s");
  predicate = some (codes "p");
  object = some object;
  object_raw = none;
  object_normalized = none;
  source_conversation_id = none;
  stored_at = none;
  author = some (codes "ann");
  created_at = some time;
  updated_at = none;
  last_confirmed_at = none;
  deleted_at = deleted;
}

abbrev facts : List Fact
facts =
    fact_at (codes "a") (codes "old") (codes "11") none
    ∷ fact_at (codes "b") (codes "new") (codes "12") none
    ∷ fact_at (codes "c") (codes "gone") (codes "13") (some (codes "14"))
    ∷ fact_at (codes "d") (codes "other") (codes "12") none
    ∷ []

ordered :
    map (λ e. e.value) (project clock none facts) ≡ codes "other" ∷ codes "new" ∷ codes "old" ∷ []
unfolding project text_beq text_ltb is_space ends_with
ordered = refl

project-Descending_example :
    Descending (project clock none facts)
    × ((p : FactTimelineEntry → Bool)
        → count_where p (project clock none facts)
          ≡ count_where p
              (map (timeline_entry clock none) (keep (λ fact. not (is_deleted fact)) facts)))
    × ((p : FactTimelineEntry → Bool)
        → ((a b : FactTimelineEntry) → p a ≡ true → p b ≡ true → SameKey a b)
        → keep p (project clock none facts)
          ≡ keep p (map (timeline_entry clock none) (keep (λ fact. not (is_deleted fact)) facts)))
project-Descending_example = project-Descending clock none facts

abbrev entry_of : Text → Text → Text → ℕ → FactTimelineEntry
entry_of id object time at = record {
  fact = fact_at id object time none;
  value = object;
  stored_at = some time;
  author = codes "ann";
  source_conversation_id = none;
  parsed_stored_at = some at;
}

abbrev newest : FactTimelineEntry
newest = entry_of (codes "d") (codes "other") (codes "12") 12

abbrev others : List FactTimelineEntry
others =
    entry_of (codes "b") (codes "new") (codes "12") 12
    ∷ entry_of (codes "a") (codes "old") (codes "11") 11
    ∷ []

descending : Descending (newest ∷ others)
unfolding text_ltb
descending = (by_id refl refl refl, (later 12 11 refl refl (omega arith), tt))

latest_entries-historical_example :
    ((p : FactTimelineEntry → Bool)
      → count_where p (latest_entries clock (newest ∷ others))
          + count_where p (historical_entries clock (newest ∷ others))
        ≡ count_where p (newest ∷ others))
    × In newest (latest_entries clock (newest ∷ others))
    × All (Simultaneous 12) (latest_entries clock (newest ∷ others))
    × All (Older 12) (historical_entries clock (newest ∷ others))
latest_entries-historical_example =
    latest_entries-historical clock newest others 12 (λ m n h. cc h) descending refl

has_latest_conflict-differs_example :
    UniqueBy (λ e. e.value) (unique_latest_entries clock (newest ∷ others))
    × (has_latest_conflict clock (newest ∷ others)
        ≡ any (λ e. not (newest.value == e.value)) (latest_entries clock (newest ∷ others)))
has_latest_conflict-differs_example = has_latest_conflict-differs clock newest others

conflict : has_latest_conflict clock (newest ∷ others) ≡ true
unfolding has_latest_conflict text_beq
conflict = refl

one_latest :
    latest_payload clock others
    ≡ some (agreed (entry_payload (entry_of (codes "b") (codes "new") (codes "12") 12)))
unfolding latest_payload text_beq
one_latest = refl

past : map (λ e. e.value) (historical_entries clock (newest ∷ others)) ≡ codes "old" ∷ []
unfolding historical_entries text_beq
past = refl
