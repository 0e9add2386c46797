-- ===== src/Facts/Entries.antt =====
-- memory/ingestion/fact_timeline.py: the entry of a fact. A value of a fact or of a memory is its
-- text, none where the key is missing or None; the two differ for an id. `datetime.fromisoformat` and `isoformat` are
-- parameters.
use ai_memory_hub.Base.{
  Field, Text, text_eq, codes, ℕ, ◌-◌, Option, none, some, [], ◌∷◌, ◌++◌, length, take, is_empty,
  if◌then◌else◌, strip, ends_with,
}

-- A time is the number of microseconds from `datetime.min` in UTC; a text without a zone is UTC.
pub record Clock : Type 0 where
  pub from_isoformat : Text → Option ℕ
  pub isoformat : ℕ → Text

pub record Fact : Type 0 where
  pub id : Field
  pub subject : Option Text
  pub predicate : Option Text
  pub object : Option Text
  pub object_raw : Option Text
  pub object_normalized : Option Text
  pub source_conversation_id : Option Text
  pub stored_at : Option Text
  pub author : Option Text
  pub created_at : Option Text
  pub updated_at : Option Text
  pub last_confirmed_at : Option Text
  pub deleted_at : Option Text

pub record Memory : Type 0 where
  pub source : Option Text
  pub timestamp : Option Text

abbrev pub unknown_author : Text
unknown_author = codes "unknown"

-- `text or None`
abbrev nonempty : Text → Option Text
nonempty [] = none
nonempty (c ∷ s) = some (c ∷ s)

unfoldable pub optional_text : Option Text → Option Text
unfolding strip
optional_text none = none
optional_text (some value) = nonempty (strip value)

-- `a or b`, where neither is an empty text.
abbrev pub or_else : Option Text → Option Text → Option Text
or_else none b = b
or_else (some a) b = some a

abbrev pub or_text : Option Text → Text → Text
or_text none b = b
or_text (some a) b = a

abbrev of_memory : (Memory → Option Text) → Option Memory → Option Text
of_memory field none = none
of_memory field (some memory) = field memory

unfoldable pub source_memory_timestamp : Option Memory → Option Text
unfolding optional_text
source_memory_timestamp memory = optional_text (of_memory (λ m. m.timestamp) memory)

unfoldable pub source_memory_author : Option Memory → Option Text
unfolding optional_text
source_memory_author memory = optional_text (of_memory (λ m. m.source) memory)

unfoldable pub fact_timestamp : Fact → Option Text
unfolding optional_text
fact_timestamp fact =
    or_else (optional_text fact.last_confirmed_at)
      (or_else (optional_text fact.updated_at) (optional_text fact.created_at))

unfoldable pub fact_value : Fact → Text
unfolding optional_text
fact_value fact =
    or_text
      (or_else (optional_text fact.object_normalized)
        (or_else (optional_text fact.object) (optional_text fact.object_raw)))
      []

-- What `temporal_fact_source_metadata` returns.
pub record Temporal : Type 0 where
  pub stored_at : Option Text
  pub author : Text

unfoldable pub temporal_fact_source_metadata : Fact → Option Memory → Temporal
unfolding source_memory_timestamp source_memory_author fact_timestamp
temporal_fact_source_metadata fact memory = record {
  stored_at =
      or_else (source_memory_timestamp memory)
        (or_else (optional_text fact.stored_at) (fact_timestamp fact));
  author =
      or_text (or_else (source_memory_author memory) (optional_text fact.author)) unknown_author;
}

-- `text[:-1] + "+00:00" if text.endswith("Z") else text`
unfoldable pub normalized_zone : Text → Text
normalized_zone text =
    if ends_with text (codes "Z") then take (length text - 1) text ++ codes "+00:00" else text

unfoldable pub parse_memory_timestamp : Clock → Option Text → Option ℕ
unfolding optional_text normalized_zone
parse_memory_timestamp clock value = elim (optional_text value) [
  | none ↦ none
  | some text ↦ clock.from_isoformat (normalized_zone text)
]

pub record FactTimelineEntry : Type 0 where
  pub fact : Fact
  pub value : Text
  pub stored_at : Option Text
  pub author : Text
  pub source_conversation_id : Option Text
  pub parsed_stored_at : Option ℕ

-- `_source_memory`, with the lookup of the projector.
unfoldable pub source_memory : Option (Text → Option Memory) → Option Text → Option Memory
source_memory (some lookup) (some id) = lookup id
source_memory _ _ = none

-- `_entry`
unfoldable pub timeline_entry : Clock → Option (Text → Option Memory) → Fact → FactTimelineEntry
unfolding temporal_fact_source_metadata fact_value parse_memory_timestamp source_memory
timeline_entry clock lookup fact =
    let source = optional_text fact.source_conversation_id in
    let temporal = temporal_fact_source_metadata fact (source_memory lookup source) in
    let stored = optional_text temporal.stored_at in
    let enriched : Fact = record fact {
      stored_at = temporal.stored_at;
      author = some temporal.author;
    } in
    record {
      fact = enriched;
      value = fact_value enriched;
      stored_at = stored;
      author = if is_empty temporal.author then unknown_author else temporal.author;
      source_conversation_id = source;
      parsed_stored_at = parse_memory_timestamp clock stored;
    }
