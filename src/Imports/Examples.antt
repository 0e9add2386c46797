-- ===== src/Imports/Examples.antt =====
-- Runs of the import outcomes, and the property at concrete receipts.
use ai_memory_hub.Base.{
  Text, text_beq, codes, ◌≡◌, refl, true, false, none, some, List, [], ◌∷◌, pos,
}
use ai_memory_hub.Imports.{
  IngestionResult, integer, ingestion_receipt, no_counts, import_counts, outcome_error,
}
use ai_memory_hub.Imports.Tally.{Tallied, import_counts-Tallied}

abbrev appended_two : IngestionResult
appended_two = record {
  id = some (codes "m");
  status = none;
  stale = false;
  deduplicated = true;
  appended_messages = integer (pos 2);
}

appended_wins : (ingestion_receipt 0 appended_two).appended ≡ some 2
unfolding ingestion_receipt text_beq
appended_wins = refl

abbrev statuses : List Text
statuses = codes "inserted" ∷ codes "queued" ∷ outcome_error ∷ codes "inserted" ∷ []

import_counts-Tallied_example : Tallied statuses no_counts (import_counts statuses)
import_counts-Tallied_example = import_counts-Tallied statuses

counted_twice : (import_counts statuses).inserted ≡ 2
unfolding import_counts text_beq
counted_twice = refl
