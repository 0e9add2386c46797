-- ===== src/Imports.antt =====
-- memory/import_outcomes.py
use ai_memory_hub.Base.{
  Text, text_eq, codes, ℕ, suc, ℤ, to_ℕ, Bool, true, false, ◌||◌, not, Option, none, some, List, [],
  ◌∷◌, ◌==◌, if◌then◌else◌, ltb, starts_with,
}
pub mod Tally
pub mod Examples

-- The values of `ImportOutcome`.
abbrev pub outcome_inserted : Text
outcome_inserted = codes "inserted"

abbrev pub outcome_deduplicated : Text
outcome_deduplicated = codes "deduplicated"

abbrev pub outcome_appended : Text
outcome_appended = codes "appended"

abbrev pub outcome_stale : Text
outcome_stale = codes "stale"

abbrev pub outcome_conflict : Text
outcome_conflict = codes "conflict"

abbrev pub outcome_error : Text
outcome_error = codes "error"

-- What `_nonnegative_int` is given: a truth value, what `int()` reads as an integer, or a value that
-- it refuses, as None is.
pub data Appended : Type 0 where
  boolean : Bool → Appended
  integer : ℤ → Appended
  unreadable : Appended

unfoldable pub nonnegative_int : Appended → ℕ
nonnegative_int (boolean b) = 0
nonnegative_int (integer z) = to_ℕ z
nonnegative_int unreadable = 0

-- What the functions read of the result of an ingestion.
pub record IngestionResult : Type 0 where
  pub id : Option Text
  pub status : Option Text
  pub stale : Bool
  pub deduplicated : Bool
  pub appended_messages : Appended

-- `str(result.get("status") or "ok")`
abbrev pub status_of : Option Text → Text
status_of none = codes "ok"
status_of (some []) = codes "ok"
status_of (some (c ∷ s)) = c ∷ s

unfoldable pub classify_ingestion_result : IngestionResult → Text
unfolding nonnegative_int
classify_ingestion_result result =
    if not (status_of result.status == codes "ok")
    then status_of result.status
    else if result.stale
    then outcome_stale
    else if ltb 0 (nonnegative_int result.appended_messages)
    then outcome_appended
    else if result.deduplicated
    then outcome_deduplicated
    else outcome_inserted

-- A receipt; `appended_messages` is none where the key is not set.
pub record Receipt : Type 0 where
  pub index : ℕ
  pub receipt_id : Option Text
  pub receipt_status : Text
  pub is_deduplicated : Bool
  pub appended : Option ℕ

unfoldable pub ingestion_receipt : ℕ → IngestionResult → Receipt
unfolding classify_ingestion_result
ingestion_receipt index result =
    let outcome = classify_ingestion_result result in
    record {
      index = index;
      receipt_id = result.id;
      receipt_status = outcome;
      is_deduplicated = outcome == outcome_deduplicated;
      appended =
          if outcome == outcome_appended
          then some (nonnegative_int result.appended_messages)
          else none;
    }

pub record ConflictReceipt : Type 0 where
  pub conflict_index : ℕ
  pub conflict_status : Text
  pub error_code : Text
  pub retryable : Bool

unfoldable pub conflict_receipt : ℕ → Bool → ConflictReceipt
conflict_receipt index retryable = record {
  conflict_index = index;
  conflict_status = outcome_conflict;
  error_code = if retryable then codes "concurrent_append_conflict" else codes "duplicate_conflict";
  retryable = retryable;
}

pub record Counts : Type 0 where
  pub processed : ℕ
  pub inserted : ℕ
  pub deduplicated : ℕ
  pub appended : ℕ
  pub stale : ℕ
  pub conflicted : ℕ
  pub failed : ℕ

abbrev pub no_counts : Counts
no_counts = record {
  processed = 0;
  inserted = 0;
  deduplicated = 0;
  appended = 0;
  stale = 0;
  conflicted = 0;
  failed = 0;
}

-- The branches of the loop, after `processed` is counted.
unfoldable pub count_status : Text → Counts → Counts
count_status status c =
    if status == outcome_inserted
    then record c { inserted = suc c.inserted }
    else if status == outcome_deduplicated
    then record c { deduplicated = suc c.deduplicated }
    else if status == outcome_appended
    then record c { appended = suc c.appended }
    else if status == outcome_stale
    then record c { stale = suc c.stale }
    else if status == outcome_conflict
    then record c { conflicted = suc c.conflicted }
    else if status == outcome_error
    then record c { failed = suc c.failed }
    else c

-- The loop, on the statuses of the receipts.
unfoldable pub count_from : List Text → Counts → Counts
unfolding count_status
count_from [] c = c
count_from (status ∷ statuses) c =
    count_from statuses (count_status status (record c { processed = suc c.processed }))

unfoldable pub import_counts : List Text → Counts
unfolding count_from
import_counts statuses = count_from statuses no_counts

-- The argument is `str(exc)`.
unfoldable pub is_conflict_error : Text → Bool
unfolding starts_with
is_conflict_error message =
    starts_with message (codes "duplicate_conflict")
    || starts_with message (codes "concurrent_append_conflict")

unfoldable pub is_retryable_conflict : Text → Bool
unfolding starts_with
is_retryable_conflict message = starts_with message (codes "concurrent_append_conflict")
