-- ===== src/Context/Select.antt =====
-- memory/ingestion/mvp_ingestion.py: the context of an answer, `_select_ask_context`.
use ai_memory_hub.Base.{
  Text, text_eq, option_eq, int_eq, codes, ℕ, suc, ◌+◌, ◌-◌, Bool, true, false, Option, none, some,
  List, [], ◌∷◌, ◌++◌, is_empty, ltb, eqb, if◌then◌else◌, ℤ, pos, to_ℕ, int_text,
}
use ai_memory_hub.Tokenizer.Matches.{Encoding, count_tokens, truncate_to_tokens}
use ai_memory_hub.Context.Chunks.{Row, Cached, context_text_without_prior_overlap}

pub record Citation (Score : Type 0) : Type 0 where
  pub citation_id : Option Text
  pub citation_chunk_index : ℤ
  pub citation_score : Score
  pub citation_text : Text

-- `selected_row`
abbrev pub with_text : {Score : Type 0} → Row Score → Text → Row Score
with_text row text = record {
  id = row.id;
  chunk_index = row.chunk_index;
  score = row.score;
  text = text;
  index_chunks = row.index_chunks;
}

abbrev pub citation_from_row : {Score : Type 0} → Row Score → Text → Citation Score
citation_from_row row text = record {
  citation_id = row.id;
  citation_chunk_index = row.chunk_index;
  citation_score = row.score;
  citation_text = text;
}

-- The variables of `_select_ask_context`.
pub record Selection (Score : Type 0) : Type 0 where
  pub selected_matches : List (Row Score)
  pub citations : List (Citation Score)
  pub context_lines : List Text
  pub tokens_used : ℕ
  pub chunks_dropped : ℕ
  pub context_truncated : Bool
  pub identity_cache : List Cached

abbrev pub empty_selection : {Score : Type 0} → Selection Score
empty_selection = record {
  selected_matches = [];
  citations = [];
  context_lines = [];
  tokens_used = 0;
  chunks_dropped = 0;
  context_truncated = false;
  identity_cache = [];
}

-- The text of a value in an f-string.
abbrev shown_id : Option Text → Text
shown_id none = codes "None"
shown_id (some id) = id

-- `f"- [{citation_id}#{chunk_index}] "`
unfoldable pub line_prefix : {Score : Type 0} → Row Score → Text
unfolding int_text
line_prefix row =
    codes "- [" ++ shown_id row.id ++ codes "#" ++ int_text row.chunk_index ++ codes "] "

module _ {Score : Type 0} where
  abbrev pub drop_row : Selection Score → Selection Score
  drop_row s = record {
    selected_matches = s.selected_matches;
    citations = s.citations;
    context_lines = s.context_lines;
    tokens_used = s.tokens_used;
    chunks_dropped = suc s.chunks_dropped;
    context_truncated = true;
    identity_cache = s.identity_cache;
  }

  -- The caches are of the state, so a row that is dropped keeps what its identity left there.
  abbrev pub with_cache : List Cached → Selection Score → Selection Score
  with_cache cache s = record {
    selected_matches = s.selected_matches;
    citations = s.citations;
    context_lines = s.context_lines;
    tokens_used = s.tokens_used;
    chunks_dropped = s.chunks_dropped;
    context_truncated = s.context_truncated;
    identity_cache = cache;
  }

  abbrev pub mark_truncated : Selection Score → Selection Score
  mark_truncated s = record {
    selected_matches = s.selected_matches;
    citations = s.citations;
    context_lines = s.context_lines;
    tokens_used = s.tokens_used;
    chunks_dropped = s.chunks_dropped;
    context_truncated = true;
    identity_cache = s.identity_cache;
  }

module _ (is_word : ℕ → Bool) (encoding : Option Encoding) {Score : Type 0} where
  -- What the row adds when `text` is left of it, after the last `continue`.
  unfoldable pub add_row : Row Score → Text → Selection Score → Selection Score
  unfolding count_tokens line_prefix
  add_row row text s = record {
    selected_matches = s.selected_matches ++ with_text row text ∷ [];
    citations = s.citations ++ citation_from_row row text ∷ [];
    context_lines = s.context_lines ++ (line_prefix row ++ text) ∷ [];
    tokens_used =
        s.tokens_used
        + (count_tokens is_word encoding (line_prefix row) + count_tokens is_word encoding text);
    chunks_dropped = s.chunks_dropped;
    context_truncated = s.context_truncated;
    identity_cache = s.identity_cache;
  }

  -- The text after the cut, with the last `continue`.
  unfoldable pub add_unless_empty : Row Score → Text → Selection Score → Selection Score
  unfolding add_row
  add_unless_empty row text s = if is_empty text then drop_row s else add_row row text s

  -- From `text_tokens` on.
  unfoldable pub cut_and_add : ℕ → Row Score → Text → Selection Score → Selection Score
  unfolding add_unless_empty truncate_to_tokens
  cut_and_add remaining row text s =
      if ltb remaining (count_tokens is_word encoding text)
      then add_unless_empty row (truncate_to_tokens is_word encoding text (pos remaining))
          (mark_truncated s)
      else add_unless_empty row text s

module _ (is_alnum is_word : ℕ → Bool) (encoding : Option Encoding) {Score : Type 0} where
  -- A round of the loop. What is left of the budget is not positive where ℕ subtracts to 0, and
  -- a negative budget leaves what 0 leaves.
  unfoldable pub select_row : ℤ → Row Score → Selection Score → Selection Score
  unfolding cut_and_add context_text_without_prior_overlap
  select_row max_context_tokens row s =
      let remaining =
        to_ℕ max_context_tokens - s.tokens_used - count_tokens is_word encoding (line_prefix row) in
      if eqb remaining 0
      then drop_row s
      else let (text, cache) =
          context_text_without_prior_overlap is_alnum is_word row s.selected_matches
            s.identity_cache in
        cut_and_add is_word encoding remaining row text (with_cache cache s)

  unfoldable pub select_from : ℤ → List (Row Score) → Selection Score → Selection Score
  unfolding select_row
  select_from max_context_tokens [] s = s
  select_from max_context_tokens (row ∷ rows) s =
      select_from max_context_tokens rows (select_row max_context_tokens row s)

  unfoldable pub select_ask_context : ℤ → List (Row Score) → Selection Score
  unfolding select_from
  select_ask_context max_context_tokens matches =
      select_from max_context_tokens matches empty_selection
