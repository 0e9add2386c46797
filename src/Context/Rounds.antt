-- ===== src/Context/Rounds.antt =====
-- The rounds of `_select_ask_context` in memory/ingestion/mvp_ingestion.py.
use ai_memory_hub.Base.{
  Text, ℕ, suc, ◌+◌, ◌-◌, ◌≤◌, ◌≡◌, arith, Bool, Option, List, [], ◌∷◌, length, eqb, Bool-cases,
  inl, inr, ℤ, to_ℕ,
}
use ai_memory_hub.Tokenizer.Matches.{Encoding, count_tokens}
use ai_memory_hub.Context.Select.{
  Selection, line_prefix, drop_row, with_cache, cut_and_add, select_row, select_from,
}
use ai_memory_hub.Context.Chunks.{Row, Cached, context_text_without_prior_overlap}

module _ (is_alnum is_word : ℕ → Bool) (encoding : Option Encoding) {Score : Type 0}
    (budget : ℤ) where
  -- What each round keeps holds at the end, with the rounds counted.
  pub select_from_inv :
      (P : ℕ → Selection Score → Type 0)
      → ((n : ℕ) (row : Row Score) (s : Selection Score)
          → P n s
          → P (suc n) (select_row is_alnum is_word encoding budget row s))
      → (rows : List (Row Score)) (n m : ℕ) (s : Selection Score) → n + length rows ≡ m
      → P n s
      → P m (select_from is_alnum is_word encoding budget rows s)
  unfolding select_from
  select_from_inv P keep [] n m s e h = let same : n ≡ m = omega arith in rw (← same) h
  select_from_inv P keep (row ∷ rows) n m s e h =
      select_from_inv P keep rows (suc n) m (select_row is_alnum is_word encoding budget row s)
        (omega arith) (keep n row s h)

  unfoldable pub remaining : Row Score → Selection Score → ℕ
  remaining row s = to_ℕ budget - s.tokens_used - count_tokens is_word encoding (line_prefix row)

  -- The rows that a round drops without a look at the text, and the others.
  pub select_row_cases :
      (P : Selection Score → Type 0) (row : Row Score) (s : Selection Score)
      → P (drop_row s)
      → ((text : Text) (cache : List Cached)
          → 1 ≤ remaining row s
          → P (cut_and_add is_word encoding (remaining row s) row text (with_cache cache s)))
      → P (select_row is_alnum is_word encoding budget row s)
  unfolding select_row remaining
  select_row_cases P row s dropped tried = elim (Bool-cases (eqb (remaining row s) 0)) [
    | inl e ↦ rw e dropped
    | inr e ↦
        let (text, cache) =
          context_text_without_prior_overlap is_alnum is_word row s.selected_matches
            s.identity_cache in
        rw e (tried text cache (ground (arith, e)))
  ]
