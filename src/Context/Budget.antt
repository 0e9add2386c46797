-- ===== src/Context/Budget.antt =====
-- `_select_ask_context` of memory/ingestion/mvp_ingestion.py against its budget.
use ai_memory_hub.Base.{
  Text, ℕ, ◌+◌, ◌-◌, ◌≤◌, ◌≡◌, refl, arith, Bool, none, List, length, is_empty, ltb, Bool-cases,
  inl, inr, ℤ, pos, to_ℕ,
}
use ai_memory_hub.Tokenizer.Matches.{count_tokens, truncate_to_tokens}
use ai_memory_hub.Tokenizer.Truncation.{truncate_to_tokens-at_most}
use ai_memory_hub.Context.Select.{
  Selection, empty_selection, line_prefix, add_row, with_cache, mark_truncated, add_unless_empty,
  cut_and_add, select_ask_context,
}
use ai_memory_hub.Context.Chunks.{Row}
use ai_memory_hub.Context.Rounds.{select_from_inv, select_row_cases, remaining}

module _ (is_word : ℕ → Bool) {Score : Type 0} where
  add_unless_empty-in_budget :
      (limit : ℕ) (row : Row Score) (text : Text) (s : Selection Score)
      → s.tokens_used
          + (count_tokens is_word none (line_prefix row) + count_tokens is_word none text)
        ≤ limit
      → (add_unless_empty is_word none row text s).tokens_used ≤ limit
  unfolding add_unless_empty
  add_unless_empty-in_budget limit row text s h = elim (Bool-cases (is_empty text)) [
    | inl e ↦ rw e (omega (arith, h))
    | inr e ↦ rw (e, add_row) h
  ]

  cut_and_add-in_budget :
      (limit left : ℕ) (row : Row Score) (text : Text) (s : Selection Score)
      → s.tokens_used + (count_tokens is_word none (line_prefix row) + left) ≤ limit
      → (cut_and_add is_word none left row text s).tokens_used ≤ limit
  unfolding cut_and_add
  cut_and_add-in_budget limit left row text s h =
      elim (Bool-cases (ltb left (count_tokens is_word none text))) [
        | inl e ↦
            let cut = truncate_to_tokens is_word none text (pos left) in
            let small = (truncate_to_tokens-at_most is_word text left).0 in
            rw e (
              add_unless_empty-in_budget limit row cut (mark_truncated s) (omega (arith, h, small)))
        | inr e ↦ rw e (add_unless_empty-in_budget limit row text s (ground (arith, h, e)))
      ]

-- Without an encoding, the tokens used are at most the budget, whatever the retrieved rows are; of a
-- negative budget nothing is used.
pub select_ask_context-in_budget :
    (is_alnum is_word : ℕ → Bool) {Score : Type 0} (budget : ℤ) (rows : List (Row Score))
    → (select_ask_context is_alnum is_word none budget rows).tokens_used ≤ to_ℕ budget
unfolding select_ask_context remaining
select_ask_context-in_budget is_alnum is_word budget rows =
    select_from_inv is_alnum is_word none budget (λ _ s. s.tokens_used ≤ to_ℕ budget)
      (λ n row s b.
        select_row_cases is_alnum is_word none budget (λ t. t.tokens_used ≤ to_ℕ budget) row s b
          λ text cache some_left.
            cut_and_add-in_budget is_word (to_ℕ budget)
              (remaining is_alnum is_word none budget row s) row text (with_cache cache s)
              (fits (to_ℕ budget) s.tokens_used _ _ refl b some_left))
      rows 0 (length rows) empty_selection (omega arith) (omega arith)
  where
    fits :
        (limit used prefix left : ℕ)
        → left ≡ limit - used - prefix
        → used ≤ limit
        → 1 ≤ left
        → used + (prefix + left) ≤ limit
    fits limit used prefix left e h k = omega (arith, e, h, k)
