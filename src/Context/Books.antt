-- ===== src/Context/Books.antt =====
-- The books that `_select_ask_context` of memory/ingestion/mvp_ingestion.py keeps.
use ai_memory_hub.Base.{
  Text, ℕ, suc, ◌+◌, ◌≡◌, refl, sym, ap, ◌∙◌, arith, Bool, false, Option, List, [], ◌∷◌, ◌++◌,
  length, map, is_empty, ltb, Bool-cases, inl, inr, ℤ, pos, All, All-append, length-append,
  false≢true,
}
use mathlib.Core.List.{map-append}
use ai_memory_hub.Tokenizer.Matches.{Encoding, count_tokens, truncate_to_tokens}
use ai_memory_hub.Context.Select.{
  with_text, citation_from_row, Selection, empty_selection, line_prefix, add_row, drop_row,
  with_cache, mark_truncated, add_unless_empty, cut_and_add, select_ask_context,
}
use ai_memory_hub.Context.Chunks.{Row, Cached}
use ai_memory_hub.Context.Rounds.{select_from_inv, select_row_cases, remaining}

abbrev line_of : {Score : Type 0} → Row Score → Text
line_of row = line_prefix row ++ row.text

module _ (is_word : ℕ → Bool) (encoding : Option Encoding) {Score : Type 0} where
  -- The tokens of the lines, each counted as its prefix and its text.
  abbrev pub total_tokens : List (Row Score) → ℕ
  total_tokens [] = 0
  total_tokens (row ∷ rows) =
      count_tokens is_word encoding (line_prefix row)
      + count_tokens is_word encoding row.text
      + total_tokens rows

  total_tokens-snoc :
      (rows : List (Row Score)) (row : Row Score)
      → total_tokens (rows ++ row ∷ [])
        ≡ total_tokens rows
          + (count_tokens is_word encoding (line_prefix row)
              + count_tokens is_word encoding row.text)
  total_tokens-snoc [] row = omega arith
  total_tokens-snoc (r ∷ rows) row = omega (arith, total_tokens-snoc rows row)

  -- The books after `rounds` rows.
  pub record Booked (rounds : ℕ) (s : Selection Score) : Type 0 where
    pub lines : s.context_lines ≡ map line_of s.selected_matches
    pub cited : s.citations ≡ map (λ row. citation_from_row row row.text) s.selected_matches
    pub counted : s.tokens_used ≡ total_tokens s.selected_matches
    pub all_rows : length s.selected_matches + s.chunks_dropped ≡ rounds
    pub texts : All (λ row. is_empty row.text ≡ false) s.selected_matches
    pub complete : s.context_truncated ≡ false → s.chunks_dropped ≡ 0

  drop_row-Booked : (n : ℕ) (s : Selection Score) → Booked n s → Booked (suc n) (drop_row s)
  drop_row-Booked n s b = record {
    lines = b.lines;
    cited = b.cited;
    counted = b.counted;
    all_rows = omega (arith, b.all_rows);
    texts = b.texts;
    complete = λ h. absurd (false≢true (sym h));
  }

  with_cache-Booked :
      (n : ℕ) (cache : List Cached) (s : Selection Score)
      → Booked n s
      → Booked n (with_cache cache s)
  with_cache-Booked n cache s b = record {
    lines = b.lines;
    cited = b.cited;
    counted = b.counted;
    all_rows = b.all_rows;
    texts = b.texts;
    complete = b.complete;
  }

  mark_truncated-Booked : (n : ℕ) (s : Selection Score) → Booked n s → Booked n (mark_truncated s)
  mark_truncated-Booked n s b = record {
    lines = b.lines;
    cited = b.cited;
    counted = b.counted;
    all_rows = b.all_rows;
    texts = b.texts;
    complete = λ h. absurd (false≢true (sym h));
  }

  add_row-Booked :
      (n : ℕ) (row : Row Score) (text : Text) (s : Selection Score)
      → is_empty text ≡ false
      → Booked n s
      → Booked (suc n) (add_row is_word encoding row text s)
  unfolding add_row
  add_row-Booked n row text s h b = record {
    lines =
        ap (λ l. l ++ line_of (with_text row text) ∷ []) b.lines
        ∙ sym (map-append line_of s.selected_matches (with_text row text ∷ []));
    cited =
        ap (λ l. l ++ citation_from_row row text ∷ []) b.cited
        ∙ sym (
            map-append (λ r. citation_from_row r r.text) s.selected_matches
              (with_text row text ∷ []));
    counted = omega (arith, b.counted, total_tokens-snoc s.selected_matches (with_text row text));
    all_rows =
        omega (arith, b.all_rows, length-append s.selected_matches (with_text row text ∷ []));
    texts =
        All-append (λ r. is_empty r.text ≡ false) s.selected_matches (with_text row text ∷ [])
          b.texts (h, tt);
    complete = b.complete;
  }

  add_unless_empty-Booked :
      (n : ℕ) (row : Row Score) (text : Text) (s : Selection Score)
      → Booked n s
      → Booked (suc n) (add_unless_empty is_word encoding row text s)
  unfolding add_unless_empty
  add_unless_empty-Booked n row text s b = elim (Bool-cases (is_empty text)) [
    | inl e ↦ rw e (drop_row-Booked n s b)
    | inr e ↦ rw e (add_row-Booked n row text s e b)
  ]

  cut_and_add-Booked :
      (n remaining : ℕ) (row : Row Score) (text : Text) (s : Selection Score)
      → Booked n s
      → Booked (suc n) (cut_and_add is_word encoding remaining row text s)
  unfolding cut_and_add
  cut_and_add-Booked n remaining row text s b =
      elim (Bool-cases (ltb remaining (count_tokens is_word encoding text))) [
        | inl e ↦ rw e (
            add_unless_empty-Booked n row (truncate_to_tokens is_word encoding text (pos remaining))
              (mark_truncated s) (mark_truncated-Booked n s b))
        | inr e ↦ rw e (add_unless_empty-Booked n row text s b)
      ]

-- Every retrieved row is selected or counted as dropped, the lines and the citations are those of
-- the selected rows in their order, `tokens_used` is the sum of the tokens of their prefixes and
-- texts, no selected text is empty, and a selection that is not marked truncated has dropped no row.
pub select_ask_context-Booked :
    (is_alnum is_word : ℕ → Bool) (encoding : Option Encoding) {Score : Type 0} (budget : ℤ)
    (rows : List (Row Score))
    → Booked is_word encoding
        (length rows)
        (select_ask_context is_alnum is_word encoding budget rows)
unfolding select_ask_context
select_ask_context-Booked is_alnum is_word encoding budget rows =
    select_from_inv is_alnum is_word encoding budget (Booked is_word encoding)
      (λ n row s b.
        select_row_cases is_alnum is_word encoding budget (Booked is_word encoding (suc n)) row s
          (drop_row-Booked is_word encoding n s b)
          λ text cache _.
            cut_and_add-Booked is_word encoding n (remaining is_alnum is_word encoding budget row s)
              row text (with_cache cache s) (with_cache-Booked is_word encoding n cache s b))
      rows 0 (length rows) empty_selection (omega arith)
      (record {
        lines = refl;
        cited = refl;
        counted = refl;
        all_rows = omega arith;
        texts = tt;
        complete = λ _. refl;
      })
