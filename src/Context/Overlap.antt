-- ===== src/Context/Overlap.antt =====
-- memory/ingestion/mvp_ingestion.py: the overlap of two texts, `_longest_exact_edge_overlap`.
-- A `for` over a text is recursion on the characters left, and the inner `while` has the matched
-- length as its fuel.
use ai_memory_hub.Base.{
  Text, ℕ, zero, suc, ◌-◌, Bool, true, false, ◌&&◌, not, none, some, List, [], ◌∷◌, length,
  get_elem?, set, replicate, take, drop, is_empty, any, nonzero, ltb, eqb, nat_eq, option_eq, ◌==◌,
  if◌then◌else◌, strip,
}

-- `prefix_lengths[index]`
unfoldable pub entry : List ℕ → ℕ → ℕ
entry [] i = 0
entry (m ∷ ms) zero = m
entry (m ∷ ms) (suc i) = entry ms i

-- `character == right[matched]`
unfoldable pub matches : Text → ℕ → ℕ → Bool
matches right character matched = get_elem? right matched == some character

-- The inner `while`.
unfoldable pub fall : Text → List ℕ → ℕ → ℕ → ℕ → ℕ
fall right table character zero matched = matched
fall right table character (suc fuel) matched =
    elim (nonzero matched && not (matches right character matched)) [
      | true ↦ fall right table character fuel (entry table (matched - 1))
      | false ↦ matched
    ]

-- The inner `while` and the `matched += 1` that both loops have.
unfoldable pub advance : Text → List ℕ → ℕ → ℕ → ℕ
unfolding fall
advance right table character matched =
    let shorter = fall right table character matched matched in
    if matches right character shorter then suc shorter else shorter

-- The first loop, on the characters `right[index:]`.
unfoldable pub prefix_lengths_from : Text → Text → ℕ → ℕ → List ℕ → List ℕ
unfolding advance
prefix_lengths_from right [] index matched table = table
prefix_lengths_from right (character ∷ rest) index matched table =
    let shorter = fall right table character matched matched in
    elim (matches right character shorter) [
      | true ↦
          prefix_lengths_from right rest (suc index) (suc shorter) (set table index (suc shorter))
      | false ↦ prefix_lengths_from right rest (suc index) shorter table
    ]

unfoldable pub prefix_lengths : Text → List ℕ
unfolding prefix_lengths_from
prefix_lengths right = prefix_lengths_from right (drop 1 right) 1 0 (replicate (length right) 0)

-- The second loop, on the characters `left[index:]`.
unfoldable pub matched_from : Text → List ℕ → ℕ → Text → ℕ → ℕ → ℕ
unfolding advance
matched_from right table total [] index matched = matched
matched_from right table total (character ∷ rest) index matched =
    let longer = advance right table character matched in
    matched_from right table total rest (suc index) (
      if eqb longer (length right) && not (eqb index (total - 1))
      then entry table (longer - 1)
      else longer)

unfoldable pub matched_length : Text → Text → ℕ
unfolding prefix_lengths matched_from
matched_length left right = matched_from right (prefix_lengths right) (length left) left 0 0

-- `text[i].isalnum()`, for an index in range.
unfoldable pub holds_at : (ℕ → Bool) → Text → ℕ → Bool
holds_at p s i = elim (get_elem? s i) [ none ↦ false | some c ↦ p c ]

unfoldable pub splits_left_token : (ℕ → Bool) → Text → ℕ → Bool
unfolding holds_at
splits_left_token is_alnum left matched =
    let left_start = length left - matched in
    ltb 0 matched
    && ltb 0 left_start
    && holds_at is_alnum left (left_start - 1)
    && holds_at is_alnum left left_start

unfoldable pub splits_right_token : (ℕ → Bool) → Text → ℕ → Bool
unfolding holds_at
splits_right_token is_alnum right matched =
    ltb 0 matched
    && ltb matched (length right)
    && holds_at is_alnum right (matched - 1)
    && holds_at is_alnum right matched

-- The final `return`. `is_alnum` is `str.isalnum` and `is_word` the class `\w`, of one character.
unfoldable pub accepted : (ℕ → Bool) → (ℕ → Bool) → Text → Text → ℕ → ℕ
unfolding splits_left_token splits_right_token strip
accepted is_alnum is_word left right matched =
    let overlap = take matched right in
    if not (is_empty (strip overlap))
      && any is_word overlap
      && not (splits_left_token is_alnum left matched)
      && not (splits_right_token is_alnum right matched)
    then matched
    else 0

unfoldable pub longest_exact_edge_overlap : (ℕ → Bool) → (ℕ → Bool) → Text → Text → ℕ
unfolding matched_length accepted
longest_exact_edge_overlap is_alnum is_word [] right = 0
longest_exact_edge_overlap is_alnum is_word left [] = 0
longest_exact_edge_overlap is_alnum is_word left right =
    accepted is_alnum is_word left right (matched_length left right)
