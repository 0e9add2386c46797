-- ===== src/Context/Examples.antt =====
-- Runs of the context of an answer, and the properties at concrete texts.
use ai_memory_hub.Base.{
  arith, ℤ, adjacent, at_least, true, false, ℕ, ◌≤◌, ◌≡◌, ◌⊎◌, refl, Bool, ◌&&◌, ◌||◌, Option, none,
  some, List, [], ◌∷◌, leb, codes, pos, to_ℕ, strip, rstrip, lstrip, is_space, int_text, decimal,
  text_beq,
}
use ai_memory_hub.Context.Overlap.{
  longest_exact_edge_overlap, accepted, matched_length, prefix_lengths, prefix_lengths_from,
  matched_from, advance, fall, matches, entry, splits_left_token, splits_right_token, holds_at,
}
use ai_memory_hub.Context.Matched.{longest_by_trial, longest_exact_edge_overlap-by_trial}
use ai_memory_hub.Context.Select.{select_ask_context}
use ai_memory_hub.Context.Chunks.{Row, ManifestChunk, Identity, trim_against}
use ai_memory_hub.Context.Fuel.{goes_on, fall-ends}
use ai_memory_hub.Context.Trim.{Continues, Precedes, trim_against-shared}
use ai_memory_hub.Context.Budget.{select_ask_context-in_budget}
use ai_memory_hub.Context.Books.{Booked, select_ask_context-Booked}

-- The letters and digits of ASCII.
abbrev is_letter : ℕ → Bool
is_letter c = leb 97 c && leb c 122 || leb 48 c && leb c 57

-- The table of "abab ab" and the overlap of two windows.
table : prefix_lengths (codes "abab ab") ≡ 0 ∷ 0 ∷ 1 ∷ 2 ∷ 0 ∷ 1 ∷ 2 ∷ []
unfolding prefix_lengths prefix_lengths_from advance fall matches entry
table = refl

windows :
    longest_exact_edge_overlap is_letter is_letter
      (codes "one two two three")
      (codes "two three four")
    ≡ 9
unfolding longest_exact_edge_overlap accepted matched_length prefix_lengths prefix_lengths_from
    matched_from advance fall matches entry splits_left_token splits_right_token holds_at strip
    rstrip lstrip is_space
windows = refl

split_word : longest_exact_edge_overlap is_letter is_letter (codes "a cat") (codes "cats") ≡ 0
unfolding longest_exact_edge_overlap accepted matched_length prefix_lengths prefix_lengths_from
    matched_from advance fall matches entry splits_left_token splits_right_token holds_at strip
    rstrip lstrip is_space
split_word = refl

longest_exact_edge_overlap-by_trial_example :
    longest_exact_edge_overlap is_letter is_letter (codes "one two") (codes "two three")
    ≡ accepted is_letter is_letter
        (codes "one two")
        (codes "two three")
        (longest_by_trial (codes "one two") (codes "two three") 7)
longest_exact_edge_overlap-by_trial_example =
    longest_exact_edge_overlap-by_trial is_letter is_letter (codes "one two") (codes "two three")

fall-ends_example :
    (goes_on (codes "abab") 99 (fall (codes "abab") (prefix_lengths (codes "abab")) 99 5 3) ≡ false)
    × (fall (codes "abab") (prefix_lengths (codes "abab")) 99 5 3 ≤ 3)
    × (fall (codes "abab") (prefix_lengths (codes "abab")) 99 5 3
        ≡ fall (codes "abab") (prefix_lengths (codes "abab")) 99 3 3)
fall-ends_example = fall-ends (codes "abab") 99 5 3 (omega arith) (omega arith) (omega arith)

abbrev window : ℤ → Identity
window i = record { memory_id = codes "m"; index = i; hash = codes "h"; window = some i }

trim_against-shared_example :
    (trim_against is_letter is_letter
        (window (pos 1))
        (window (pos 0))
        (codes "one two")
        (codes "two three")
      ≡ codes "two three")
    ⊎ ((codes "m" ≡ codes "m")
        × (codes "h" ≡ codes "h")
        × (adjacent (pos 1) (pos 0) ≡ true)
        × ((at_least (pos 0) (pos 1) ≡ false)
              × Continues (codes "one two") (codes "two three") (
                  trim_against is_letter is_letter
                    (window (pos 1))
                    (window (pos 0))
                    (codes "one two")
                    (codes "two three"))
            ⊎ (at_least (pos 0) (pos 1) ≡ true)
              × Precedes (codes "one two") (codes "two three") (
                  trim_against is_letter is_letter
                    (window (pos 1))
                    (window (pos 0))
                    (codes "one two")
                    (codes "two three"))))
trim_against-shared_example =
    trim_against-shared is_letter is_letter (window (pos 1)) (window (pos 0)) (codes "one two")
      (codes "two three")

abbrev chunks : List (Option ManifestChunk)
chunks =
    some (record {
      manifest_index = pos 0;
      message_hash = codes "h";
      token_window_index = some (pos 0);
    })
    ∷ some (record {
      manifest_index = pos 1;
      message_hash = codes "h";
      token_window_index = some (pos 1);
    })
    ∷ []

-- Two windows of one message, with scores that are numbers.
abbrev rows : List (Row ℕ)
rows =
    record {
      id = some (codes "m");
      chunk_index = pos 0;
      score = 9;
      text = codes "one two";
      index_chunks = some chunks;
    }
    ∷ record {
      id = some (codes "m");
      chunk_index = pos 1;
      score = 8;
      text = codes "two three";
      index_chunks = some chunks;
    }
    ∷ []

select_ask_context-in_budget_example :
    (select_ask_context is_letter is_letter none (pos 16) rows).tokens_used ≤ to_ℕ (pos 16)
select_ask_context-in_budget_example =
    select_ask_context-in_budget is_letter is_letter (pos 16) rows

select_ask_context-Booked_example :
    Booked is_letter none 2 (select_ask_context is_letter is_letter none (pos 16) rows)
select_ask_context-Booked_example = select_ask_context-Booked is_letter is_letter none (pos 16) rows

second_trimmed :
    (select_ask_context is_letter is_letter none (pos 16) rows).context_lines
    ≡ codes "- [m#0] one two" ∷ codes "- [m#1] three" ∷ []
unfolding select_ask_context int_text decimal longest_exact_edge_overlap matches entry is_space
    rstrip lstrip strip text_beq
second_trimmed = refl
