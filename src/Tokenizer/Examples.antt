-- ===== src/Tokenizer/Examples.antt =====
-- Runs of memory/ingestion/tokenizer.py, and the theorems at concrete inputs.
use ai_memory_hub.Base.{
  Text, ℕ, ◌≡◌, refl, pos, codes, Bool, ◌||◌, leb, ◌&&◌, none, [], ◌∷◌, ok, is_space, strip, lstrip,
  rstrip,
}
use ai_memory_hub.Tokenizer.Matches.{Encoding, fallback_token_matches, matches_from}
use ai_memory_hub.Base.{◌≤◌, ◌++◌}
use ai_memory_hub.Tokenizer.Matches.{count_tokens, truncate_to_tokens}
use ai_memory_hub.Tokenizer.Truncation.{truncate_to_tokens-at_most}
use ai_memory_hub.Tokenizer.Windows.{split_token_windows, match_window, windows_of, windows_from}

-- The letters and digits of ASCII.
abbrev is_alnum : ℕ → Bool
is_alnum c = leb 97 c && leb c 122 || leb 48 c && leb c 57

-- One token for each code point.
abbrev by_char : Encoding
by_char = record { encode = λ t. t; decode = λ t. t }

words :
    split_token_windows is_alnum none (codes "ab c, de f") (pos 2) (pos 1)
    ≡ ok (codes "ab c" ∷ codes "c," ∷ codes ", de" ∷ codes "de f" ∷ [])
unfolding split_token_windows windows_of windows_from match_window fallback_token_matches
    matches_from is_space strip lstrip rstrip
words = refl

truncate_to_tokens-at_most_example :
    (count_tokens is_alnum none (truncate_to_tokens is_alnum none (codes "ab c, de f") (pos 3)) ≤ 3)
    × (rest : Text) × (codes "ab c, de f"
        ≡ truncate_to_tokens is_alnum none (codes "ab c, de f") (pos 3) ++ rest)
truncate_to_tokens-at_most_example = truncate_to_tokens-at_most is_alnum (codes "ab c, de f") 3

truncated : truncate_to_tokens is_alnum none (codes "ab c, de f") (pos 3) ≡ codes "ab c,"
unfolding truncate_to_tokens fallback_token_matches matches_from is_space rstrip lstrip
truncated = refl
