-- ===== src/Tokenizer/Matches.antt =====
-- The heuristic tokens of memory/ingestion/tokenizer.py: `_FALLBACK_PATTERN`,
-- `_fallback_token_matches`, `_fallback_tokens`, `count_tokens` and `truncate_to_tokens`.
use ai_memory_hub.Base.{
  ℕ, suc, ◌-◌, Text, ℤ, below_one, to_ℕ, Bool, true, false, Option, none, some, List, [], ◌∷◌, map,
  length, take, drop, get_elem?, leb, if◌then◌else◌, is_space, rstrip,
}

-- An encoding of `tiktoken`, as far as the module calls it.
pub record Encoding : Type 0 where
  pub encode : Text → List ℕ
  pub decode : List ℕ → Text

-- A match object: `start()` and `end()`.
pub record Match : Type 0 where
  pub start : ℕ
  pub stop : ℕ

-- The start of the word that is open at a position.
abbrev pub open_at : ℕ → Option ℕ → ℕ
open_at i none = i
open_at i (some s) = s

-- The word that ends at a position.
abbrev pub word_end : ℕ → Option ℕ → List Match → List Match
word_end i none ms = ms
word_end i (some s) ms = record { start = s; stop = i } ∷ ms

-- `finditer` of `\w+|[^\w\s]` from position `i` on, with the start of the open word;
-- `is_word` says which characters `\w` matches.
unfoldable pub matches_from : (ℕ → Bool) → ℕ → Option ℕ → Text → List Match
unfolding is_space
matches_from is_word i word [] = word_end i word []
matches_from is_word i word (c ∷ cs) = elim (is_word c) [
  | true ↦ matches_from is_word (suc i) (some (open_at i word)) cs
  | false ↦ word_end i word (elim (is_space c) [
    | true ↦ matches_from is_word (suc i) none cs
    | false ↦ record { start = i; stop = suc i } ∷ matches_from is_word (suc i) none cs
  ])
]

unfoldable pub fallback_token_matches : (ℕ → Bool) → Text → List Match
unfolding matches_from
fallback_token_matches is_word text = matches_from is_word 0 none text

-- `text[a:b]`
abbrev pub slice : ℕ → ℕ → Text → Text
slice a b text = drop a (take b text)

unfoldable pub fallback_tokens : (ℕ → Bool) → Text → List Text
unfolding fallback_token_matches
fallback_tokens is_word text =
    map (λ m. slice m.start m.stop text) (fallback_token_matches is_word text)

unfoldable pub count_tokens : (ℕ → Bool) → Option Encoding → Text → ℕ
unfolding fallback_tokens
count_tokens is_word (some e) text = length (e.encode text)
count_tokens is_word none text = length (fallback_tokens is_word text)

-- `matches[i].end()`, for an index that is in range.
abbrev pub end_of : Option Match → ℕ
end_of none = 0
end_of (some m) = m.stop

unfoldable pub truncate_to_tokens : (ℕ → Bool) → Option Encoding → Text → ℤ → Text
unfolding fallback_token_matches rstrip
truncate_to_tokens is_word (some e) text max_tokens =
    if below_one max_tokens
    then []
    else let token_ids = e.encode text in
      if leb (length token_ids) (to_ℕ max_tokens)
      then text
      else rstrip (e.decode (take (to_ℕ max_tokens) token_ids))
truncate_to_tokens is_word none text max_tokens =
    if below_one max_tokens
    then []
    else let matches = fallback_token_matches is_word text in
      if leb (length matches) (to_ℕ max_tokens)
      then text
      else rstrip (take (end_of (get_elem? matches (to_ℕ max_tokens - 1))) text)
