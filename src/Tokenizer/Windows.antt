-- ===== src/Tokenizer/Windows.antt =====
-- `split_token_windows` of memory/ingestion/tokenizer.py.
use ai_memory_hub.Base.{
  ℕ, zero, suc, ◌+◌, ◌-◌, Text, ℤ, below_one, is_negative, to_ℕ, Bool, Option, none, some, List, [],
  ◌∷◌, length, take, drop, is_empty, ltb, leb, if◌then◌else◌, strip, Result, ok, raise, value_error,
}
use ai_memory_hub.Tokenizer.Matches.{Encoding, Match, fallback_token_matches, slice}

-- `if window: windows.append(window)`
abbrev pub emit : Text → List Text → List Text
emit window rest = if is_empty window then rest else window ∷ rest

-- `for start in range(start, len(tokens), step)`, where `window` renders `tokens[start:start + max]`.
-- Both loops of the function leave at `start + max_tokens >= len(tokens)`. The fuel bounds the
-- number of windows.
unfoldable pub windows_from {ℓ} :
    {A : Type ℓ} → (List A → Text) → List A → ℕ → ℕ → ℕ → ℕ → List Text
windows_from window tokens max_tokens step zero start = []
windows_from window tokens max_tokens step (suc fuel) start =
    let next = windows_from window tokens max_tokens step fuel (start + step) in
    if ltb start (length tokens)
    then emit (window (take max_tokens (drop start tokens)))
        (if leb (length tokens) (start + max_tokens) then [] else next)
    else []

-- The body of both branches after the tokens are known.
unfoldable pub windows_of {ℓ} : {A : Type ℓ} → (List A → Text) → List A → ℕ → ℕ → Text → List Text
unfolding windows_from
windows_of window tokens max_tokens overlap_tokens text =
    if leb (length tokens) max_tokens
    then text ∷ []
    else windows_from window tokens max_tokens (max_tokens - overlap_tokens) (length tokens) 0

-- `tokenizer.decode(…).strip()`
unfoldable pub decode_window : Encoding → List ℕ → Text
unfolding strip
decode_window e token_ids = strip (e.decode token_ids)

abbrev pub last_end : Match → List Match → ℕ
last_end m [] = m.stop
last_end m (n ∷ ms) = last_end n ms

-- `text[matches[start].start() : matches[end - 1].end()].strip()`
unfoldable pub match_window : Text → List Match → Text
unfolding strip
match_window text [] = []
match_window text (m ∷ ms) = strip (slice m.start (last_end m ms) text)

unfoldable pub split_token_windows :
    (ℕ → Bool) → Option Encoding → Text → ℤ → ℤ → Result (List Text)
unfolding windows_of decode_window match_window fallback_token_matches
split_token_windows is_word encoding text max_tokens overlap_tokens =
    if below_one max_tokens
    then raise (value_error "max_tokens must be positive")
    else if is_negative overlap_tokens
    then raise (value_error "overlap_tokens must be non-negative")
    else if leb (to_ℕ max_tokens) (to_ℕ overlap_tokens)
    then raise (value_error "overlap_tokens must be less than max_tokens")
    else ok (elim encoding [
      | some e ↦
          windows_of (decode_window e) (e.encode text) (to_ℕ max_tokens) (to_ℕ overlap_tokens) text
      | none ↦
          windows_of (match_window text) (fallback_token_matches is_word text) (to_ℕ max_tokens)
            (to_ℕ overlap_tokens) text
    ])
