-- ===== src/Tokenizer/Truncation.antt =====
-- `truncate_to_tokens` of memory/ingestion/tokenizer.py without an encoding.
use ai_memory_hub.Base.{
  ℕ, zero, suc, ◌-◌, ◌≤◌, ◌≡◌, refl, ap, sym, ◌∙◌, subst, arith, Text, Bool, none, some, [], ◌++◌,
  length, take, get_elem?, Bool-cases, inl, inr, pos, leb, leb→le, drop, rstrip, rstrip-prefix,
  take-append, take-append-drop, append_assoc, append-nil, get_elem?-some, length-map,
}
use ai_memory_hub.Tokenizer.Matches.{
  Match, matches_from, fallback_token_matches, count_tokens, end_of, truncate_to_tokens,
}
use ai_memory_hub.Tokenizer.Scan.{scan, Scan-cut, Scan-take}

no_matches : (is_word : ℕ → Bool) → length (fallback_token_matches is_word []) ≡ 0
unfolding fallback_token_matches
no_matches is_word = refl

-- What the fallback cuts off at the end of match `n` and strips counts at most `n + 1` tokens.
count-cut :
    (is_word : ℕ → Bool) (text : Text) (n : ℕ) (m : Match)
    → get_elem? (fallback_token_matches is_word text) n ≡ some m
    → length (fallback_token_matches is_word (rstrip (take m.stop text))) ≤ suc n
unfolding fallback_token_matches
count-cut is_word text n m e =
    let (rest, _, parts) = rstrip-prefix (take m.stop text) in
    let kept = take-append (rstrip (take m.stop text)) rest in
    let is_take : take (length (rstrip (take m.stop text))) (take m.stop text)
        ≡ rstrip (take m.stop text) =
      ap (take (length (rstrip (take m.stop text)))) parts ∙ kept in
    let fewer =
      Scan-take is_word (scan is_word (take m.stop text) 0 none)
        (length (rstrip (take m.stop text))) in
    let fewer_stripped =
      subst
        (λ t.
          length (matches_from is_word 0 none t)
          ≤ length (matches_from is_word 0 none (take m.stop text)))
        is_take fewer in
    let at_most = Scan-cut is_word (scan is_word text 0 none) n m e in
    let whole : m.stop - 0 ≡ m.stop = omega arith in
    let at_most_cut =
      subst (λ k. length (matches_from is_word 0 none (take k text)) ≤ suc n) whole at_most in
    omega (arith, fewer_stripped, at_most_cut)

count_tokens-matches :
    (is_word : ℕ → Bool) (text : Text)
    → count_tokens is_word none text ≡ length (fallback_token_matches is_word text)
unfolding count_tokens
count_tokens-matches is_word text = length-map _ (fallback_token_matches is_word text)

-- A text cut after `k` characters and stripped is a beginning of it.
stripped_cut : (k : ℕ) (text : Text) → (rest : Text) × (text ≡ rstrip (take k text) ++ rest)
stripped_cut k text =
    let (rest, _, parts) = rstrip-prefix (take k text) in
    (
      rest ++ drop k text,
      sym (take-append-drop k text)
          ∙ ap (λ l. l ++ drop k text) parts
          ∙ append_assoc (rstrip (take k text)) rest (drop k text),
    )

cut_short :
    (is_word : ℕ → Bool) (text : Text) (n : ℕ) (m : Match)
    → get_elem? (fallback_token_matches is_word text) n ≡ some m
    → (count_tokens is_word none
          (rstrip (take (end_of (get_elem? (fallback_token_matches is_word text) n)) text))
        ≤ suc n)
      × (rest : Text) × (text
          ≡ rstrip (take (end_of (get_elem? (fallback_token_matches is_word text) n)) text) ++ rest)
cut_short is_word text n m e =
    let (rest, parts) = stripped_cut m.stop text in
    let few : count_tokens is_word none (rstrip (take m.stop text)) ≤ suc n = omega (
      arith,
      count_tokens-matches is_word (rstrip (take m.stop text)),
      count-cut is_word text n m e,
    ) in
    rw e (few, rest, parts)

-- Without an encoding, truncation to `n` tokens yields a beginning of the text that counts at most
-- `n` tokens.
pub truncate_to_tokens-at_most :
    (is_word : ℕ → Bool) (text : Text) (n : ℕ)
    → (count_tokens is_word none (truncate_to_tokens is_word none text (pos n)) ≤ n)
      × (rest : Text) × (text ≡ truncate_to_tokens is_word none text (pos n) ++ rest)
unfolding truncate_to_tokens
truncate_to_tokens-at_most is_word text zero =
    (omega (arith, count_tokens-matches is_word [], no_matches is_word), text, refl)
truncate_to_tokens-at_most is_word text (suc n) =
    let ms = fallback_token_matches is_word text in
    elim (Bool-cases (leb (length ms) (suc n))) [
      | inl short ↦ rw short (
        ground (arith, count_tokens-matches is_word text, leb→le (length ms) (suc n) short),
        [],
        sym (append-nil text),
      )
      | inr long ↦
          let (m, e) = get_elem?-some ms n (ground (arith, long)) in
          let index : suc n - 1 ≡ n = omega arith in rw (long, index) (cut_short is_word text n m e)
    ]
