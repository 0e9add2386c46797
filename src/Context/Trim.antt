-- ===== src/Context/Trim.antt =====
-- What the trimming of neighbouring chunks in memory/ingestion/mvp_ingestion.py takes away.
use ai_memory_hub.Base.{
  text_eq, text_beq_iff, adjacent, at_least, ◌==◌, not, true, false, Text, ℕ, ◌-◌, ◌≤◌, ◌≡◌, ◌⊎◌,
  refl, sym, ap, ◌∙◌, arith, Bool, true, ◌||◌, ◌++◌, length, take, drop, eqb, Bool-cases, inl, inr,
  All, take-append-drop, length-take, append_assoc, is_space, rstrip, lstrip-suffix, rstrip-prefix,
}
use ai_memory_hub.Context.Overlap.{longest_exact_edge_overlap}
use ai_memory_hub.Context.Matched.{longest_exact_edge_overlap-IsOverlap}
use ai_memory_hub.Context.Chunks.{
  Identity, trim_against, distant_windows, trim_exact_prefix_overlap, trim_exact_suffix_overlap,
}

-- `text` is what ends `prior`, white space and `left`.
abbrev pub Continues : Text → Text → Text → Type 0
Continues prior text left =
    (before : Text) × (shared : Text) × (blank : Text) × (1 ≤ length shared)
    × (prior ≡ before ++ shared)
    × (text ≡ shared ++ (blank ++ left))
    × All (λ c. is_space c ≡ true) blank

-- `text` is `left`, white space and what begins `next`.
abbrev pub Precedes : Text → Text → Text → Type 0
Precedes next text left =
    (shared : Text) × (blank : Text) × (after : Text) × (1 ≤ length shared)
    × (next ≡ shared ++ after)
    × (text ≡ left ++ (blank ++ shared))
    × All (λ c. is_space c ≡ true) blank

-- A text that follows a prior one is left alone, or it begins with an end of the prior text, which
-- is not empty, and white space, and the rest of it is the result.
pub trim_exact_prefix_overlap-Continues :
    (is_alnum is_word : ℕ → Bool) (text prior : Text)
    → (trim_exact_prefix_overlap is_alnum is_word text prior ≡ text)
      ⊎ Continues prior text (trim_exact_prefix_overlap is_alnum is_word text prior)
unfolding trim_exact_prefix_overlap
trim_exact_prefix_overlap-Continues is_alnum is_word text prior =
    let n = longest_exact_edge_overlap is_alnum is_word prior text in
    let (h, k, e) = longest_exact_edge_overlap-IsOverlap is_alnum is_word prior text in
    elim (Bool-cases (eqb n 0 || eqb n (length text) || eqb n (length prior))) [
      | inl kept ↦ rw kept (inl refl)
      | inr cut ↦
          let (blank, spaces, parts) = lstrip-suffix (drop n text) in
          rw cut (
            inr (
              take (length prior - n) prior,
              take n text,
              blank,
              ground (arith, length-take n text, cut, k),
              sym (take-append-drop (length prior - n) prior)
                  ∙ ap (λ r. take (length prior - n) prior ++ r) e,
              sym (take-append-drop n text) ∙ ap (λ r. take n text ++ r) parts,
              spaces,
            ))
    ]

-- A text that precedes a prior one is left alone, or it is the result, white space and a beginning
-- of the prior text, which is not empty.
pub trim_exact_suffix_overlap-Precedes :
    (is_alnum is_word : ℕ → Bool) (text prior : Text)
    → (trim_exact_suffix_overlap is_alnum is_word text prior ≡ text)
      ⊎ Precedes prior text (trim_exact_suffix_overlap is_alnum is_word text prior)
unfolding trim_exact_suffix_overlap
trim_exact_suffix_overlap-Precedes is_alnum is_word text prior =
    let n = longest_exact_edge_overlap is_alnum is_word text prior in
    let (h, k, e) = longest_exact_edge_overlap-IsOverlap is_alnum is_word text prior in
    elim (Bool-cases (eqb n 0 || eqb n (length text) || eqb n (length prior))) [
      | inl kept ↦ rw kept (inl refl)
      | inr cut ↦
          let (blank, spaces, parts) = rstrip-prefix (take (length text - n) text) in
          rw cut (
            inr (
              take n prior,
              blank,
              drop n prior,
              ground (arith, length-take n prior, cut, k),
              sym (take-append-drop n prior),
              sym (take-append-drop (length text - n) text)
                  ∙ ap (λ r. r ++ drop (length text - n) text) parts
                  ∙ ap (λ r. (rstrip (take (length text - n) text) ++ blank) ++ r) e
                  ∙ append_assoc (rstrip (take (length text - n) text)) blank (take n prior),
              spaces,
            ))
    ]

-- A chunk keeps its text against a prior one, or both are of one message of one memory at indexes
-- that differ by one, and the text lost only white space and what it shared: where it stands after
-- the prior one it began with an end of the prior text, and where it stands before it ended with a
-- beginning of the prior text.
pub trim_against-shared :
    (is_alnum is_word : ℕ → Bool) (own prior : Identity) (prior_text text : Text)
    → (trim_against is_alnum is_word own prior prior_text text ≡ text)
      ⊎ ((own.memory_id ≡ prior.memory_id)
          × (own.hash ≡ prior.hash)
          × (adjacent own.index prior.index ≡ true)
          × ((at_least prior.index own.index ≡ false)
                × Continues prior_text text
                    (trim_against is_alnum is_word own prior prior_text text)
              ⊎ (at_least prior.index own.index ≡ true)
                × Precedes prior_text text
                    (trim_against is_alnum is_word own prior prior_text text)))
unfolding trim_against
trim_against-shared is_alnum is_word own prior prior_text text =
    let one_memory = own.memory_id == prior.memory_id in
    let one_message = own.hash == prior.hash in
    let near = adjacent own.index prior.index in
    let far = distant_windows is_alnum is_word own.window prior.window in
    elim (Bool-cases (not one_memory || not one_message || not near || far)) [
      | inl apart ↦ rw apart (inl refl)
      | inr close ↦
          let (a, b, c) = all_false one_memory one_message near far close in
          let same_memory = (text_beq_iff own.memory_id prior.memory_id).0 a in
          let same_message = (text_beq_iff own.hash prior.hash).0 b in
          elim (Bool-cases (at_least prior.index own.index)) [
            | inl before ↦
                rw (close, before)
                  (elim (trim_exact_suffix_overlap-Precedes is_alnum is_word text prior_text) [
                    | inl kept ↦ inl kept
                    | inr cut ↦ inr (same_memory, same_message, c, inr (refl, cut))
                  ])
            | inr follows ↦
                rw (close, follows)
                  (elim (trim_exact_prefix_overlap-Continues is_alnum is_word text prior_text) [
                    | inl kept ↦ inl kept
                    | inr cut ↦ inr (same_memory, same_message, c, inl (refl, cut))
                  ])
          ]
    ]
  where
    all_false :
        (a b c d : Bool)
        → (not a || not b || not c || d) ≡ false
        → (a ≡ true) × (b ≡ true) × (c ≡ true)
    all_false a b c d h = ground arith
