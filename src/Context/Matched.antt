-- ===== src/Context/Matched.antt =====
-- `_longest_exact_edge_overlap` of memory/ingestion/mvp_ingestion.py against a search that tries
-- every length.
use ai_memory_hub.Base.{
  Text, ℕ, zero, suc, ◌-◌, ◌≤◌, ◌≡◌, ◌⊎◌, ◌↔◌, false≢true, refl, sym, subst, ap, ◌∙◌, arith, Bool,
  true, false, ◌&&◌, List, [], ◌∷◌, ◌++◌, length, take, drop, Bool-cases, inl, inr, eqb, leb,
  text_beq, text_beq_iff, append_assoc, length-append, if◌then◌else◌,
}
use ai_memory_hub.Context.Overlap.{
  entry, advance, prefix_lengths, matched_from, matched_length, accepted,
  longest_exact_edge_overlap,
}
use ai_memory_hub.Context.Borders.{
  IsOverlap, Best, Best-of_suc, zero-IsOverlap, IsOverlap-inside, IsOverlap-outside,
}
use ai_memory_hub.Context.Longest.{Good, advance-Best}
use ai_memory_hub.Context.Table.{prefix_lengths-Good}

-- A search that tries the lengths up to `n`, the longest first.
unfoldable is_overlap : Text → Text → ℕ → Bool
is_overlap left right j =
    leb j (length left)
    && leb j (length right)
    && text_beq (drop (length left - j) left) (take j right)

unfoldable pub longest_by_trial : Text → Text → ℕ → ℕ
unfolding is_overlap
longest_by_trial left right zero = 0
longest_by_trial left right (suc n) = elim (is_overlap left right (suc n)) [
  | true ↦ suc n
  | false ↦ longest_by_trial left right n
]

is_overlap-IsOverlap :
    (left right : Text) (j : ℕ) → (is_overlap left right j ≡ true) ↔ IsOverlap right left j
unfolding is_overlap
is_overlap-IsOverlap left right j =
    ground (arith, text_beq_iff (drop (length left - j) left) (take j right))

and_true : (b : Bool) → (b && true) ≡ b
and_true true = refl
and_true false = refl

and_false : (b : Bool) → (b && false) ≡ false
and_false true = refl
and_false false = refl

module _ (p : Text) (table : List ℕ) (room : 1 ≤ length p) (good : Good p table (length p)) where
  -- The step back after a match of all of `right`.
  step_back :
      (s : Text) (m : ℕ)
      → Best p s (suc (length p)) m
      → Best p s (length p) (if eqb m (length p) then entry table (m - 1) else m)
  unfolding Good
  step_back s m best = elim (Bool-cases (eqb m (length p))) [
    | inl whole ↦
        let full : m ≡ length p = ground (arith, whole) in
        let k = m - 1 in
        let up : suc k ≡ m = omega (arith, full, room) in
        let border : Best p (take m p) m (entry table k) =
          rw up at (good k (omega (arith, full, room))) in
        rw whole (record {
          overlap = IsOverlap-outside p s (entry table k) m best.overlap border.overlap;
          short = omega (arith, border.short, full);
          longest = λ j small o.
              border.longest j (omega (arith, small, full))
                (IsOverlap-inside p s j m best.overlap (omega (arith, small, full)) o);
        })
    | inr part ↦ rw part (record {
      overlap = best.overlap;
      short = ground (arith, part, best.short);
      longest = λ j small o. best.longest j (omega (arith, small)) o;
    })
  ]

  matched_from-Best :
      (rest : Text) (c index m : ℕ) (s left : Text)
      → s ++ c ∷ rest ≡ left
      → length s ≡ index
      → Best p s (length p) m
      → Best p left (suc (length p)) (matched_from p table (length left) (c ∷ rest) index m)
  unfolding matched_from
  matched_from-Best [] c index m s left e at_index best =
      let last : eqb index (length left - 1) ≡ true =
        ground (arith, ap length e, length-append s (c ∷ []), at_index) in
      let whole =
        advance-Best p table (length p) s c (length p) m good (omega (arith, best.short)) best in
      rw (last, and_false (eqb (advance p table c m) (length p))) (rw e at whole)
  matched_from-Best (d ∷ rest) c index m s left e at_index best =
      let inner : eqb index (length left - 1) ≡ false =
        ground (arith, ap length e, length-append s (c ∷ d ∷ rest), at_index) in
      let whole =
        advance-Best p table (length p) s c (length p) m good (omega (arith, best.short)) best in
      rw (inner, and_true (eqb (advance p table c m) (length p)))
        (matched_from-Best rest d (suc index) _ (s ++ c ∷ []) left
          (append_assoc s (c ∷ []) (d ∷ rest) ∙ e)
          (omega (arith, length-append s (c ∷ []), at_index))
          (step_back (s ++ c ∷ []) (advance p table c m) whole))

-- The search finds the longest overlap.
matched_length-Best :
    (left right : Text)
    → 1 ≤ length left
    → 1 ≤ length right
    → Best right left (suc (length right)) (matched_length left right)
unfolding matched_length
matched_length-Best [] right h k = absurd (omega (arith, h))
matched_length-Best (c ∷ left) right h k =
    matched_from-Best right (prefix_lengths right) k (prefix_lengths-Good right k) left c 0 0 []
      (c ∷ left) refl refl
      (Best-of_suc right [] (length right) 0 (zero-IsOverlap right []) k
        λ j small o. absurd (omega (arith, o.0)))

longest_by_trial-Best :
    (left right : Text) (n m : ℕ)
    → m ≤ n
    → Best right left (suc n) m
    → longest_by_trial left right n ≡ m
unfolding longest_by_trial
longest_by_trial-Best left right zero m h best = omega (arith, h)
longest_by_trial-Best left right (suc n) m h best =
    elim (Bool-cases (is_overlap left right (suc n))) [
      | inl hit ↦
          let most =
            best.longest (suc n) (omega arith) ((is_overlap-IsOverlap left right (suc n)).0 hit) in
          rw (hit, longest_by_trial) (omega (arith, h, most))
      | inr miss ↦ elim (Bool-cases (eqb m (suc n))) [
        | inl same ↦
            let e : m ≡ suc n = ground (arith, same) in
            absurd (
              false≢true
                (sym miss ∙ (is_overlap-IsOverlap left right (suc n)).1 (rw e at best.overlap)))
        | inr other ↦
            let less : m ≤ n = ground (arith, other, h) in
            rw (miss, longest_by_trial)
              (longest_by_trial-Best left right n m less (record {
                overlap = best.overlap;
                short = omega (arith, less);
                longest = λ j small o. best.longest j (omega (arith, small)) o;
              }))
      ]
    ]

accepted-zero :
    (is_alnum is_word : ℕ → Bool) (left right : Text) (m : ℕ)
    → m ≡ 0
    → accepted is_alnum is_word left right m ≡ 0
unfolding accepted
accepted-zero is_alnum is_word left right m h = ground (arith, h)

trial-empty : (left : Text) (n : ℕ) → longest_by_trial left [] n ≡ 0
unfolding longest_by_trial is_overlap
trial-empty left zero = refl
trial-empty left (suc n) =
    let short : is_overlap left [] (suc n) ≡ false = past_end (leb (suc n) (length left)) in
    rw (short, longest_by_trial) (trial-empty left n)
  where
    past_end :
        (b : Bool) → (b && leb (suc n) 0 && text_beq (drop (length left - suc n) left) []) ≡ false
    past_end b = ground arith

-- On every two texts the function returns what a search returns that compares the last `j`
-- characters of `left` with the first `j` of `right` for each length `j`, from the longest down,
-- followed by the function's own final condition on the length found.
pub longest_exact_edge_overlap-by_trial :
    (is_alnum is_word : ℕ → Bool) (left right : Text)
    → longest_exact_edge_overlap is_alnum is_word left right
      ≡ accepted is_alnum is_word left right (longest_by_trial left right (length left))
unfolding longest_exact_edge_overlap longest_by_trial
longest_exact_edge_overlap-by_trial is_alnum is_word [] right =
    sym (accepted-zero is_alnum is_word [] right 0 refl)
longest_exact_edge_overlap-by_trial is_alnum is_word (c ∷ left) [] =
    sym
      (accepted-zero is_alnum is_word (c ∷ left) [] _ (trial-empty (c ∷ left) (length (c ∷ left))))
longest_exact_edge_overlap-by_trial is_alnum is_word (c ∷ left) (d ∷ right) =
    let best = matched_length-Best (c ∷ left) (d ∷ right) (omega arith) (omega arith) in
    ap (accepted is_alnum is_word (c ∷ left) (d ∷ right)) (
      sym (
        longest_by_trial-Best (c ∷ left) (d ∷ right) (length (c ∷ left)) _ best.overlap.0 (record {
          overlap = best.overlap;
          short = omega (arith, best.overlap.0);
          longest = λ j small o. best.longest j (omega (arith, o.1)) o;
        })))

accepted_cases :
    (is_alnum is_word : ℕ → Bool) (left right : Text) (m : ℕ)
    → (accepted is_alnum is_word left right m ≡ m) ⊎ (accepted is_alnum is_word left right m ≡ 0)
unfolding accepted
accepted_cases is_alnum is_word left right m = ground arith

-- What the function returns is an overlap.
pub longest_exact_edge_overlap-IsOverlap :
    (is_alnum is_word : ℕ → Bool) (left right : Text)
    → IsOverlap right left (longest_exact_edge_overlap is_alnum is_word left right)
unfolding longest_exact_edge_overlap
longest_exact_edge_overlap-IsOverlap is_alnum is_word [] right = zero-IsOverlap right []
longest_exact_edge_overlap-IsOverlap is_alnum is_word (c ∷ left) [] = zero-IsOverlap [] (c ∷ left)
longest_exact_edge_overlap-IsOverlap is_alnum is_word (c ∷ left) (d ∷ right) =
    let best = matched_length-Best (c ∷ left) (d ∷ right) (omega arith) (omega arith) in
    elim (accepted_cases is_alnum is_word (c ∷ left) (d ∷ right)
      (matched_length (c ∷ left) (d ∷ right))) [
        | inl e ↦ subst (IsOverlap (d ∷ right) (c ∷ left)) (sym e) best.overlap
        | inr e ↦
            subst (IsOverlap (d ∷ right) (c ∷ left)) (sym e) (zero-IsOverlap (d ∷ right) (c ∷ left))
      ]
