-- ===== src/Context/Fuel.antt =====
-- The inner `while` of `_longest_exact_edge_overlap` in memory/ingestion/mvp_ingestion.py ends.
use ai_memory_hub.Base.{
  Text, ℕ, zero, suc, ◌≤◌, ◌<◌, ◌≡◌, refl, arith, Bool, false, ◌&&◌, not, List, length, nonzero,
  Bool-cases, inl, inr,
}
use ai_memory_hub.Context.Overlap.{entry, matches, fall, prefix_lengths}
use ai_memory_hub.Context.Longest.{Good, suc-less_one}
use ai_memory_hub.Context.Table.{prefix_lengths-Good}

-- The test of the loop.
abbrev pub goes_on : Text → ℕ → ℕ → Bool
goes_on right character matched = nonzero matched && not (matches right character matched)

module _ (right : Text) (table : List ℕ) (character n : ℕ)
    (down : (k : ℕ) → k < n → entry table k ≤ k) where
  fall-fuel :
      (f g matched : ℕ)
      → matched ≤ n
      → matched ≤ f
      → matched ≤ g
      → fall right table character f matched ≡ fall right table character g matched
  unfolding fall
  fall-fuel zero zero matched h j k = refl
  fall-fuel zero (suc g) zero h j k = refl
  fall-fuel zero (suc g) (suc m) h j k = absurd (omega (arith, j))
  fall-fuel (suc f) zero zero h j k = refl
  fall-fuel (suc f) zero (suc m) h j k = absurd (omega (arith, k))
  fall-fuel (suc f) (suc g) zero h j k = refl
  fall-fuel (suc f) (suc g) (suc m) h j k = elim (Bool-cases (matches right character (suc m))) [
    | inl hit ↦ rw (hit, fall) refl
    | inr miss ↦
        let less = down m (omega (arith, h)) in
        rw (miss, fall, suc-less_one m)
          (fall-fuel f g (entry table m) (omega (arith, h, less)) (omega (arith, j, less))
            (omega (arith, k, less)))
  ]

  fall-test :
      (f matched : ℕ)
      → matched ≤ n
      → matched ≤ f
      → (goes_on right character (fall right table character f matched) ≡ false)
        × (fall right table character f matched ≤ matched)
  unfolding fall
  fall-test zero zero h j = (refl, omega arith)
  fall-test zero (suc m) h j = absurd (omega (arith, j))
  fall-test (suc f) zero h j = (refl, omega arith)
  fall-test (suc f) (suc m) h j = elim (Bool-cases (matches right character (suc m))) [
    | inl hit ↦ rw (hit, fall, hit) (refl, omega arith)
    | inr miss ↦
        let less = down m (omega (arith, h)) in
        let (ends, short) =
          fall-test f (entry table m) (omega (arith, h, less)) (omega (arith, j, less)) in
        rw (miss, fall, suc-less_one m) (ends, omega (arith, short, less))
  ]

-- With the table that the first loop fills in, and from a matched length that is at most the length
-- of `right`, the inner loop ends because its test fails, at a length that is not larger, and any
-- fuel of at least the matched length gives the same.
pub fall-ends :
    (right : Text) (character fuel matched : ℕ)
    → 1 ≤ length right
    → matched ≤ length right
    → matched ≤ fuel
    → (goes_on right character (fall right (prefix_lengths right) character fuel matched) ≡ false)
      × (fall right (prefix_lengths right) character fuel matched ≤ matched)
      × (fall right (prefix_lengths right) character fuel matched
          ≡ fall right (prefix_lengths right) character matched matched)
unfolding Good
fall-ends right character fuel matched room h k =
    let table = prefix_lengths right in
    let down : (k : ℕ) → k < length right → entry table k ≤ k = λ k small.
      let short = (prefix_lengths-Good right room k small).short in omega (arith, short) in
    let (ends, shorter) = fall-test right table character (length right) down fuel matched h k in
    (
      ends,
      shorter,
      fall-fuel right table character (length right) down fuel matched matched h k (omega arith),
    )
