-- ===== src/Tokenizer/Coverage.antt =====
-- The windows of memory/ingestion/tokenizer.py against the tokens of the text.
use ai_memory_hub.Base.{
  ℕ, zero, suc, ◌≤◌, Text, List, [], ◌∷◌, ◌++◌, length, take, drop, concat, map, leb, if◌then◌else◌,
}
use ai_memory_hub.Tokenizer.Windows.{emit}

module _ {ℓ} {A : Type ℓ} where
  -- Slices put together again: of each but the first, the overlap is dropped.
  abbrev pub stitch : ℕ → List (List A) → List A
  stitch overlap [] = []
  stitch overlap (xs ∷ xss) = xs ++ concat (map (drop overlap) xss)

  -- The slices whose windows the loop renders.
  unfoldable slices : ℕ → ℕ → ℕ → List A → List (List A)
  slices m step zero xs = []
  slices m step (suc fuel) xs =
      take m xs ∷ (if leb (length xs) m then [] else slices m step fuel (drop step xs))

  -- What the rendered slice adds.
  unfoldable pub rendered : (List A → Text) → List (List A) → List Text
  rendered window [] = []
  rendered window (xs ∷ xss) = emit (window xs) (rendered window xss)

  -- A slice is not empty and holds at most `m` tokens.
  abbrev pub IsWindow : ℕ → List A → Type 0
  IsWindow m xs = (1 ≤ length xs) × (length xs ≤ m)
