-- ===== src/Embedding/Examples.antt =====
-- Runs of the batching, and the theorems at concrete inputs.
use ai_memory_hub.Base.{
  Text, ◌≡◌, refl, none, some, List, [], ◌∷◌, concat, All, pos, ok, true, ◌↔◌, raise,
  unicode_encode_error,
}
use ai_memory_hub.Embedding.{text_bytes, embedding_text_batches}
use ai_memory_hub.Embedding.Limits.{Fits}
use ai_memory_hub.Embedding.Bounds.{embedding_text_batches-Fits}
use ai_memory_hub.Embedding.Errors.{
  is_ok, GoodLimit, IsEncodable, FitsAlone, embedding_text_batches-ok_iff,
}

abbrev three : List Text
three = (b'a' ∷ b'b' ∷ []) ∷ (0xe9 ∷ []) ∷ (b'"' ∷ []) ∷ []

abbrev two_batches : List (List Text)
two_batches = ((b'a' ∷ b'b' ∷ []) ∷ (0xe9 ∷ []) ∷ []) ∷ ((b'"' ∷ []) ∷ []) ∷ []

run : embedding_text_batches three none (some (pos 11)) ≡ ok two_batches
unfolding embedding_text_batches text_bytes
run = refl

embedding_text_batches-Fits_example :
    (concat two_batches ≡ three) × All (Fits 3 (some 11)) two_batches
embedding_text_batches-Fits_example =
    embedding_text_batches-Fits three none (some (pos 11)) two_batches run

embedding_text_batches-ok_iff_example :
    is_ok (embedding_text_batches three none (some (pos 5))) ≡ true ↔ (
      GoodLimit none
      × GoodLimit (some (pos 5))
      × All (λ t. IsEncodable t × FitsAlone t (some (pos 5))) three)
embedding_text_batches-ok_iff_example = embedding_text_batches-ok_iff three none (some (pos 5))

surrogate_raises :
    embedding_text_batches ((0xd800 ∷ []) ∷ []) none none ≡ raise unicode_encode_error
unfolding embedding_text_batches
surrogate_raises = refl
