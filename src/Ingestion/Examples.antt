-- ===== src/Ingestion/Examples.antt =====
-- Histories and chunks, and the theorems about them at concrete inputs.
use ai_memory_hub.Base.{◌≡◌, refl, inl, ◌++◌, Text, codes, pos, true, some, List, [], ◌∷◌, ok}
use ai_memory_hub.Tokenizer.Matches.{Encoding}
use ai_memory_hub.Ingestion.Append.{Message, AppendDelta, append, detect_append_delta}
use ai_memory_hub.Ingestion.Snapshots.{detect_append_delta-total}
use ai_memory_hub.Ingestion.Chunks.{Chunking, Chunk, chunk_at}

abbrev said : Text → Text → Message
said hash text = record { hash = hash; role = codes "user"; text = text }

abbrev first_two : List Message
first_two = said (codes "h1") (codes "abcdef") ∷ said (codes "h2") (codes "gh") ∷ []

abbrev third : Message
third = said (codes "h3") (codes "xyz")

abbrev one_appended : AppendDelta
one_appended = record {
  relation = append;
  messages = third ∷ [];
  incoming_covers_updated_history = true;
}

detect_append_delta-total_example :
    (d : AppendDelta) × (detect_append_delta first_two (first_two ++ third ∷ []) ≡ ok d)
detect_append_delta-total_example =
    detect_append_delta-total first_two (first_two ++ third ∷ []) (inl (codes "h3" ∷ [], refl))

abbrev by_char : Encoding
by_char = record { encode = λ t. t; decode = λ t. t }

abbrev settings : Chunking
settings = record {
  strategy = codes "token";
  max_tokens = pos 4;
  overlap_tokens = pos 1;
  encoding = some by_char;
  is_word = λ _. true;
}

abbrev three_chunks : List Chunk
three_chunks =
    chunk_at (codes "c") 5 5 (said (codes "h1") (codes "abcdef")) 0 (codes "abcd")
    ∷ chunk_at (codes "c") 6 5 (said (codes "h1") (codes "abcdef")) 1 (codes "def")
    ∷ chunk_at (codes "c") 7 6 (said (codes "h2") (codes "gh")) 0 (codes "gh")
    ∷ []
