-- ===== src/Ingestion/Indexes.antt =====
-- The indexes of the chunks of memory/ingestion/mvp_ingestion.py, and the windows they hold.
use ai_memory_hub.Base.{ℕ, suc, ◌+◌, ◌≡◌, Text, List, [], ◌∷◌, ◌++◌, map, length, ok}
use ai_memory_hub.Ingestion.Append.{Message}
use ai_memory_hub.Ingestion.Chunks.{Chunking, Chunk, chunk_at, message_token_windows}

-- The chunks of one message, the first of which has index `n`.
unfoldable pub window_chunks : Text → ℕ → ℕ → Message → ℕ → List Text → List Chunk
window_chunks id n message_index m w [] = []
window_chunks id n message_index m w (text ∷ texts) =
    chunk_at id n message_index m w text ∷ window_chunks id (suc n) message_index m (suc w) texts

-- The windows of the messages, each with its list, give these chunks: the first has index `n`, and
-- the first message has index `i`.
pub data Numbered (s : Chunking) (id : Text) : ℕ → ℕ → List Message → List Chunk → Type 0 where
  none_left : (n i : ℕ) → Numbered s id n i [] []
  one_more :
      (n i : ℕ) (m : Message) (ms : List Message) (windows : List Text) (rest : List Chunk)
      → message_token_windows s m.text ≡ ok windows
      → Numbered s id (n + length windows) (suc i) ms rest
      → Numbered s id n i (m ∷ ms) (window_chunks id n i m 0 windows ++ rest)

abbrev pub count_from : ℕ → ℕ → List ℕ
count_from n ℕ.zero = []
count_from n (suc k) = n ∷ count_from (suc n) k

-- The indexes of the chunks of the messages.
abbrev indexes : List Chunk → List ℕ
indexes = map (λ c. c.chunk_index)
