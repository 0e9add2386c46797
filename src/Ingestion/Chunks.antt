-- ===== src/Ingestion/Chunks.antt =====
-- `chunk_selected_messages` and `_message_token_windows` of memory/ingestion/mvp_ingestion.py.
use ai_memory_hub.Base.{
  ℕ, suc, ◌+◌, Text, codes, ℤ, at_least, Bool, Option, List, [], ◌∷◌, ◌++◌, length, if◌then◌else◌,
  ◌==◌, text_eq, Result, ok, raise, value_error, ◌>>=◌,
}
use ai_memory_hub.Tokenizer.Matches.{Encoding}
use ai_memory_hub.Tokenizer.Windows.{split_token_windows}
use ai_memory_hub.Ingestion.Append.{Message}

-- The settings of the runtime, with the encoding and the word characters of the tokenizer.
pub record Chunking : Type 0 where
  pub strategy : Text
  pub max_tokens : ℤ
  pub overlap_tokens : ℤ
  pub encoding : Option Encoding
  pub is_word : ℕ → Bool

unfoldable pub message_token_windows : Chunking → Text → Result (List Text)
unfolding split_token_windows
message_token_windows s text =
    if s.strategy == codes "message"
    then ok (text ∷ [])
    else if at_least s.overlap_tokens s.max_tokens
    then raise (value_error "chunking.overlap_tokens must be less than chunking.max_tokens")
    else split_token_windows s.is_word s.encoding text s.max_tokens s.overlap_tokens

-- The chunk's id is the text of `conversation_id`, `chunk_index` and `message_hash` joined by colons;
-- its state is PENDING.
pub record Chunk : Type 0 where
  pub conversation_id : Text
  pub chunk_index : ℕ
  pub message_hash : Text
  pub message_index : ℕ
  pub token_window_index : ℕ
  pub role : Text
  pub text : Text

abbrev pub chunk_at : Text → ℕ → ℕ → Message → ℕ → Text → Chunk
chunk_at id chunk_index message_index m window_index text = record {
  conversation_id = id;
  chunk_index = chunk_index;
  message_hash = m.hash;
  message_index = message_index;
  token_window_index = window_index;
  role = m.role;
  text = text;
}

-- `for token_window_index, chunk_text in enumerate(token_windows)`
unfoldable pub add_windows : Text → ℕ → ℕ → Message → ℕ → List Text → List Chunk → List Chunk
add_windows id start offset m window_index [] chunks = chunks
add_windows id start offset m window_index (text ∷ texts) chunks =
    add_windows id start offset m (suc window_index) texts
      (chunks ++ chunk_at id (start + length chunks) (start + offset) m window_index text ∷ [])

-- `for offset, message in enumerate(messages)`
unfoldable pub add_messages :
    Chunking → Text → ℕ → ℕ → List Message → List Chunk → Result (List Chunk)
unfolding add_windows message_token_windows
add_messages s id start offset [] chunks = ok chunks
add_messages s id start offset (m ∷ ms) chunks = do
  windows ← message_token_windows s m.text
  add_messages s id start (suc offset) ms (add_windows id start offset m 0 windows chunks)

unfoldable pub chunk_selected_messages : Chunking → Text → List Message → ℕ → Result (List Chunk)
unfolding add_messages
chunk_selected_messages s id messages start_index = add_messages s id start_index 0 messages []

unfoldable pub chunk_messages : Chunking → Text → List Message → Result (List Chunk)
unfolding chunk_selected_messages
chunk_messages s id messages = chunk_selected_messages s id messages 0
