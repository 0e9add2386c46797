-- ===== src/Embedding.antt =====
-- Batching of embedding inputs: `_embedding_text_batches` and `_embedding_batch_input_bytes` of
-- memory/ingestion/mvp_ingestion.py. A text is the list of its code points.
pub mod Limits
pub mod Bounds
pub mod Errors
mod Examples
use ai_memory_hub.Base.{
  Text, ℕ, zero, suc, ◌+◌, ◌≡◌, Bool, true, false, ◌&&◌, ◌||◌, not, Option, none, some, List, [],
  ◌∷◌, ◌++◌, map, ltb, leb, eqb, if◌then◌else◌, length, is_empty, ℤ, pos, below_one, to_ℕ, Result,
  ok, raise, value_error, unicode_encode_error, any, ◌>>=◌,
}

-- The length in UTF-8 of a code point.
unfoldable pub utf8_bytes : ℕ → ℕ
utf8_bytes c = if ltb c 0x80 then 1 else if ltb c 0x800 then 2 else if ltb c 0x10000 then 3 else 4

-- The bytes that `json.dumps(…, ensure_ascii=False)` writes for a character of a string.
unfoldable pub json_char_bytes : ℕ → ℕ
unfolding utf8_bytes
json_char_bytes c =
    if eqb c b'"'
      || eqb c 0x5c
      || eqb c 0x08
      || eqb c 0x09
      || eqb c 0x0a
      || eqb c 0x0c
      || eqb c 0x0d
    then 2
    else if ltb c 0x20
    then 6
    else utf8_bytes c

unfoldable pub chars_bytes : Text → ℕ
unfolding json_char_bytes
chars_bytes [] = 0
chars_bytes (c ∷ cs) = json_char_bytes c + chars_bytes cs

-- The bytes of the JSON string of a text that UTF-8 encodes.
unfoldable pub text_bytes : Text → ℕ
unfolding chars_bytes
text_bytes t = chars_bytes t + 2

-- A code point that UTF-8 does not encode.
abbrev pub is_surrogate : ℕ → Bool
is_surrogate c = leb 0xd800 c && leb c 0xdfff

-- `len(json.dumps(text, ensure_ascii=False).encode("utf-8"))`
unfoldable pub encoded_bytes : Text → Result ℕ
encoded_bytes t = if any is_surrogate t then raise unicode_encode_error else ok (text_bytes t)

-- The elements of a JSON array with a comma before each.
unfoldable pub tail_bytes : List Text → ℕ
unfolding text_bytes
tail_bytes [] = 0
tail_bytes (t ∷ ts) = 1 + text_bytes t + tail_bytes ts

-- `_embedding_batch_input_bytes`: the bytes of the JSON array of texts that UTF-8 encodes.
unfoldable pub embedding_batch_input_bytes : List Text → ℕ
unfolding tail_bytes
embedding_batch_input_bytes [] = 2
embedding_batch_input_bytes (t ∷ ts) = 2 + text_bytes t + tail_bytes ts

-- `byte_limit is not None and n > byte_limit`
abbrev pub exceeds : Option ℕ → ℕ → Bool
exceeds none n = false
exceeds (some limit) n = ltb limit n

-- The variables of the loop.
pub record Loop : Type 0 where
  pub batches : List (List Text)
  pub current : List Text
  pub current_bytes : ℕ

abbrev pub start : Loop
start = record { batches = []; current = []; current_bytes = 2 }

-- `separator_bytes = 1 if current else 0`
abbrev pub separator_bytes : List Text → ℕ
separator_bytes current = if is_empty current then 0 else 1

-- The condition under which the batch is closed before the text.
abbrev pub is_full : ℕ → Option ℕ → Loop → ℕ → Bool
is_full size_limit byte_limit s bytes =
    not (is_empty s.current)
    && (leb size_limit (length s.current)
        || exceeds byte_limit (s.current_bytes + separator_bytes s.current + bytes))

abbrev pub close : Loop → Loop
close s = record { batches = s.batches ++ s.current ∷ []; current = []; current_bytes = 2 }

abbrev pub append : Text → ℕ → Loop → Loop
append text bytes s = record s {
  current = s.current ++ text ∷ [];
  current_bytes = s.current_bytes + (separator_bytes s.current + bytes);
}

unfoldable pub too_large : Result Loop
too_large = raise (value_error "Embedding input exceeds provider max_batch_input_bytes")

-- A text whose length in bytes is known.
abbrev pub take_text : ℕ → Option ℕ → Text → Loop → ℕ → Result Loop
take_text size_limit byte_limit text s bytes =
    if exceeds byte_limit (2 + bytes)
    then too_large
    else ok (append text bytes (if is_full size_limit byte_limit s bytes then close s else s))

-- The body of `for text in texts`.
unfoldable pub step : ℕ → Option ℕ → Text → Loop → Result Loop
unfolding too_large encoded_bytes
step size_limit byte_limit text s = encoded_bytes text >>= take_text size_limit byte_limit text s

unfoldable pub loop : ℕ → Option ℕ → List Text → Loop → Result Loop
unfolding step
loop size_limit byte_limit [] s = ok s
loop size_limit byte_limit (text ∷ texts) s = do
  s' ← step size_limit byte_limit text s
  loop size_limit byte_limit texts s'

-- `if current: batches.append(current)`
unfoldable pub finish : Loop → List (List Text)
finish s = if is_empty s.current then s.batches else s.batches ++ s.current ∷ []

abbrev pub default_size : List Text → ℕ
default_size [] = 1
default_size (t ∷ ts) = length (t ∷ ts)

-- The limits as the provider's attributes hold them: `none` for what is no `int`.
abbrev pub size_limit_of : List Text → Option ℤ → ℤ
size_limit_of texts none = pos (default_size texts)
size_limit_of texts (some n) = n

abbrev pub byte_limit_of : Option ℤ → Option ℕ
byte_limit_of none = none
byte_limit_of (some n) = some (to_ℕ n)

abbrev pub is_bad_limit : Option ℤ → Bool
is_bad_limit none = false
is_bad_limit (some n) = below_one n

unfoldable pub embedding_text_batches : List Text → Option ℤ → Option ℤ → Result (List (List Text))
unfolding loop finish
embedding_text_batches texts max_batch_size max_batch_input_bytes =
    let size_limit = size_limit_of texts max_batch_size in
    if below_one size_limit || is_bad_limit max_batch_input_bytes
    then raise (value_error "Embedding provider batch limits must be positive integers")
    else (do
      s ← loop (to_ℕ size_limit) (byte_limit_of max_batch_input_bytes) texts start
      ok (finish s))
