-- ===== src/Tokenizer.antt =====
-- Token counts and windows: memory/ingestion/tokenizer.py. A text is the list of its code points.
pub mod Matches
pub mod Windows
pub mod Coverage
pub mod Scan
pub mod Truncation
mod Examples
