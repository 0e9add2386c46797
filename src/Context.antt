-- ===== src/Context.antt =====
-- The context of an answer: memory/ingestion/mvp_ingestion.py, from `_select_ask_context` down.
pub mod Overlap
pub mod Borders
pub mod Longest
pub mod Table
pub mod Matched
pub mod Fuel
pub mod Chunks
pub mod Select
pub mod Rounds
pub mod Books
pub mod Budget
pub mod Trim
pub mod Examples
