-- ===== src/Ingestion.antt =====
-- Conversations of memory/ingestion/mvp_ingestion.py: messages that are appended, and their chunks.
pub mod Append
pub mod Snapshots
pub mod Chunks
pub mod Indexes
mod Examples
