-- ===== src/Facts.antt =====
-- The timeline of facts: memory/ingestion/fact_timeline.py.
pub mod Entries
pub mod Timeline
pub mod Order
pub mod Historical
pub mod Latest
pub mod Examples
