-- ===== src/Handoffs.antt =====
-- Handoff records: memory/backend/handoff_records.py, memory/handoff_models.py and the tables of
-- memory/backend/metadata_store.py that keep them.
pub mod Records
pub mod Tables
pub mod Prepared
pub mod Lineage
pub mod History
pub mod Lookup
pub mod Search
pub mod Examples
