-- ===== src/IndexStates.antt =====
-- The states of index chunks: the head of memory/backend/metadata_store.py, with the chunk ids of
-- memory/ingestion/mvp_ingestion.py.
pub mod Ids
pub mod Payload
pub mod Parsing
pub mod Targets
pub mod Updates
pub mod Examples
