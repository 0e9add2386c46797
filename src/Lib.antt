-- ===== src/Lib.antt =====
-- AI Memory Hub: a hub that stores conversations, embeds and retrieves them, and guards them with
-- bearer tokens and an OAuth authorization server.
--
-- How the parts interact. Clients get bearer tokens at the OAuth endpoints, which keep clients,
-- codes, tokens and families in the metadata store. The middleware authenticates each request
-- against the same tables. Ingestion detects what a conversation adds to a stored one, cuts the
-- messages into token windows, numbers the chunks and embeds them in batches. An answer is built from
-- retrieved chunks under a token budget.
--
-- Files, with the code they model:
-- - Base and its children: numbers, lists, texts, SQL tables as lists of rows, Python exceptions.
-- - TokenStore: the authentication tables of `SQLiteMetadataStore`, memory/backend/metadata_store.py.
--   A table is a list of rows, a column that may be NULL an `Option`, an SQL time a text, and a call
--   is a function of the store that returns the new store or raises (`Result`); a call that raises is
--   rolled back. Rows, Validate, Projects, Members, Access, Codes, Refresh, Sessions and
--   ProviderStates hold the operations
--   under the names of the methods; Steps makes them the steps of a relation, so that any order of
--   calls of any callers is a path of `Reach`; the other modules hold the proofs.
-- - OauthEndpoint: `oauth_token` and `oauth_revoke` of memory/api/oauth_authorization.py. A handler
--   is a function from the store to its outcome and the store, since what an earlier call committed
--   stays when a later one raises. Values that a request draws from the clock, from `secrets` or from
--   `issue_hub_token` are fields of `Draw`.
-- - Auth: `AuthMiddleware` and the claims of memory/auth.py. Claims, Requests and Middleware hold the code;
--   Protected describes the protected paths by a table of its own, and Guard has the rest of the proofs.
-- - Tokenizer: memory/ingestion/tokenizer.py.
-- - Ingestion: `_detect_append_delta`, `_next_chunk_index` and `chunk_selected_messages` of
--   memory/ingestion/mvp_ingestion.py.
-- - Context: `_select_ask_context` of memory/ingestion/mvp_ingestion.py and what it calls. Overlap,
--   Chunks and Select hold the code; Borders, Longest, Table, Matched and Fuel the proofs on the overlap,
--   Trim those on its removal, and Rounds, Books and Budget those on the selection.
-- - Handoffs: memory/backend/handoff_records.py and the handoff tables of `SQLiteMetadataStore`. Records
--   and Tables hold the code. A step of Lineage is one call, or the write of a replacement whose read
--   was earlier; the other modules hold the proofs.
-- - Facts: memory/ingestion/fact_timeline.py. Entries and Timeline hold the code. An entry has a place in
--   the timeline in the stead of Python's `id`.
-- - Imports: memory/import_outcomes.py.
-- - IndexStates: `update_index_chunks_payload` of memory/backend/metadata_store.py with the chunk ids.
-- - Embedding: `_embedding_text_batches` of memory/ingestion/mvp_ingestion.py.
--
-- Parameters: PBKDF2, SHA-256 and HMAC, the JSON payload of a token, the encodings of `tiktoken`, and
-- which characters are word characters. Texts are lists of code points.
--
-- Fuel: the windows of a text are produced with the number of its tokens as fuel. That is enough,
-- since each window starts at a later token than the one before. The inner loop of the overlap has
-- the matched length as fuel, which each of its rounds makes smaller.
--
-- Not modelled: the other metadata stores, the vector stores, retrieval and ranking,
-- importers, external OIDC, the HTTP and MCP interfaces, configuration, the command line,
-- observability and benchmarks. Columns that record the time of a write and that no query reads are
-- left out. Where a stored scope of a token is not allowed, the source raises after it has committed
-- `last_used_at`, and the model keeps no store. Foreign keys are not enforced by the source either.
pub mod Auth
pub mod Base
pub mod Context
pub mod Embedding
pub mod Facts
pub mod Handoffs
pub mod Imports
pub mod IndexStates
pub mod Ingestion
pub mod OauthEndpoint
pub mod TokenStore
pub mod Tokenizer
