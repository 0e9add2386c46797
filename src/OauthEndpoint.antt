-- ===== src/OauthEndpoint.antt =====
-- The token and revocation endpoints of memory/api/oauth_authorization.py, on the token store.
pub mod Handler
pub mod Grants
pub mod Runs
pub mod Answers
pub mod Reuse
mod Examples
