-- ===== src/Auth.antt =====
-- The authentication of requests: memory/auth.py.
pub mod Claims
pub mod Requests
pub mod Middleware
pub mod Guard
pub mod Protected
mod Examples
