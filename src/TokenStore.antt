-- ===== src/TokenStore.antt =====
-- The authentication tables of memory/backend/metadata_store.py (`SQLiteMetadataStore`).
pub mod Rows
pub mod Validate
pub mod Projects
pub mod Members
pub mod Roles
pub mod Grading
pub mod Access
pub mod Codes
pub mod Refresh
pub mod Frames
pub mod Creation
pub mod ProviderStates
pub mod Logins
pub mod Sessions
pub mod Reopening
pub mod Steps
pub mod Effects
pub mod Spent
pub mod SingleUse
pub mod Grants
pub mod Expiry
pub mod Families
pub mod Examples
