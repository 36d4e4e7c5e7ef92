-- ===== src/Auth.antt =====
-- Package auth of the API service (api/internal/auth).
pub mod Token
pub mod Statements
pub mod Accounts
pub mod Keys
pub mod Lifecycle
pub mod Revoked
pub mod Middleware
pub mod Guard
pub mod Tests
pub mod Handlers
