-- ===== src/Billing.antt =====
-- Package billing of the API service (api/internal/billing).
pub mod Event
pub mod Coalescer
pub mod Calls
pub mod Steps
pub mod Windows
pub mod Keys
pub mod Tests
