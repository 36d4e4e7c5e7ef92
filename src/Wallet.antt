-- ===== src/Wallet.antt =====
-- Package cache of the API service (api/internal/cache).
pub mod Cache
pub mod Fresh
pub mod Reads
mod Tests
