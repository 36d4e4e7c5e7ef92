-- ===== src/RateLimit.antt =====
-- Package ratelimit of the API service (api/internal/ratelimit).
pub mod Store
pub mod Overrides
pub mod Limiter
pub mod Counters
pub mod Quota
pub mod Handlers
mod Tests
