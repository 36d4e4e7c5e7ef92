-- ===== src/Synth.antt =====
-- Package synthlimit of the API service (api/internal/synthlimit).
pub mod Limiter
pub mod Slots
mod Tests
