-- ===== src/Api.antt =====
-- The routes of the API behind authentication and rate limit.
pub mod Wrappers
pub mod Router
pub mod Protected
pub mod Root
pub mod Closed
pub mod Pages
mod Tests
