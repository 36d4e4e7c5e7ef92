-- ===== src/Live.antt =====
-- Package ws of the API service (api/internal/ws).
pub mod Blank
pub mod Wire
pub mod Session
pub mod Rounds
pub mod Quiet
pub mod Heard
pub mod Delivered
pub mod Settled
pub mod Exhausted
pub mod Spoken
pub mod Late
pub mod Entry
pub mod Tests
