-- ===== src/Audio.antt =====
-- Package audio of the API service (api/internal/audio).
pub mod Wav
pub mod Reader
mod Tests
