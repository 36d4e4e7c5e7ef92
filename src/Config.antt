-- ===== src/Config.antt =====
-- Package config of the API service (api/internal/config), and the address of Valkey.
pub mod Env
mod Tests
pub mod Load
