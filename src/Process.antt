-- ===== src/Process.antt =====
-- The start of the two services: api/cmd/api/main.go and metering/cmd/metering/main.go.
pub mod Dial
pub mod Boot
pub mod Seeded
pub mod Restart
pub mod Meter
mod Tests
